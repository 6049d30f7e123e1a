-- ===== src/Release/Lock.antt =====
-- Which release is served to whom, and with which lock.
use text.Mathlib.Text.{◌==◌ as str_eq}
use text.Mathlib.TextEquality.{eq_iff}
use mathlib.Core.Option.{some-injective}
use anvilkit_agent_api.Base.{
  String, ◌≡◌, refl, sym, ap, ◌∙◌, Option, none, some, ◌⊎◌, inl, inr, Bool-cases, Option-cases,
}
use anvilkit_agent_api.Base.Results.{failed, ok, ◌>>=◌}
use anvilkit_agent_api.Control.{Answer}
use anvilkit_agent_api.Control.Wire.{Stubs, Called, Operation, GetOperation}
use anvilkit_agent_api.Control.Client.{scope}
use anvilkit_agent_api.Control.Handlers.{Context, principal_of, Reply}
use anvilkit_agent_api.Control.Capability.{respond-ok, mapped-ok}
use anvilkit_agent_api.Release.{
  Recorded, Release, ReleaseLock, Subject, lock_of, activated, pinned, to_release, authorize,
  get_release, handle_get_release,
}

then-ok :
    {A B : Type 0} (x : Answer A) (f : A → Answer B) (b : B)
    → (x >>= f) ≡ ok b
    → (a : A) × (x ≡ ok a) × (f a ≡ ok b)
then-ok (failed e) f b h = let stop : failed e ≡ ok b = h in cc
then-ok (ok a) f b h = (a, refl, h)

-- The release is activated, and the lock pins its id, its browser's manifest and its subject.
pub record Pins (r : Recorded) (l : ReleaseLock) : Type 0 where
  pub subject : Subject
  pub recorded : r.subject ≡ some subject
  pub state : r.state ≡ "RELEASE_STATE_ACTIVATED"
  pub release_id : r.release_id ≡ some l.release_id
  pub manifest : r.browser.manifest_digest ≡ some l.browser_manifest_digest
  pub component : l.component_id ≡ subject.component_id
  pub package_name : l.package_name ≡ subject.package_name
  pub version : l.package_version ≡ subject.version
  pub host : l.host_profile_id ≡ subject.host_abi

lock_of-some :
    (r : Recorded) (state : String) (id manifest : Option String) (s : Option Subject)
    (l : ReleaseLock)
    → r.state ≡ state
    → r.release_id ≡ id
    → r.browser.manifest_digest ≡ manifest
    → r.subject ≡ s
    → lock_of state id manifest s ≡ some l
    → Pins r l
unfolding lock_of
lock_of-some r state none m s l a b c d h = let stop : none ≡ some l = h in cc
lock_of-some r state (some i) none s l a b c d h = let stop : none ≡ some l = h in cc
lock_of-some r state (some i) (some m) none l a b c d h = let stop : none ≡ some l = h in cc
lock_of-some r state (some i) (some m) (some s) l a b c d h =
    elim (Bool-cases (str_eq state activated)) [
      | inr other ↦ let stop : none ≡ some l = rw (other, lock_of) at h in cc
      | inl is_activated ↦
          let same : pinned s i m ≡ l =
            some-injective (pinned s i m) l (rw (is_activated, lock_of) at h) in
          record {
            subject = s;
            recorded = d;
            state = a ∙ (eq_iff state activated).0 is_activated;
            release_id = b ∙ ap (λ x. some x.release_id) same;
            manifest = c ∙ ap (λ x. some x.browser_manifest_digest) same;
            component = sym (ap (λ x. x.component_id) same);
            package_name = sym (ap (λ x. x.package_name) same);
            version = sym (ap (λ x. x.package_version) same);
            host = sym (ap (λ x. x.host_profile_id) same);
          }
    ]

module _ (stubs : Stubs) (read : String → String → Called Recorded) where
  -- Control let the caller read the operation, and has recorded the release for the caller's tenant.
  pub record Provenance (c : Context) (operation_id : String) (v : Release) : Type 0 where
    pub question : GetOperation
    pub operation : Operation
    pub tenant : question.scope.tenant_id ≡ (principal_of c).tenant_id
    pub project : question.scope.project_id ≡ (principal_of c).project_id
    pub actor : question.scope.actor_id ≡ (principal_of c).actor_id
    pub asked : question.operation_id ≡ operation_id
    pub allowed : stubs.get_operation question ≡ ok operation
    pub recorded : Recorded
    pub answer : read (principal_of c).tenant_id operation_id ≡ ok recorded
    pub shown : to_release recorded ≡ v

  handle_lem :
      (c : Context) (operation_id : String) (reply : Reply Release)
      → handle_get_release stubs read c operation_id ≡ ok reply
      → Provenance c operation_id reply.body
  unfolding handle_get_release get_release authorize scope
  handle_lem c operation_id reply h =
      let (v, got, same) =
        respond-ok 200 (λ r. r) (get_release stubs read (principal_of c) operation_id) reply h in
      let (o, allowed, shown) = then-ok (authorize stubs (principal_of c) operation_id) _ v got in
      let (w, called, _) = mapped-ok (λ x. x) _ o allowed in
      let (r, answer, view) = mapped-ok to_release _ v shown in
      record {
        question = _;
        operation = w;
        tenant = refl;
        project = refl;
        actor = refl;
        asked = refl;
        allowed = called;
        recorded = r;
        answer = answer;
        shown = view ∙ same;
      }

  -- A release that is served is one that Control has recorded for the caller's tenant, of an operation
  -- that Control let the caller read under the caller's own tenant, project and actor; and either it
  -- has no lock entry, or the recorded release is activated and the entry pins its id, the manifest
  -- of its browser target and the component, package, version and host of its subject.
  pub get_release_lem :
      (c : Context) (operation_id : String) (reply : Reply Release)
      → handle_get_release stubs read c operation_id ≡ ok reply
      → (served : Provenance c operation_id reply.body) × ((reply.body.lock ≡ none)
          ⊎ ((l : ReleaseLock) × (reply.body.lock ≡ some l) × Pins served.recorded l))
  unfolding to_release
  get_release_lem c operation_id reply h =
      let served = handle_lem c operation_id reply h in
      (
        served,
        elim (Option-cases reply.body.lock) [
          | inl missing ↦ inl missing
          | inr (l, k) ↦ inr (
            l,
            k,
            lock_of-some served.recorded _ _ _ _ l refl refl refl refl
                (ap (λ v. v.lock) served.shown ∙ k),
          )
        ],
      )
