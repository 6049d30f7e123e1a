-- ===== src/Preview/Verified.antt =====
-- Bytes are served only as they were recorded, and only to who may read the operation.
use mathlib.Core.Option.{some-injective}
use text.Mathlib.Text.{◌==◌ as str_eq}
use text.Mathlib.TextEquality.{eq_iff}
use anvilkit_agent_api.Base.{
  ℕ, ◌+◌, ◌≤◌, String, ◌≡◌, refl, sym, ap, ◌∙◌, ◌⊎◌, inl, inr, not, ◌||◌, Option, none, some, List,
  [], ◌∷◌, length, take, ◌==◌, arith, Bool-cases, Option-cases,
}
use anvilkit_agent_api.Base.Int.{ℤ, pos, negsuc, above}
use anvilkit_agent_api.Errors.{ControlError}
use anvilkit_agent_api.Errors.Owner.{OwnerError, map_failed}
use anvilkit_agent_api.Preview.{
  Artifact, Preview, Source, Answer, refused, answered, Fetched, unusable, unreachable, response,
  Owner, Result, denied, served, unavailable, final, max_preview_artifact, max_source_archive,
  media_type_of, artifacts_of, last_of, check_bytes, status_error, read_fetched, read_download,
  read_verified, sized, read_preview_artifact, read_source, with_bytes, PreviewBytes, SourceBytes,
}

served-injective : {A : Type 0} (a b : A) → served a ≡ served b → a ≡ b
served-injective a b h = cc

answer-cases :
    {A : Type 0} (r : Answer A)
    → ((e : OwnerError) × (r ≡ refused e)) ⊎ ((a : A) × (r ≡ answered a))
answer-cases (refused e) = inl (e, refl)
answer-cases (answered a) = inr (a, refl)

module _ {D : Type 0} (owner : Owner D) where
  -- The bytes are what the artifact records.
  pub record IsRecorded (a : Artifact) (bound : ℕ) (body : List ℕ) : Type 0 where
    pub size : owner.parse_int a.size_bytes ≡ some (pos (length body))
    pub within : length body ≤ bound
    pub digest : owner.digest_of body ≡ a.digest

  check_bytes_served :
      (digest : String) (size : ℕ) (read body : List ℕ)
      → check_bytes owner digest size read ≡ served body
      → (length body ≡ size) × (owner.digest_of body ≡ digest)
  unfolding check_bytes
  check_bytes_served digest size read body h =
      elim (Bool-cases (not (length read == size) || not (str_eq (owner.digest_of read) digest))) [
        | inl differs ↦
            let stop : denied (
                  final "EFFECT_UNCERTAIN" "artifact bytes differ from the recorded digest or size")
                ≡ served body =
              rw (differs, check_bytes) at h in
            cc
        | inr same ↦
            let e : read ≡ body =
              ground
                (arith, (let k : served read ≡ served body = rw (same, check_bytes) at h in k)) in
            (
              ap length (sym e) ∙ ground (arith, same),
              ap owner.digest_of (sym e)
                  ∙ ground (arith, same, eq_iff (owner.digest_of read) digest),
            )
      ]

  read_fetched_served :
      (digest : String) (size : ℕ) (f : Fetched) (body : List ℕ)
      → read_fetched owner digest size f ≡ served body
      → (length body ≡ size) × (owner.digest_of body ≡ digest)
  unfolding read_fetched
  read_fetched_served digest size unusable body h =
      let stop : denied (unavailable "artifact capability unusable") ≡ served body = h in cc
  read_fetched_served digest size unreachable body h =
      let stop : denied (unavailable "artifact store unreachable") ≡ served body = h in cc
  read_fetched_served digest size (response status none) body h =
      let stop : denied (status_error owner status) ≡ served body = h in cc
  read_fetched_served digest size (response status (some read)) body h =
      elim (Bool-cases (not (status == 200))) [
        | inl failed ↦
            let stop : denied (status_error owner status) ≡ served body =
              rw (failed, read_fetched) at h in
            cc
        | inr ok ↦
            check_bytes_served digest size (take (size + 1) read) body (rw (ok, read_fetched) at h)
      ]

  read_download_served :
      (digest : String) (size : ℕ) (d : Answer D) (body : List ℕ)
      → read_download owner digest size d ≡ served body
      → (length body ≡ size) × (owner.digest_of body ≡ digest)
  read_download_served digest size (refused e) body h =
      let stop : denied (map_failed e "control") ≡ served body = h in cc
  read_download_served digest size (answered d) body h =
      read_fetched_served digest size (owner.fetch d) body h

  sized_served :
      (over : ControlError) (bound : ℕ) (operation : String) (a : Artifact) (size : Option ℤ)
      (body : List ℕ)
      → owner.parse_int a.size_bytes ≡ size
      → sized owner over bound operation a size ≡ served body
      → IsRecorded a bound body
  unfolding read_verified
  sized_served over bound operation a none body e h = let stop : denied over ≡ served body = h in cc
  sized_served over bound operation a (some (negsuc n)) body e h =
      let stop : denied over ≡ served body = h in cc
  sized_served over bound operation a (some (pos n)) body e h =
      elim (Bool-cases (above (pos n) bound)) [
        | inl large ↦ let stop : denied over ≡ served body = rw large at h in cc
        | inr fits ↦
            let (exact, digest) =
              read_download_served a.digest n (owner.read_artifact a.handle operation) body
                (rw fits at h) in
            record { size = rw exact e; within = ground (arith, fits, exact); digest = digest }
      ]

  with_bytes_served :
      {A : Type 0} (f : List ℕ → A) (r : Result (List ℕ)) (a : A)
      → with_bytes f r ≡ served a
      → (body : List ℕ) × (r ≡ served body) × (f body ≡ a)
  with_bytes_served f (denied e) a h = let stop : denied e ≡ served a = h in cc
  with_bytes_served f (served body) a h = (body, refl, served-injective (f body) a h)

  -- The source that Control has for the operation, recorded as it is served.
  pub record IsSource (operation : String) (b : SourceBytes) : Type 0 where
    pub source : Source
    pub answer : owner.get_source operation ≡ answered source
    pub recorded : IsRecorded source.archive max_source_archive b.body
    pub lineage : b.lineage ≡ source.lineage
    pub revision : b.revision ≡ source.revision
    pub exact_digest : b.digest ≡ source.archive.digest

  -- A source archive that is served is the one that Control records for an operation it let this
  -- user read: of the recorded size, at most 16 MiB, and digest, under the recorded lineage and
  -- revision.
  pub read_source_served :
      (operation : String) (b : SourceBytes)
      → read_source owner operation ≡ served b
      → (owner.get_operation operation ≡ none) × IsSource operation b
  unfolding read_source
  read_source_served operation b h = elim (Option-cases (owner.get_operation operation)) [
    | inr (e, refusal) ↦
        let stop : denied (map_failed e "control") ≡ served b = rw (refusal, read_source) at h in cc
    | inl allowed ↦ elim (answer-cases (owner.get_source operation)) [
      | inl (e, refusal) ↦
          let stop : denied (map_failed e "control") ≡ served b =
            rw (allowed, refusal, read_source) at h in
          cc
      | inr (s, found) ↦
          let (body, read, same) =
            with_bytes_served _ _ b (rw (allowed, found, read_source) at h) in
          (
            allowed,
            record {
              source = s;
              answer = found;
              recorded =
                  rw (sym (ap (λ (x : SourceBytes). x.body) same))
                    (sized_served _ _ operation s.archive _ body refl read);
              lineage = sym (ap (λ (x : SourceBytes). x.lineage) same);
              revision = sym (ap (λ (x : SourceBytes). x.revision) same);
              exact_digest = sym (ap (λ (x : SourceBytes). x.digest) same);
            },
          )
    ]
  ]

  -- An artifact of the operation's preview that carries the digest asked for.
  pub record IsPreview (operation digest : String) (b : PreviewBytes) : Type 0 where
    pub preview : Preview
    pub artifact : Artifact
    pub answer : owner.get_preview operation ≡ answered preview
    pub listed : last_of digest (artifacts_of preview) ≡ some artifact
    pub asked : artifact.digest ≡ digest
    pub recorded : IsRecorded artifact max_preview_artifact b.body
    pub media_type : b.media_type ≡ media_type_of artifact.class

  last_of-digest :
      (digest : String) (as_listed : List Artifact) (a : Artifact)
      → last_of digest as_listed ≡ some a
      → a.digest ≡ digest
  unfolding last_of
  last_of-digest digest [] a h = let stop : none ≡ some a = h in cc
  last_of-digest digest (x ∷ rest) a h = elim (Option-cases (last_of digest rest)) [
    | inr (found, e) ↦ last_of-digest digest rest a (e ∙ (rw (e, last_of) at h))
    | inl missing ↦ elim (Bool-cases (str_eq x.digest digest)) [
      | inl same ↦
          let here : some x ≡ some a = rw (missing, same, last_of) at h in
          ap (λ (y : Artifact). y.digest) (sym (some-injective x a here))
          ∙ (eq_iff x.digest digest).0 same
      | inr other ↦ let stop : none ≡ some a = rw (missing, other, last_of) at h in cc
    ]
  ]

  -- A preview artifact that is served is listed by the preview of an operation that Control let this
  -- user read, under the digest asked for, and has that digest and the recorded size, at most 2 MiB.
  pub read_preview_artifact_served :
      (operation digest : String) (b : PreviewBytes)
      → read_preview_artifact owner operation digest ≡ served b
      → (owner.get_operation operation ≡ none) × IsPreview operation digest b
  unfolding read_preview_artifact
  read_preview_artifact_served operation digest b h =
      elim (Option-cases (owner.get_operation operation)) [
        | inr (e, refusal) ↦
            let stop : denied (map_failed e "control") ≡ served b =
              rw (refusal, read_preview_artifact) at h in
            cc
        | inl allowed ↦ elim (answer-cases (owner.get_preview operation)) [
          | inl (e, refusal) ↦
              let stop : denied (map_failed e "control") ≡ served b =
                rw (allowed, refusal, read_preview_artifact) at h in
              cc
          | inr (p, found) ↦ elim (Option-cases (last_of digest (artifacts_of p))) [
            | inl missing ↦
                let stop : denied (final "NOT_FOUND" "no artifact of this preview has that digest")
                    ≡ served b =
                  rw (allowed, found, missing, read_preview_artifact) at h in
                cc
            | inr (a, listed) ↦
                let (body, read, same) =
                  with_bytes_served _ _ b
                    (rw (allowed, found, listed, read_preview_artifact) at h) in
                (
                  allowed,
                  record {
                    preview = p;
                    artifact = a;
                    answer = found;
                    listed = listed;
                    asked = last_of-digest digest (artifacts_of p) a listed;
                    recorded =
                        rw (sym (ap (λ (x : PreviewBytes). x.body) same))
                          (sized_served _ _ operation a _ body refl read);
                    media_type = sym (ap (λ (x : PreviewBytes). x.media_type) same);
                  },
                )
          ]
        ]
      ]
