-- ===== src/Identity/Rotation.antt =====
-- The server around the tracker (internal/transport/identity/credentials.go, ServerHandshake and
-- NewServerCredentials; reloader.go, Reload): a handshake reads the material in force when it begins
-- and registers its connection when it ends, a close removes one, and a reload first puts the new
-- material in force and then sweeps the connections of the roots that it retires.
use text.Mathlib.Text.{◌==◌ as str_eq}
use text.Mathlib.TextEquality.{eq_iff}
use mathlib.Core.Path.{subst}
use mathlib.Core.Bool.{false≢true}
use mathlib.Core.Option.{some-injective}
use anvilkit_agent_api.Base.{
  ℕ, String, ◌≡◌, refl, sym, ap, ◌∙◌, ◌≢◌, ◌⊎◌, inl, inr, Bool, true, false, Option, none, some,
  List, [], ◌∷◌, ◌==◌, arith, if◌then◌else◌, Bool-cases, Option-cases,
}
use anvilkit_agent_api.Base.Dict.{lookup, insert, erase}
use anvilkit_agent_api.Identity.Tracker.{
  Conns, trusts, add, remove, close_retired, AllTrusted, add-AllTrusted, remove-AllTrusted,
  close_retired-AllTrusted, with_conn, has,
}

-- `sweeping` is true between the two halves of a reload.
pub record Endpoint : Type 0 where
  pub roots : List String
  pub handshaking : List (ℕ × List String)
  pub conns : Conns
  pub sweeping : Bool

pub data Action : Type 0 where
  begin : ℕ → Action
  finish : ℕ → String → Action
  abandon : ℕ → Action
  close : ℕ → String → Action
  publish : List String → Action
  sweep : Action

-- The roots that the connection's handshake began under.
unfoldable pub captured : ℕ → List (ℕ × List String) → Option (List String)
captured c [] = none
captured c ((d, roots) ∷ rest) = if d == c then some roots else captured c rest

unfoldable pub dropped : ℕ → List (ℕ × List String) → List (ℕ × List String)
dropped c [] = []
dropped c ((d, roots) ∷ rest) =
    let kept = dropped c rest in if d == c then kept else (d, roots) ∷ kept

-- TLS verifies the peer's chain up to a root of the material that the handshake began under.
register : Endpoint → ℕ → String → Option (List String) → Option Endpoint
register s c root none = none
register s c root (some roots) =
    if trusts root roots
    then some (record s { handshaking = dropped c s.handshaking; conns = add root c s.conns })
    else none

unfoldable pub step : Endpoint → Action → Option Endpoint
unfolding register
step s (begin c) = some (record s { handshaking = (c, s.roots) ∷ s.handshaking })
step s (finish c root) = register s c root (captured c s.handshaking)
step s (abandon c) = some (record s { handshaking = dropped c s.handshaking })
step s (close c root) = some (record s { conns = remove root c s.conns })
step s (publish roots) =
    if s.sweeping then none else some (record s { roots = roots; sweeping = true })
step s sweep =
    if s.sweeping
    then some (record s { conns = (close_retired s.roots s.conns).0; sweeping = false })
    else none

unfoldable pub run : Endpoint → List Action → Option Endpoint
run s [] = some s
run s (a ∷ rest) = elim (step s a) [ none ↦ none | some t ↦ run t rest ]

abbrev pub serving : List String → Endpoint
serving roots = record { roots = roots; handshaking = []; conns = []; sweeping = false }

-- A handshake that begins under `old` and ends after the sweep of a reload that retires it.
abbrev pub straddling : ℕ → String → String → List Action
straddling c old new = begin c ∷ publish (new ∷ []) ∷ sweep ∷ finish c old ∷ []

same_number : (c : ℕ) → (c == c) ≡ true
same_number c = ground arith

same_text : (s : String) → str_eq s s ≡ true
same_text s = ground (arith, eq_iff s s)

-- A handshake in progress across a reload registers its connection after the sweep, so that the
-- retired root stays in use: the endpoint ends at rest, does not trust the root, and tracks the
-- connection under it.
pub straddling_survives :
    (c : ℕ) (old new : String)
    → old ≢ new
    → (t : Endpoint) × (run (serving (old ∷ [])) (straddling c old new) ≡ some t)
      × (t.sweeping ≡ false)
      × (trusts old t.roots ≡ false)
      × (lookup old t.conns ≡ some (c ∷ []))
unfolding run step captured dropped trusts close_retired add lookup insert erase with_conn has
    register
straddling_survives c old new apart = (
  record { roots = new ∷ []; handshaking = []; conns = add old c []; sweeping = false },
  rw (same_number c, same_text old, run, step, captured, register, trusts)
      (rw (same_number c, dropped) refl),
  refl,
  ground (arith, eq_iff new old, apart),
  rw (same_text old) refl,
)

-- Where no reload is between its halves, every tracked connection's root is trusted.
pub record Sound (s : Endpoint) : Type 0 where
  pub at_rest : (s.sweeping ≡ true) ⊎ AllTrusted s.roots s.conns
  pub fresh :
      (c : ℕ) (roots : List String) → captured c s.handshaking ≡ some roots → roots ≡ s.roots

publish_idle : Endpoint → List String → List (ℕ × List String) → Option Endpoint
unfolding step
publish_idle s roots [] = step s (publish roots)
publish_idle s roots (_ ∷ _) = none

-- A step, where a reload begins only with no handshake in progress.
unfoldable pub step_apart : Endpoint → Action → Option Endpoint
unfolding step publish_idle
step_apart s (publish roots) = publish_idle s roots s.handshaking
step_apart s a = step s a

unfoldable pub run_apart : Endpoint → List Action → Option Endpoint
run_apart s [] = some s
run_apart s (a ∷ rest) = elim (step_apart s a) [ none ↦ none | some t ↦ run_apart t rest ]

captured-dropped :
    (c d : ℕ) (hs : List (ℕ × List String))
    → captured d (dropped c hs) ≡ (if c == d then none else captured d hs)
unfolding captured dropped
captured-dropped c d [] = ground arith
captured-dropped c d ((e, roots) ∷ rest) = ground (arith, captured-dropped c d rest)

captured_left :
    (c d : ℕ) (hs : List (ℕ × List String)) (roots : List String)
    → captured d (dropped c hs) ≡ some roots
    → captured d hs ≡ some roots
captured_left c d hs roots h = ground (arith, h, captured-dropped c d hs)

register-Sound :
    (s t : Endpoint) (c : ℕ) (root : String) (held : Option (List String))
    → captured c s.handshaking ≡ held
    → register s c root held ≡ some t
    → Sound s
    → Sound t
unfolding register
register-Sound s t c root none e h v = let stop : none ≡ some t = h in cc
register-Sound s t c root (some roots) e h v = elim (Bool-cases (trusts root roots)) [
  | inr unknown ↦ let stop : none ≡ some t = rw (unknown, register) at h in cc
  | inl trusted ↦ subst Sound (some-injective _ t (rw (trusted, register) at h)) (record {
    at_rest = elim v.at_rest [
      | inl busy ↦ inl busy
      | inr all ↦ inr (
          add-AllTrusted s.roots s.conns root c
            (ap (trusts root) (sym (v.fresh c roots e)) ∙ trusted) all)
    ];
    fresh = λ d later h. v.fresh d later (captured_left c d s.handshaking later h);
  })
]

publish_idle-Sound :
    (s t : Endpoint) (roots : List String) (hs : List (ℕ × List String))
    → s.handshaking ≡ hs
    → publish_idle s roots hs ≡ some t
    → Sound t
unfolding publish_idle step captured
publish_idle-Sound s t roots (_ ∷ _) e h = let stop : none ≡ some t = h in cc
publish_idle-Sound s t roots [] e h = elim (Bool-cases s.sweeping) [
  | inl busy ↦ let stop : none ≡ some t = rw (busy, publish_idle, step) at h in cc
  | inr rest ↦ subst Sound (some-injective _ t (rw (rest, publish_idle, step) at h)) (record {
    at_rest = inl refl;
    fresh = λ c later k. let stop : none ≡ some later = ap (captured c) (sym e) ∙ k in cc;
  })
]

step_apart-Sound : (s t : Endpoint) (a : Action) → step_apart s a ≡ some t → Sound s → Sound t
unfolding step_apart step captured
step_apart-Sound s t (begin c) h v =
    subst Sound (some-injective _ t h)
      (record { at_rest = v.at_rest; fresh = λ d later k. ground (arith, k, v.fresh d later) })
step_apart-Sound s t (finish c root) h v =
    register-Sound s t c root (captured c s.handshaking) refl h v
step_apart-Sound s t (abandon c) h v = subst Sound (some-injective _ t h) (record {
  at_rest = v.at_rest;
  fresh = λ d later k. v.fresh d later (captured_left c d s.handshaking later k);
})
step_apart-Sound s t (close c root) h v = subst Sound (some-injective _ t h) (record {
  at_rest = elim v.at_rest [
    | inl busy ↦ inl busy
    | inr all ↦ inr (remove-AllTrusted s.roots s.conns root c all)
  ];
  fresh = v.fresh;
})
step_apart-Sound s t (publish roots) h v = publish_idle-Sound s t roots s.handshaking refl h
step_apart-Sound s t sweep h v = elim (Bool-cases s.sweeping) [
  | inr rest ↦ let stop : none ≡ some t = rw (rest, step_apart, step) at h in cc
  | inl busy ↦
      subst Sound (some-injective _ t (rw (busy, step_apart, step) at h))
        (record { at_rest = inr (close_retired-AllTrusted s.roots s.conns); fresh = v.fresh })
]

serving-Sound : (roots : List String) → Sound (serving roots)
unfolding captured AllTrusted lookup
serving-Sound roots = record {
  at_rest = inr (λ root. inl refl);
  fresh = λ c later k. let stop : none ≡ some later = k in cc;
}

run_apart-Sound :
    (s t : Endpoint) (schedule : List Action) → run_apart s schedule ≡ some t → Sound s → Sound t
unfolding run_apart
run_apart-Sound s t [] h v = subst Sound (some-injective s t h) v
run_apart-Sound s t (a ∷ rest) h v = elim (Option-cases (step_apart s a)) [
  | inl stuck ↦ let stop : none ≡ some t = rw (stuck, run_apart) at h in cc
  | inr (u, e) ↦ run_apart-Sound u t rest (rw (e, run_apart) at h) (step_apart-Sound s u a e v)
]

-- Under every schedule of handshakes, closes and reloads in which each reload begins with no
-- handshake in progress, an endpoint that is not between a reload's two halves tracks connections
-- under trusted roots alone.
pub run_apart-AllTrusted :
    (roots : List String) (schedule : List Action) (t : Endpoint)
    → run_apart (serving roots) schedule ≡ some t
    → t.sweeping ≡ false
    → AllTrusted t.roots t.conns
run_apart-AllTrusted roots schedule t h rest =
    elim ((run_apart-Sound (serving roots) t schedule h (serving-Sound roots)).at_rest) [
      | inl busy ↦ absurd (false≢true (sym rest ∙ busy))
      | inr all ↦ all
    ]
