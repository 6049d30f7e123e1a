-- ===== src/Identity/Reloader.antt =====
-- The reloader of the identity material (internal/transport/identity/reloader.go): New, and Reload
-- as a function of what the two reads of the files give.
use text.Mathlib.Text.{◌==◌}
use anvilkit_agent_api.Base.{
  ℕ, ◌+◌, String, ◌≡◌, refl, ap, ◌∙◌, inl, inr, Bool, true, false, ◌||◌, Option, none, some, List,
  [], ◌∷◌, if◌then◌else◌, Bool-cases,
}
use anvilkit_agent_api.Base.Text.{is_empty}
use anvilkit_agent_api.Identity.Material.{Material, Parsed, failed, loaded}

-- `published` is the history of what the callbacks of OnChange were given, newest first.
pub record Reloader : Type 0 where
  pub current : Material
  pub failures : ℕ
  pub published : List (Material × Material)

-- What a Reload reads: the digest of the files, none where one cannot be read, and what Load makes
-- of them.
pub record Reading : Type 0 where
  pub files_digest : Option String
  pub load : Parsed Material

abbrev reject : Reloader → Reloader × Bool
reject r = (record r { failures = r.failures + 1 }, false)

abbrev publish : Reloader → Parsed Material → Reloader × Bool
publish r (failed e) = reject r
publish r (loaded m) =
    (record { current = m; failures = 0; published = (r.current, m) ∷ r.published }, true)

unfoldable pub reload_read : Reloader → Option String → Parsed Material → Reloader × Bool
reload_read r none load = reject r
reload_read r (some digest) load = if digest == r.current.digest then (r, false) else publish r load

abbrev pub reload : Reloader → Reading → Reloader × Bool
reload r reading = reload_read r reading.files_digest reading.load

-- New, from the three paths and the first Load.
unfoldable pub new : String → String → String → Parsed Material → Option Reloader
new cert_file key_file ca_file (failed e) = none
new cert_file key_file ca_file (loaded m) =
    if is_empty cert_file || is_empty key_file || is_empty ca_file
    then none
    else some (record { current = m; failures = 0; published = [] })

-- The polls of a reloader, in order.
unfoldable pub polls : Reloader → List Reading → Reloader
polls r [] = r
polls r (reading ∷ rest) = polls (reload r reading).0 rest

-- What a poll comes to.
pub data Outcome : Type 0 where
  unchanged rejected : Outcome
  accepted : Material → Outcome

abbrev decide : Parsed Material → Outcome
decide (failed e) = rejected
decide (loaded m) = accepted m

-- What the files come to under the digest in force, whatever else the reloader holds.
unfoldable pub outcome : String → Option String → Parsed Material → Outcome
outcome in_force none load = rejected
outcome in_force (some digest) load = if digest == in_force then unchanged else decide load

abbrev in_force_after : Material → Outcome → Material
in_force_after m (accepted n) = n
in_force_after m _ = m

abbrev rejected_since : ℕ → Outcome → ℕ
rejected_since n unchanged = n
rejected_since n rejected = n + 1
rejected_since n (accepted m) = 0

-- The last accepted material, and the candidates rejected since, over the outcomes of the polls.
unfoldable pub summary : Material × ℕ → List Reading → Material × ℕ
summary (m, n) [] = (m, n)
summary (m, n) (reading ∷ rest) =
    let o = outcome m.digest reading.files_digest reading.load in
    summary (in_force_after m o, rejected_since n o) rest

pair_path : {a b : Material} {m n : ℕ} → a ≡ b → m ≡ n → ◌≡◌ {A = Material × ℕ} (a, m) (b, n)
pair_path p q = λ i. (p i, q i)

-- Every published step hands over from the material before it: the newest to the current one.
pub data Chained : Material → List (Material × Material) → Material → Type 0 where
  start : {m : Material} → Chained m [] m
  handed :
      {first m n : Material} {steps : List (Material × Material)}
      → Chained first steps m
      → Chained first ((m, n) ∷ steps) n

publish-Chained :
    (first : Material) (r : Reloader) (load : Parsed Material)
    → Chained first r.published r.current
    → Chained first (publish r load).0.published (publish r load).0.current
publish-Chained first r (failed e) h = h
publish-Chained first r (loaded m) h = handed h

reload_read-Chained :
    (first : Material) (r : Reloader) (digest : Option String) (load : Parsed Material)
    → Chained first r.published r.current
    → Chained first (reload_read r digest load).0.published (reload_read r digest load).0.current
unfolding reload_read
reload_read-Chained first r none load h = h
reload_read-Chained first r (some digest) load h = elim (Bool-cases (digest == r.current.digest)) [
  | inl same ↦ rw (same, reload_read) h
  | inr changed ↦ rw (changed, reload_read) (publish-Chained first r load h)
]

publish-decide :
    (r : Reloader) (load : Parsed Material)
    → ((publish r load).0.current ≡ in_force_after r.current (decide load))
      × ((publish r load).0.failures ≡ rejected_since r.failures (decide load))
publish-decide r (failed e) = (refl, refl)
publish-decide r (loaded m) = (refl, refl)

reload_read-outcome :
    (r : Reloader) (digest : Option String) (load : Parsed Material)
    → ((reload_read r digest load).0.current
        ≡ in_force_after r.current (outcome r.current.digest digest load))
      × ((reload_read r digest load).0.failures
          ≡ rejected_since r.failures (outcome r.current.digest digest load))
unfolding reload_read outcome
reload_read-outcome r none load = (refl, refl)
reload_read-outcome r (some digest) load = elim (Bool-cases (digest == r.current.digest)) [
  | inl same ↦ rw (same, reload_read, outcome) (refl, refl)
  | inr changed ↦ rw (changed, reload_read, outcome) (publish-decide r load)
]

-- After any polls, the material in force is the last one accepted and the failures are the
-- candidates rejected since then, by the outcomes of the polls alone; and the materials handed to
-- the callbacks form a chain from the first material to the one in force.
pub polls-summary :
    (first : Material) (r : Reloader) (readings : List Reading)
    → Chained first r.published r.current
    → ((polls r readings).current ≡ (summary (r.current, r.failures) readings).0)
      × ((polls r readings).failures ≡ (summary (r.current, r.failures) readings).1)
      × Chained first (polls r readings).published (polls r readings).current
unfolding polls summary
polls-summary first r [] h = (refl, refl, h)
polls-summary first r (reading ∷ rest) h =
    let (m, n) = reload_read-outcome r reading.files_digest reading.load in
    let (current, failures, chained) =
      polls-summary first (reload r reading).0 rest
        (reload_read-Chained first r reading.files_digest reading.load h) in
    let same = ap (λ (x : Material × ℕ). summary x rest) (pair_path m n) in
    (
      current ∙ ap (λ (x : Material × ℕ). x.0) same,
      failures ∙ ap (λ (x : Material × ℕ). x.1) same,
      chained,
    )
