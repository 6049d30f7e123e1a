-- ===== src/Startup/Readiness.antt =====
-- The cached readiness (internal/bootstrap/readiness.go): `check` under its mutex, at an instant, with
-- what Control's health would answer then. An error is a text.
use anvilkit_agent_api.Base.{
  ℕ, ◌+◌, ◌-◌, ◌*◌, ◌≤◌, String, ◌≡◌, refl, sym, inl, inr, Bool, true, false, Option, none, some,
  List, [], ◌∷◌, ltb, if◌then◌else◌, arith, Bool-cases,
}

-- `checked` is none before the first check: the zero instant is longer ago than any bound.
pub record Readiness : Type 0 where
  pub cache_for : ℕ
  pub stopping : Bool
  pub checked : Option ℕ
  pub last : Option String

abbrev pub new_readiness : Readiness
new_readiness = record { cache_for = 5000000000; stopping = false; checked = none; last = none }

unfoldable pub stop : Readiness → Readiness
stop r = record r { stopping = true }

abbrev is_recent : ℕ → ℕ → Option ℕ → Bool
is_recent bound now none = false
is_recent bound now (some checked) = ltb (now - checked) bound

-- The new state, what is answered, and whether Control was asked.
pub record Checked : Type 0 where
  pub state : Readiness
  pub answer : Option String
  pub asked : Bool

unfoldable pub check : Readiness → ℕ → Option String → Checked
check r now health =
    if r.stopping
    then record { state = r; answer = some "stopping"; asked = false }
    else if is_recent r.cache_for now r.checked
    then record { state = r; answer = r.last; asked = false }
    else record {
      state = record r { last = health; checked = some now };
      answer = health;
      asked = true;
    }

-- A schedule of probes (the instant and Control's health at it), and how often Control was asked.
unfoldable pub probes : Readiness → List (ℕ × Option String) → Readiness × ℕ
probes r [] = (r, 0)
probes r ((now, health) ∷ rest) =
    let (s, n) = probes (check r now health).state rest in
    (s, if (check r now health).asked then n + 1 else n)

-- The instants of the probes do not go back, and end no later than `last`.
unfoldable pub Ordered : ℕ → List (ℕ × Option String) → ℕ → Type 0
Ordered from [] last = from ≤ last
Ordered from ((now, _) ∷ rest) last = (from ≤ now) × Ordered now rest last

probes-asked :
    (r : Readiness) (now : ℕ) (health : Option String) (rest : List (ℕ × Option String))
    (s : Readiness) (b : Bool)
    → (check r now health).state ≡ s
    → (check r now health).asked ≡ b
    → (probes r ((now, health) ∷ rest)).1 ≡ (if b then (probes s rest).1 + 1 else (probes s rest).1)
unfolding probes
probes-asked r now health rest s b e a = rw (e, a, probes) refl

-- Asked once at `c`, Control is asked again at most once in each five seconds.
probes_after :
    (r : Readiness) (c first last : ℕ) (ps : List (ℕ × Option String))
    → r.cache_for ≡ 5000000000
    → r.checked ≡ some c
    → c ≤ first
    → Ordered first ps last
    → 5000000000 * (probes r ps).1 + c ≤ last
unfolding probes Ordered check
probes_after r c first last [] k e h o = omega (arith, h, o)
probes_after r c first last ((now, health) ∷ rest) k e h (later, o) = elim (Bool-cases r.stopping) [
  | inl ended ↦
      let n =
        probes-asked r now health rest r false (rw (ended, check) refl) (rw (ended, check) refl) in
      ground (arith, n, probes_after r c now last rest k e (omega (arith, h, later)) o)
  | inr running ↦ elim (Bool-cases (is_recent r.cache_for now r.checked)) [
    | inl recent ↦
        let n =
          probes-asked r now health rest r false (rw (running, recent, check) refl)
            (rw (running, recent, check) refl) in
        ground (arith, n, probes_after r c now last rest k e (omega (arith, h, later)) o)
    | inr old ↦
        let n =
          probes-asked r now health rest (record r { last = health; checked = some now }) true
            (rw (running, old, check) refl) (rw (running, old, check) refl) in
        let due : ltb (now - c) 5000000000 ≡ false = rw (sym k) (rw e at old) in
        ground (
          arith,
          n,
          due,
          h,
          later,
          probes_after (record r { last = health; checked = some now }) now now last rest k refl
              (omega arith) o,
        )
  ]
]

-- However often the server is probed, between two instants Control's health is asked at most once in
-- each five seconds, and once more.
pub health_asked_seldom :
    (first last : ℕ) (ps : List (ℕ × Option String))
    → Ordered first ps last
    → 5000000000 * (probes new_readiness ps).1 ≤ (last - first) + 5000000000
unfolding probes Ordered check
health_asked_seldom first last [] o = omega arith
health_asked_seldom first last ((now, health) ∷ rest) (later, o) =
    let asked = record new_readiness { last = health; checked = some now } in
    ground (arith, later, probes_after asked now now last rest refl refl (omega arith) o)
