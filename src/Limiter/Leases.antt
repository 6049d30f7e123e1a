-- ===== src/Limiter/Leases.antt =====
-- The limiter seen as the collection of streams that are open: every sequence of admissions,
-- refusals and releases, in any interleaving, keeps the counters equal to what is open.
use text.Mathlib.Text.{◌==◌ as str_eq}
use text.Mathlib.TextEquality.{eq_iff}
use anvilkit_agent_api.Base.{
  ℕ, zero, suc, ◌+◌, ◌-◌, ◌≤◌, ◌<◌, String, ◌≡◌, refl, sym, ◌∙◌, ◌↔◌, ◌⊎◌, true, false, Option,
  none, some, List, [], ◌∷◌, ◌++◌, arith, length, length-append, if◌then◌else◌,
}
use anvilkit_agent_api.Base.Dict.{lookup, insert, lookup-insert, lookup-erase}
use anvilkit_agent_api.Limiter.{StreamLimiter, new_stream_limiter, held, acquire, release}

-- How many open streams the subject has.
pub count : String → List String → ℕ
count s [] = 0
count s (t ∷ ts) = let rest = count s ts in if str_eq t s then suc rest else rest

-- A limiter and the subjects of the streams that are open, newest first.
pub record System : Type 0 where
  pub limiter : StreamLimiter
  pub open_streams : List String

-- One atomic action: a stream is admitted or refused, or an open one releases its place.
pub data Step : System → System → Type 0 where
  admitted :
      {x : System} (s : String)
      → (acquire x.limiter s).1 ≡ true
      → Step x (record { limiter = (acquire x.limiter s).0; open_streams = s ∷ x.open_streams })
  refused :
      {x : System} (s : String)
      → (acquire x.limiter s).1 ≡ false
      → Step x (record { limiter = (acquire x.limiter s).0; open_streams = x.open_streams })
  released :
      {x : System} (before : List String) (s : String) (after : List String)
      → x.open_streams ≡ before ++ s ∷ after
      → Step x (record { limiter = release x.limiter s; open_streams = before ++ after })

pub data Reach (x : System) : System → Type 0 where
  here : Reach x x
  next : {y z : System} → Reach x y → Step y z → Reach x z

-- No key of the map counts zero.
abbrev pub entry : ℕ → Option ℕ
entry zero = none
entry (suc n) = some (suc n)

-- What the counters say is what is open, and the limits hold.
pub record Represents (l : StreamLimiter) (open_streams : List String) : Type 0 where
  pub total_exact : l.total ≡ length open_streams
  pub subjects_exact : (s : String) → lookup s l.by_subject ≡ entry (count s open_streams)
  pub total_bounded : 0 < l.max → length open_streams ≤ l.max
  pub subjects_bounded : 0 < l.per_subject → (s : String) → count s open_streams ≤ l.per_subject

count-append : (s : String) (xs ys : List String) → count s (xs ++ ys) ≡ count s xs + count s ys
unfolding count
count-append s [] ys = omega arith
count-append s (x ∷ xs) ys = ground (arith, count-append s xs ys)

count-middle :
    (s t : String) (xs ys : List String)
    → count s (xs ++ t ∷ ys) ≡ (if str_eq t s then suc (count s (xs ++ ys)) else count s (xs ++ ys))
unfolding count
count-middle s t xs ys = ground (arith, count-append s xs (t ∷ ys), count-append s xs ys)

held-count :
    (l : StreamLimiter) (os : List String) (s : String) → Represents l os → held l s ≡ count s os
held-count l os s r = ground (arith, r.subjects_exact s)

new-Represents : (max per_subject : ℕ) → Represents (new_stream_limiter max per_subject) []
unfolding new_stream_limiter count lookup
new-Represents max per_subject = record {
  total_exact = refl;
  subjects_exact = λ s. refl;
  total_bounded = λ h. omega arith;
  subjects_bounded = λ h s. omega arith;
}

-- A limit of 0 sets none.
abbrev pub HasRoom : ℕ → ℕ → Type 0
HasRoom limit n = (limit ≡ 0) ⊎ (n < limit)

grown : StreamLimiter → String → StreamLimiter
grown l s = record l { total = l.total + 1; by_subject = insert s (held l s + 1) l.by_subject }

acquire_admitted :
    (l : StreamLimiter) (s : String)
    → (acquire l s).1 ≡ true
    → ((acquire l s).0 ≡ grown l s) × HasRoom l.max l.total × HasRoom l.per_subject (held l s)
unfolding acquire grown
acquire_admitted l s h = ground arith

acquire_refused : (l : StreamLimiter) (s : String) → (acquire l s).1 ≡ false → (acquire l s).0 ≡ l
unfolding acquire
acquire_refused l s h = ground arith

grown-Represents :
    (l : StreamLimiter) (os : List String) (s : String)
    → HasRoom l.max l.total
    → HasRoom l.per_subject (held l s)
    → Represents l os
    → Represents (grown l s) (s ∷ os)
unfolding grown count
grown-Represents l os s room own r = record {
  total_exact = ground (arith, r.total_exact);
  subjects_exact = λ t. ground (
    arith,
    held-count l os s r,
    eq_iff s t,
    r.subjects_exact t,
    lookup-insert s t (held l s + 1) l.by_subject,
  );
  total_bounded = λ p. ground (arith, r.total_exact, r.total_bounded p);
  subjects_bounded = λ p t. ground (arith, held-count l os s r, eq_iff s t, r.subjects_bounded p t);
}

released-Represents :
    (l : StreamLimiter) (xs ys : List String) (s : String)
    → Represents l (xs ++ s ∷ ys)
    → Represents (release l s) (xs ++ ys)
unfolding release
released-Represents l xs ys s r = record {
  total_exact = ground (arith, r.total_exact, length-append xs (s ∷ ys), length-append xs ys);
  subjects_exact = λ t. ground (
    arith,
    held-count l (xs ++ s ∷ ys) s r,
    count-middle s s xs ys,
    count-middle t s xs ys,
    eq_iff s t,
    eq_iff s s,
    r.subjects_exact t,
    lookup-insert s t (held l s - 1) l.by_subject,
    lookup-erase s t (insert s (held l s - 1) l.by_subject),
  );
  total_bounded =
      λ p. ground (arith, r.total_bounded p, length-append xs (s ∷ ys), length-append xs ys);
  subjects_bounded = λ p t. ground (arith, r.subjects_bounded p t, count-middle t s xs ys);
}

Step-Represents :
    {x y : System}
    → Step x y
    → Represents x.limiter x.open_streams
    → Represents y.limiter y.open_streams
Step-Represents (admitted {x} s h) r =
    let (e, room, own) = acquire_admitted x.limiter s h in
    rw e (grown-Represents x.limiter x.open_streams s room own r)
Step-Represents (refused {x} s h) r = rw (acquire_refused x.limiter s h) r
Step-Represents (released {x} before s after e) r =
    released-Represents x.limiter before after s (rw e at r)

Reach-Represents :
    {x y : System}
    → Represents x.limiter x.open_streams
    → Reach x y
    → Represents y.limiter y.open_streams
Reach-Represents h here = h
Reach-Represents h (next r st) = Step-Represents st (Reach-Represents h r)

abbrev pub fresh : ℕ → ℕ → System
fresh max per_subject = record { limiter = new_stream_limiter max per_subject; open_streams = [] }

-- After any sequence of admissions, refusals and releases from a new limiter, the total is the
-- number of open streams, the map holds exactly the subjects with an open stream, each with its
-- number, and no limit above 0 is exceeded.
pub Reach-fresh-Represents :
    (max per_subject : ℕ) (y : System)
    → Reach (fresh max per_subject) y
    → Represents y.limiter y.open_streams
Reach-fresh-Represents max per_subject y r = Reach-Represents (new-Represents max per_subject) r

-- Where the counters represent what is open, a stream is admitted exactly when each limit is 0 or
-- above the number it bounds: of all open streams, and of the subject's own.
pub acquire_iff :
    (l : StreamLimiter) (os : List String) (s : String)
    → Represents l os
    → ((acquire l s).1 ≡ true) ↔ (HasRoom l.max (length os) × HasRoom l.per_subject (count s os))
unfolding acquire
acquire_iff l os s r = (
  λ h. ground (arith, r.total_exact, held-count l os s r),
  λ h. ground (arith, r.total_exact, held-count l os s r),
)

-- Where the counters represent what is open, releasing the stream just admitted gives back the
-- admission's total and every subject's entry.
pub release-acquire :
    (l : StreamLimiter) (os : List String) (s t : String)
    → Represents l os
    → (acquire l s).1 ≡ true
    → ((release (acquire l s).0 s).total ≡ l.total)
      × (lookup t (release (acquire l s).0 s).by_subject ≡ lookup t l.by_subject)
release-acquire l os s t r h =
    let before = Step-Represents (admitted {x = record { limiter = l; open_streams = os }} s h) r in
    let after = released-Represents (acquire l s).0 [] os s before in
    (after.total_exact ∙ sym r.total_exact, after.subjects_exact t ∙ sym (r.subjects_exact t))
