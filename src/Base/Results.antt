-- ===== src/Base/Results.antt =====
-- A Go function's pair of a value and an error, of which one is set.

pub data Result (E A : Type 0) : Type 0 where
  failed : E → Result E A
  ok : A → Result E A

module _ {E A B : Type 0} where
  -- `if err != nil { return nil, err }`
  infixl 5 ◌>>=◌
  abbrev pub ◌>>=◌ : Result E A → (A → Result E B) → Result E B
  failed e >>= f = failed e
  ok a >>= f = f a
