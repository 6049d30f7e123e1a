-- ===== src/Contract/Pointer.antt =====
-- The location that a refusal names, read back as RFC 6901 reads a JSON Pointer.
use Prim.Native.Char.{Char, code}
use Prim.Native.String.{String}
use Prim.Native.String
use text.Mathlib.TextEquality.{Char-path}
use text.Mathlib.TextLemmas.{nil-append, cons-append, append-nil}
use anvilkit_agent_api.Base.{
  ◌≡◌, refl, ap, ◌∙◌, Bool, true, false, none, some, List, [], ◌∷◌, ◌==◌, arith, if◌then◌else◌, inl,
  inr, Bool-cases,
}
use anvilkit_agent_api.Errors.{invalid_field}
use anvilkit_agent_api.Contract.{
  RequestError, SchemaError, request_invalid, body_invalid, escape, json_pointer, tilde, slash,
  digit_zero, digit_one,
}

-- The character that an escape stands for.
abbrev unescaped : Char → Char
unescaped c = if code c == b'0' then tilde else slash

-- The reference token up to the next slash, and the tokens after it; the flag is set after a tilde.
pub read_tokens : Bool → String → String × List String
read_tokens escaped String.[] = ("", [])
read_tokens true (String.◌∷◌ c s) =
    let r = read_tokens false s in (String.◌∷◌ (unescaped c) r.0, r.1)
read_tokens false (String.◌∷◌ c s) =
    let r = read_tokens false s in
    let e = read_tokens true s in
    if code c == b'/'
    then ("", r.0 ∷ r.1)
    else if code c == b'~'
    then e
    else (String.◌∷◌ c r.0, r.1)

pub read_pointer : String → List String
read_pointer s = (read_tokens false s).1

abbrev Pair : Type 0
Pair = String × List String

-- A pair whose token has one more character.
abbrev grown : Char → Pair → Pair
grown c r = (String.◌∷◌ c r.0, r.1)

read_escaped :
    (c mark d : Char) (t : String)
    → unescaped d ≡ c
    → read_tokens false (String.◌∷◌ tilde (String.◌∷◌ d t)) ≡ grown c (read_tokens false t)
unfolding read_tokens
read_escaped c mark d t same = ap (λ e. grown e (read_tokens false t)) same

read_plain :
    (c : Char) (t : String)
    → (code c == b'~') ≡ false
    → (code c == b'/') ≡ false
    → read_tokens false (String.◌∷◌ c t) ≡ grown c (read_tokens false t)
unfolding read_tokens
read_plain c t no_tilde no_slash = rw (no_slash, no_tilde) refl

same_char : (c d : Char) → (code c == code d) ≡ true → d ≡ c
same_char c d h = Char-path d c (ground (arith, h))

-- One character of a token, escaped or not.
read_first :
    (c : Char) (p t : String)
    → read_tokens false (String.◌++◌ (escape (String.◌∷◌ c p)) t)
      ≡ grown c (read_tokens false (String.◌++◌ (escape p) t))
unfolding escape
read_first c p t = elim (Bool-cases (code c == b'~')) [
  | inl is_tilde ↦
      rw (is_tilde, cons-append, cons-append)
        (read_escaped c tilde digit_zero (String.◌++◌ (escape p) t) (same_char c tilde is_tilde))
  | inr no_tilde ↦ elim (Bool-cases (code c == b'/')) [
    | inl is_slash ↦
        rw (no_tilde, is_slash, cons-append, cons-append)
          (read_escaped c tilde digit_one (String.◌++◌ (escape p) t) (same_char c slash is_slash))
    | inr no_slash ↦
        rw (no_tilde, no_slash, cons-append)
          (read_plain c (String.◌++◌ (escape p) t) no_tilde no_slash)
  ]
]

read_tokens-escape :
    (p t : String)
    → read_tokens false (String.◌++◌ (escape p) t)
      ≡ (String.◌++◌ p (read_tokens false t).0, (read_tokens false t).1)
unfolding escape
read_tokens-escape String.[] t = rw (nil-append t, nil-append (read_tokens false t).0) refl
read_tokens-escape (String.◌∷◌ c p) t =
    rw (cons-append c p (read_tokens false t).0)
      (read_first c p t ∙ ap (grown c) (read_tokens-escape p t))

read_tokens-json_pointer : (path : List String) → read_tokens false (json_pointer path) ≡ ("", path)
unfolding read_tokens json_pointer
read_tokens-json_pointer [] = refl
read_tokens-json_pointer (p ∷ ps) =
    ap (λ r. ("", r.0 ∷ r.1))
      (read_tokens-escape p (json_pointer ps)
        ∙ ap (λ r. (String.◌++◌ p r.0, r.1)) (read_tokens-json_pointer ps)
        ∙ ap (λ q. (q, ps)) (append-nil p))

pub read_pointer-json_pointer : (path : List String) → read_pointer (json_pointer path) ≡ path
unfolding read_pointer
read_pointer-json_pointer path = ap (λ r. r.1) (read_tokens-json_pointer path)

-- A body that fails the contract's schema is refused 400 INVALID_ARGUMENT, not retryable, and the
-- field of the refusal, read as a JSON Pointer, is the failed location, whatever characters its names
-- hold; a request with a failed parameter is refused alike with the parameter's name.
pub request_invalid_lem :
    (re : RequestError) (se : SchemaError) (location name : String)
    → re.has_body ≡ true
    → re.schema ≡ some se
    → let e = request_invalid (some (record re { parameter = none })) in
      let f = request_invalid (some (record re { parameter = some (location, name) })) in
      (e.status ≡ 400)
      × (e.code ≡ "INVALID_ARGUMENT")
      × (e.retryable ≡ false)
      × (read_pointer e.field ≡ se.path)
      × (f.status ≡ 400)
      × (f.code ≡ "INVALID_ARGUMENT")
      × (f.retryable ≡ false)
      × (f.field ≡ name)
unfolding request_invalid body_invalid invalid_field
request_invalid_lem re se location name body found =
    rw (body, found) (refl, refl, refl, read_pointer-json_pointer se.path, refl, refl, refl, refl)
