-- ===== src/Body/Request.antt =====
-- strictDecode, and the middleware strictBody around it. Go's own parts are parameters: the lexing
-- of the bytes, json.Marshal's canonical form (sorted members, no white space), the hexadecimal
-- SHA-256 and the decimal of an offset.
use mathlib.Core.List.{append-nil}
use anvilkit_agent_api.Base.{
  ℕ, zero, suc, ◌≤◌, String, ◌≡◌, refl, ◌∙◌, ◌≢◌, ◌↔◌, true, false, Option, none, some, List, [],
  ◌∷◌, ◌++◌, ap, ltb, length, take, length-take, take-all, arith, if◌then◌else◌, ◌>>=◌, inl, inr,
  Bool-cases,
}
use Prim.Native.String.{◌++◌ as ◌<>◌}
use anvilkit_agent_api.Base.Int.{ℤ, pos, negsuc}
use anvilkit_agent_api.Errors.{ApiError, invalid_argument}
use anvilkit_agent_api.Body.{
  Token, Value, DecodeError, duplicate_member, eof, syntax, other, Decoded, done, failed, exhausted,
  Strict, accepted, invalid, trailing, no_fuel, at_end, finish, enough, decode_value, strict_decode,
}
use anvilkit_agent_api.Body.Tokens.{tokens_of, IsDistinct, decode_value-tokens_of}
use anvilkit_agent_api.Body.Sound.{decode_value_sound}
use anvilkit_agent_api.Body.Fuel.{decode_value-Answers}

-- jsonError
unfoldable pub json_error : (ℕ → String) → DecodeError → String
json_error decimal duplicate_member = "invalid JSON: duplicate member"
json_error decimal (syntax offset) = "invalid JSON at byte " <> decimal offset
json_error decimal _ = "invalid JSON"

pub record Codec : Type 0 where
  pub lex : List ℕ → List Token
  pub failure : List ℕ → List Token → DecodeError
  pub marshal : Value → Option (List ℕ)
  pub sha256_hex : List ℕ → String
  pub decimal : ℕ → String

-- DigestBytes
unfoldable pub digest_bytes : (List ℕ → String) → List ℕ → String
digest_bytes sha256_hex bytes = "sha256:" <> sha256_hex bytes

-- CanonicalDigest
unfoldable pub canonical_digest : Codec → Value → Option String
canonical_digest codec decoded =
    codec.marshal decoded >>= λ canonical. some ("sha256:" <> codec.sha256_hex canonical)

-- The request's body: none, one whose reading fails, or bytes.
pub data Body : Type 0 where
  nil_body unreadable : Body
  bytes : List ℕ → Body

-- The middleware refuses the request, or hands on the digest that it has set and the body.
pub data Gate : Type 0 where
  refused : ApiError → Gate
  next : Option String → Body → Gate

module _ (codec : Codec) (limit : ℕ) where
  unfoldable pub digested : List ℕ → Option String → Gate
  digested raw none = refused (invalid_argument "body cannot be canonicalized")
  digested raw (some digest) = next (some digest) (bytes raw)

  unfoldable pub decoded : List ℕ → Strict → Gate
  unfolding json_error canonical_digest digested
  decoded raw (accepted v) = digested raw (canonical_digest codec v)
  decoded raw (invalid e) = refused (invalid_argument (json_error codec.decimal e))
  decoded raw trailing = refused (invalid_argument "invalid JSON: trailing data after the document")
  decoded raw no_fuel = refused (invalid_argument "invalid JSON")

  -- The bytes that io.ReadAll has got from the limited reader.
  unfoldable pub read_bytes : List ℕ → Gate
  unfolding decoded
  read_bytes raw =
      if ltb limit (length raw)
      then refused (invalid_argument "body exceeds the size bound")
      else decoded raw (strict_decode (codec.failure raw) (codec.lex raw))

  unfoldable pub strict_body : ℤ → Body → Gate
  unfolding read_bytes
  strict_body content_length nil_body = next none nil_body
  strict_body (pos zero) body = next none body
  strict_body content_length unreadable = refused (invalid_argument "unreadable body")
  strict_body content_length (bytes sent) = read_bytes (take (suc limit) sent)

bytes-injective : (a b : List ℕ) → bytes a ≡ bytes b → a ≡ b
bytes-injective a b h = cc

at_end-cases :
    (e : DecodeError) (left : List Token) → at_end e left ≡ true → (left ≡ []) × (e ≡ eof)
at_end-cases eof [] h = (refl, refl)
at_end-cases eof (t ∷ ts) h = let stop : false ≡ true = h in cc
at_end-cases duplicate_member ts h = let stop : false ≡ true = h in cc
at_end-cases (syntax n) ts h = let stop : false ≡ true = h in cc
at_end-cases other ts h = let stop : false ≡ true = h in cc

module _ (failure : List Token → DecodeError) where
  finish-accepted :
      (r : Decoded Value) (v : Value)
      → finish failure r ≡ accepted v
      → (r ≡ done v []) × (failure [] ≡ eof)
  finish-accepted (done u left) v h = elim (Bool-cases (at_end (failure []) left)) [
    | inl ends ↦
        let read : accepted u ≡ accepted v = rw ends at h in
        let same : u ≡ v = cc in
        let (empty, e) = at_end-cases (failure []) left ends in (rw (same, empty), e)
    | inr more ↦ let stop : trailing ≡ accepted v = rw more at h in cc
  ]
  finish-accepted (failed e) v h = let stop : invalid e ≡ accepted v = h in cc
  finish-accepted exhausted v h = let stop : no_fuel ≡ accepted v = h in cc

  -- strictDecode accepts a document exactly where its tokens are those of a value in which no
  -- object names a member twice, and nothing but the input's end follows; the answer is that value.
  pub strict_decode_iff :
      (ts : List Token) (v : Value)
      → (strict_decode failure ts ≡ accepted v)
        ↔ ((ts ≡ tokens_of v) × IsDistinct v × (failure [] ≡ eof))
  unfolding strict_decode
  strict_decode_iff ts v = (
    λ h.
        let (r, e) = finish-accepted (decode_value failure (enough ts) ts) v h in
        let (read, d) = decode_value_sound failure (enough ts) ts v [] r in
        (read ∙ append-nil (tokens_of v), d, e),
    λ h.
        let (read, d, e) = h in
        let r : decode_value failure (enough ts) (tokens_of v ++ []) ≡ done v [] =
          decode_value-tokens_of failure v (enough ts) [] d (omega (arith, ap length read)) in
        let whole : decode_value failure (enough ts) ts ≡ done v [] =
          rw (append-nil (tokens_of v), ← read) at r in
        rw (whole, e) refl,
  )

  finish-no_fuel : (r : Decoded Value) → finish failure r ≡ no_fuel → r ≡ exhausted
  finish-no_fuel (done u left) h = ground arith
  finish-no_fuel (failed e) h = let stop : invalid e ≡ no_fuel = h in cc
  finish-no_fuel exhausted h = refl

  -- strictDecode never runs out of its fuel: for every input it answers a value or an error.
  pub strict_decode_total : (ts : List Token) → strict_decode failure ts ≢ no_fuel
  unfolding strict_decode
  strict_decode_total ts h =
      decode_value-Answers failure (enough ts) ts (omega arith)
        (finish-no_fuel (decode_value failure (enough ts) ts) h)

module _ (codec : Codec) (limit : ℕ) where
  digested-next :
      (raw : List ℕ) (o : Option String) (d : String) (b : Body)
      → digested codec limit raw o ≡ next (some d) b
      → (o ≡ some d) × (b ≡ bytes raw)
  unfolding digested
  digested-next raw none d b h = ground arith
  digested-next raw (some e) d b h = ground arith

  decoded-next :
      (raw : List ℕ) (r : Strict) (d : String) (b : Body)
      → decoded codec limit raw r ≡ next (some d) b
      → (v : Value) × (r ≡ accepted v) × (canonical_digest codec v ≡ some d) × (b ≡ bytes raw)
  unfolding decoded
  decoded-next raw (accepted v) d b h =
      let (e, same) = digested-next raw (canonical_digest codec v) d b h in (v, refl, e, same)
  decoded-next raw (invalid e) d b h = ground arith
  decoded-next raw trailing d b h = ground arith
  decoded-next raw no_fuel d b h = ground arith

  read_bytes-accepted :
      (raw : List ℕ) (v : Value) (d : String)
      → length raw ≤ limit
      → strict_decode (codec.failure raw) (codec.lex raw) ≡ accepted v
      → canonical_digest codec v ≡ some d
      → read_bytes codec limit raw ≡ next (some d) (bytes raw)
  unfolding read_bytes
  read_bytes-accepted raw v d fits ok digest =
      let test : ltb limit (length raw) ≡ false = ground arith in
      rw (test, ok, digest, read_bytes, decoded, digested) refl

  read_bytes-next :
      (raw : List ℕ) (d : String) (b : Body)
      → read_bytes codec limit raw ≡ next (some d) b
      → (length raw ≤ limit)
        × ((v : Value) × (strict_decode (codec.failure raw) (codec.lex raw) ≡ accepted v)
            × (canonical_digest codec v ≡ some d)
            × (b ≡ bytes raw))
  unfolding read_bytes
  read_bytes-next raw d b h = elim (Bool-cases (ltb limit (length raw))) [
    | inl long ↦
        let stop : refused (invalid_argument "body exceeds the size bound") ≡ next (some d) b =
          rw (long, read_bytes) at h in
        cc
    | inr fits ↦ (
      ground (arith, fits),
      decoded-next raw (strict_decode (codec.failure raw) (codec.lex raw)) d b
          (rw (fits, read_bytes) at h),
    )
  ]

  strict_body-bytes :
      (n : ℤ) (sent : List ℕ)
      → n ≢ pos 0
      → strict_body codec limit n (bytes sent) ≡ read_bytes codec limit (take (suc limit) sent)
  unfolding strict_body
  strict_body-bytes (pos zero) sent h = absurd (h refl)
  strict_body-bytes (pos (suc n)) sent h = refl
  strict_body-bytes (negsuc n) sent h = refl

  -- A request whose body is not declared empty goes on with a digest exactly where the body is within
  -- the limit and is, to its end, the document of a value without a duplicate member: the digest is
  -- that value's canonical digest, and the handler reads the very bytes that were sent.
  pub strict_body_iff :
      (n : ℤ) (sent raw : List ℕ) (d : String)
      → n ≢ pos 0
      → (strict_body codec limit n (bytes sent) ≡ next (some d) (bytes raw)) ↔ (
          (v : Value) × (length sent ≤ limit)
          × (raw ≡ sent)
          × (codec.lex sent ≡ tokens_of v)
          × IsDistinct v
          × (codec.failure sent [] ≡ eof)
          × (canonical_digest codec v ≡ some d))
  strict_body_iff n sent raw d given = (
    λ h.
        let (fits, (v, ok, digest, same)) =
          read_bytes-next (take (suc limit) sent) d (bytes raw)
            (rw (strict_body-bytes n sent given) at h) in
        let short : length sent ≤ limit = omega (arith, length-take (suc limit) sent, fits) in
        let whole = take-all (suc limit) sent (omega (arith, short)) in
        let read : raw ≡ sent = bytes-injective raw sent (same ∙ ap bytes whole) in
        let (tokens, distinct, ends) =
          (strict_decode_iff (codec.failure sent) (codec.lex sent) v).0 (rw whole at ok) in
        (v, short, read, tokens, distinct, ends, digest),
    λ h.
        let (v, short, read, tokens, distinct, ends, digest) = h in
        let ok =
          (strict_decode_iff (codec.failure sent) (codec.lex sent) v).1 (tokens, distinct, ends) in
        rw (strict_body-bytes n sent given, take-all (suc limit) sent (omega (arith, short)), read)
          (read_bytes-accepted sent v d short ok digest),
  )
