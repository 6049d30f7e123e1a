-- ===== src/Body/Examples.antt =====
-- Bodies on concrete inputs. The lexer of these tests knows brackets, and reads every other byte as
-- the key or text "a".
use anvilkit_agent_api.Base.{
  ℕ, ◌≡◌, refl, ◌≢◌, ◌↔◌, some, List, [], ◌∷◌, ◌≤◌, length, if◌then◌else◌, ◌==◌,
}
use anvilkit_agent_api.Base.Int.{pos}
use anvilkit_agent_api.Errors.{invalid_argument}
use anvilkit_agent_api.Body.{
  Token, string, open_object, close_object, open_array, close_array, scalar, Value, plain, array,
  object, no_items, item, no_members, member, DecodeError, duplicate_member, eof, accepted, no_fuel,
  strict_decode, invalid, has, set, add_item,
}
use anvilkit_agent_api.Body.Tokens.{tokens_of, IsDistinct}
use anvilkit_agent_api.Body.Request.{
  Codec, bytes, next, refused, strict_body, canonical_digest, strict_decode_iff,
  strict_decode_total, strict_body_iff,
}

abbrev ends : List Token → DecodeError
ends _ = eof

abbrev lex : List ℕ → List Token
lex [] = []
lex (b ∷ rest) =
    (if b == b'{'
      then open_object
      else if b == b'}'
      then close_object
      else if b == b'['
      then open_array
      else if b == b']'
      then close_array
      else scalar (string "a"))
    ∷ lex rest

abbrev codec : Codec
codec = record {
  lex = lex;
  failure = λ raw left. eof;
  marshal = λ v. some (b'{' ∷ []);
  sha256_hex = λ bytes. "00";
  decimal = λ n. "0";
}

-- {"a":["a"]}
abbrev sent : List ℕ
sent = b'{' ∷ b'a' ∷ b'[' ∷ b'a' ∷ b']' ∷ b'}' ∷ []

abbrev document : Value
document = object (member "a" (array (item (plain (string "a")) no_items)) no_members)

reads_document : strict_decode ends (lex sent) ≡ accepted document
unfolding strict_decode has set add_item
reads_document = refl

-- {"a":"a","a":"a"}
refuses_duplicate :
    strict_decode ends (lex (b'{' ∷ b'a' ∷ b'a' ∷ b'a' ∷ b'a' ∷ b'}' ∷ []))
    ≡ invalid duplicate_member
unfolding strict_decode has set
refuses_duplicate = refl

refuses_long :
    strict_body codec 5 (pos 6) (bytes sent)
    ≡ refused (invalid_argument "body exceeds the size bound")
unfolding strict_body
refuses_long = refl

strict_decode_iff_example :
    (strict_decode ends (lex sent) ≡ accepted document)
    ↔ ((lex sent ≡ tokens_of document) × IsDistinct document × (ends [] ≡ eof))
strict_decode_iff_example = strict_decode_iff ends (lex sent) document

strict_decode_total_example : strict_decode ends (open_object ∷ open_array ∷ []) ≢ no_fuel
strict_decode_total_example = strict_decode_total ends (open_object ∷ open_array ∷ [])

given : pos 6 ≢ pos 0
given h = cc

strict_body_iff_example :
    (strict_body codec 6 (pos 6) (bytes sent) ≡ next (some "sha256:00") (bytes sent)) ↔ (
      (v : Value) × (length sent ≤ 6)
      × (sent ≡ sent)
      × (codec.lex sent ≡ tokens_of v)
      × IsDistinct v
      × (codec.failure sent [] ≡ eof)
      × (canonical_digest codec v ≡ some "sha256:00"))
strict_body_iff_example = strict_body_iff codec 6 (pos 6) sent sent "sha256:00" given
