-- ===== src/Contract.antt =====
-- The refusal of a request that the contract rejects (internal/transport/http/validation.go:
-- requestInvalid, schemaFailure, jsonPointer). Finding the route and validating are kin-openapi's:
-- the model starts from its error.
pub mod Pointer
mod Examples
use Prim.Native.Char.{Char, code}
use Prim.Native.String.{String}
use Prim.Native.String
use text.Mathlib.Text.{◌==◌ as str_eq}
use anvilkit_agent_api.Base.{
  ℕ, zero, suc, Bool, true, false, not, ◌&&◌, ◌||◌, Option, none, some, List, [], ◌∷◌, leb, ◌==◌,
  if◌then◌else◌,
}
use anvilkit_agent_api.Base.Text.{is_empty}
use anvilkit_agent_api.Errors.{ApiError, invalid_argument, invalid_field}

-- openapi3.SchemaError, as far as it is read.
pub record SchemaError : Type 0 where
  pub schema_field : String
  pub path : List String

-- openapi3filter.RequestError: a parameter's location and name, whether the request has a body in
-- the contract, and the schema error that `errors.As` finds.
pub record RequestError : Type 0 where
  pub parameter : Option (String × String)
  pub has_body : Bool
  pub schema : Option SchemaError

abbrev is_letter : ℕ → Bool
is_letter n = (leb b'A' n && leb n b'Z') || (leb b'a' n && leb n b'z')

-- At most so many letters.
unfoldable pub letters : ℕ → String → Bool
letters n String.[] = true
letters zero (String.◌∷◌ c s) = false
letters (suc n) (String.◌∷◌ c s) = is_letter (code c) && letters n s

-- `^[A-Za-z]{1,32}$`
unfoldable pub schema_keyword : String → Bool
unfolding letters
schema_keyword s = not (is_empty s) && letters 32 s

unfoldable pub schema_failure : String → String
unfolding schema_keyword
schema_failure field =
    if str_eq field "required"
    then "a required member is missing"
    else if str_eq field "properties" || str_eq field "additionalProperties"
    then "a member the contract does not define"
    else if str_eq field "type" || str_eq field "nullable"
    then "a value has the wrong type"
    else if str_eq field "enum"
    then "a value is not one of the allowed values"
    else if schema_keyword field
    then String.◌++◌ "a value violates " field
    else "a value does not match the API contract"

abbrev pub tilde : Char
tilde = "~"

abbrev pub slash : Char
slash = "/"

abbrev pub digit_zero : Char
digit_zero = "0"

abbrev pub digit_one : Char
digit_one = "1"

-- pointerEscape
unfoldable pub escape : String → String
escape String.[] = ""
escape (String.◌∷◌ c s) =
    let rest = escape s in
    if code c == b'~'
    then String.◌∷◌ tilde (String.◌∷◌ digit_zero rest)
    else if code c == b'/'
    then String.◌∷◌ tilde (String.◌∷◌ digit_one rest)
    else String.◌∷◌ c rest

unfoldable pub json_pointer : List String → String
unfolding escape
json_pointer [] = ""
json_pointer (p ∷ ps) = String.◌∷◌ slash (String.◌++◌ (escape p) (json_pointer ps))

unfoldable pub body_invalid : Option SchemaError → ApiError
unfolding schema_failure json_pointer
body_invalid none = invalid_argument "request body does not match the API contract"
body_invalid (some se) =
    invalid_field (String.◌++◌ "request body: " (schema_failure se.schema_field))
      (json_pointer se.path)

unfoldable pub without_parameter : RequestError → ApiError
unfolding body_invalid
without_parameter re =
    if re.has_body
    then body_invalid re.schema
    else invalid_argument "request does not match the API contract"

unfoldable pub with_parameter : RequestError → Option (String × String) → ApiError
unfolding without_parameter
with_parameter re none = without_parameter re
with_parameter re (some (location, name)) =
    invalid_field (String.◌++◌ "invalid " (String.◌++◌ location " parameter")) name

-- `none` is an error that is no RequestError.
unfoldable pub request_invalid : Option RequestError → ApiError
unfolding with_parameter
request_invalid none = invalid_argument "request does not match the API contract"
request_invalid (some re) = with_parameter re re.parameter
