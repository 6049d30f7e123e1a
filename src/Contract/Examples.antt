-- ===== src/Contract/Examples.antt =====
-- Refusals on concrete inputs.
use anvilkit_agent_api.Base.{◌≡◌, refl, true, false, none, some, [], ◌∷◌}
use anvilkit_agent_api.Errors.{invalid_field}
use anvilkit_agent_api.Contract.{RequestError, SchemaError, request_invalid}
use anvilkit_agent_api.Contract.Pointer.{read_pointer, request_invalid_lem}

abbrev failure : SchemaError
failure = record { schema_field = "maxLength"; path = "subject" ∷ "a/b~c" ∷ "0" ∷ [] }

abbrev rejected : RequestError
rejected = record { parameter = none; has_body = true; schema = some failure }

names_location : (request_invalid (some rejected)).field ≡ "/subject/a~1b~0c/0"
unfolding request_invalid invalid_field
names_location = refl

names_keyword :
    (request_invalid (some rejected)).message ≡ "request body: a value violates maxLength"
unfolding request_invalid invalid_field
names_keyword = refl

request_invalid_lem_example :
    let e = request_invalid (some (record rejected { parameter = none })) in
    let f = request_invalid (some (record rejected { parameter = some ("query", "limit") })) in
    (e.status ≡ 400)
    × (e.code ≡ "INVALID_ARGUMENT")
    × (e.retryable ≡ false)
    × (read_pointer e.field ≡ failure.path)
    × (f.status ≡ 400)
    × (f.code ≡ "INVALID_ARGUMENT")
    × (f.retryable ≡ false)
    × (f.field ≡ "limit")
request_invalid_lem_example = request_invalid_lem rejected failure "query" "limit" refl refl
