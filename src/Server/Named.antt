-- ===== src/Server/Named.antt =====
-- The request's identifier and the log, whatever a request comes to.
use anvilkit_agent_api.Base.{String, ◌≡◌, Option, none, some, List, [], ◌∷◌, ◌++◌}
use anvilkit_agent_api.Errors.{Response}
use anvilkit_agent_api.Server.{Line, request, panic_recovered, level_of, route_of}
use anvilkit_agent_api.Server.Chain.{Request}
use anvilkit_agent_api.Server.Decision.{Answer}

abbrev pub code_in : Option Response → Option String
code_in none = none
code_in (some e) = some e.code

abbrev pub Signed : String → Option Response → Type 0
Signed id none = Unit
Signed id (some e) = e.request_id ≡ id

-- No line before the request's, or the one of a recovered panic.
abbrev pub Panics : String → String → List Line → Type 0
Panics id route [] = Unit
Panics id route (l ∷ []) = (name : String) × (l ≡ panic_recovered id name route)
Panics id route (l ∷ m ∷ rest) = ⊥

abbrev pub Recorded : String → Request → Answer → Type 0
Recorded id r a =
    (panics : List Line) × Panics id r.full_path panics
    × (a.lines
        ≡ panics
          ++ request (level_of a.status) id r.method (route_of r.full_path) a.status
              (code_in a.envelope)
            ∷ [])

abbrev Named : String → Request → Answer → Type 0
Named id r a = (a.x_request_id ≡ some id) × Signed id a.envelope × Recorded id r a
