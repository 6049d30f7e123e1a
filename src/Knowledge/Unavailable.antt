-- ===== src/Knowledge/Unavailable.antt =====
-- The API without a placement of its gateways.
use anvilkit_agent_api.Base.{String, ◌≡◌, refl, none, some}
use anvilkit_agent_api.Base.Text.{utf8}
use anvilkit_agent_api.Base.Dict.{lookup}
use anvilkit_agent_api.Control.Handlers.{Context}
use anvilkit_agent_api.Mcp.Handlers
use anvilkit_agent_api.Mcp.Unavailable
use anvilkit_agent_api.Mcp.Unavailable.{envelope_of, refusal}
use anvilkit_agent_api.Knowledge.Handlers.{
  Request, handle, gateway, list_sources, register_source, get_source, delete_source,
  replace_source_access, search, begin_source_upload, create_snapshot, get_snapshot,
  recall_memories, list_memories, propose_memory, decide_memory,
}

gateway_unavailable :
    (c : Context) (r : Request) (request_id : String)
    → envelope_of (handle (gateway none) c r) request_id
      ≡ some (refusal "knowledge is not placed for this API" request_id)
unfolding envelope_of handle gateway utf8 lookup
gateway_unavailable c (list_sources cursor limit) request_id = refl
gateway_unavailable c (register_source body) request_id = refl
gateway_unavailable c (get_source id) request_id = refl
gateway_unavailable c (delete_source command_id id revision) request_id = refl
gateway_unavailable c (replace_source_access id body) request_id = refl
gateway_unavailable c (search body) request_id = refl
gateway_unavailable c (begin_source_upload body) request_id = refl
gateway_unavailable c (create_snapshot body) request_id = refl
gateway_unavailable c (get_snapshot id) request_id = refl
gateway_unavailable c (recall_memories body) request_id = refl
gateway_unavailable c (list_memories params) request_id = refl
gateway_unavailable c (propose_memory body) request_id = refl
gateway_unavailable c (decide_memory id body) request_id = refl

-- Without a placement of MCP and of Knowledge every request on the routes of either is answered 503
-- DEPENDENCY_UNAVAILABLE with a message that names the service; the response says that it is not
-- retryable and has no Retry-After.
pub unplaced_refused :
    (c : Context) (m : Handlers.Request) (k : Request) (request_id : String)
    → (envelope_of (Handlers.handle (Handlers.gateway none) c m) request_id
        ≡ some (refusal "mcp is not placed for this API" request_id))
      × (envelope_of (handle (gateway none) c k) request_id
          ≡ some (refusal "knowledge is not placed for this API" request_id))
unplaced_refused c m k request_id =
    (Unavailable.gateway_unavailable c m request_id, gateway_unavailable c k request_id)
