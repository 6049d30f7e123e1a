-- ===== src/Knowledge/Handlers.antt =====
-- The handlers of Knowledge's routes (internal/transport/http/handlers.go), the gateway that they
-- use (server.go, Gateways.knowledge) and the one without a placement
-- (internal/application/gateways.go, Unavailable).
use anvilkit_agent_api.Base.{String, ℕ, Option, none, some}
use anvilkit_agent_api.Base.Results.{Result, failed, ok}
use anvilkit_agent_api.Errors.{Failure}
use anvilkit_agent_api.Control.{deref}
use anvilkit_agent_api.Control.Handlers.{Context, principal_of, identity, Reply, respond}
use anvilkit_agent_api.Mcp.Handlers.{not_placed}
use anvilkit_agent_api.Knowledge.{
  Source, MemoryFact, ContextItem, Retrieved, Page, SourceUpload, Snapshot, RegisterSource,
  ReplaceAccess, SearchRequest, RecallRequest, MemoryParams, ProposeMemory, DecideMemory,
  BeginUpload, CreateSnapshot, Port,
}

-- A request of one of the routes, with what the handler is given beside its context.
pub data Request : Type 0 where
  list_sources : Option String → Option ℕ → Request
  register_source : RegisterSource → Request
  get_source : String → Request
  delete_source : String → String → String → Request
  replace_source_access : String → ReplaceAccess → Request
  search : SearchRequest → Request
  begin_source_upload : BeginUpload → Request
  create_snapshot : CreateSnapshot → Request
  get_snapshot : String → Request
  recall_memories : RecallRequest → Request
  list_memories : MemoryParams → Request
  propose_memory : ProposeMemory → Request
  decide_memory : String → DecideMemory → Request

pub data Response : Type 0 where
  source_page : Reply (Page Source) → Response
  source : Reply Source → Response
  found : Reply (Retrieved ContextItem) → Response
  upload : Reply SourceUpload → Response
  snapshot : Reply Snapshot → Response
  recalled : Reply (Retrieved MemoryFact) → Response
  fact_page : Reply (Page MemoryFact) → Response
  fact : Reply MemoryFact → Response

abbrev pub answered : {A : Type 0} → (A → Response) → Result Failure A → Result Failure Response
answered f (failed e) = failed e
answered f (ok a) = ok (f a)

-- limitOf
unfoldable pub limit_of : Option ℕ → ℕ
limit_of none = 0
limit_of (some n) = n

-- The handlers: what each answers, and its status.
unfoldable pub handle : Port → Context → Request → Result Failure Response
unfolding principal_of identity deref limit_of
handle k c (list_sources cursor limit) =
    answered source_page
      (respond 200 (λ a. a) (k.list_sources (principal_of c) (deref cursor) (limit_of limit)))
handle k c (register_source body) =
    answered source
      (respond 202 (λ a. a) (k.register_source (identity c body.command_id) (principal_of c) body))
handle k c (get_source id) =
    answered source (respond 200 (λ a. a) (k.get_source (principal_of c) id))
handle k c (delete_source command_id id expected_revision) = answered source (
    respond 200 (λ a. a)
      (k.delete_source (identity c command_id) (principal_of c) id expected_revision))
handle k c (replace_source_access id body) = answered source (
    respond 200 (λ a. a)
      (k.replace_source_access (identity c body.command_id) (principal_of c) id body))
handle k c (search body) = answered found (respond 200 (λ a. a) (k.search (principal_of c) body))
handle k c (begin_source_upload body) = answered upload (
    respond 201 (λ a. a) (k.begin_source_upload (identity c body.command_id) (principal_of c) body))
handle k c (create_snapshot body) =
    answered snapshot
      (respond 201 (λ a. a) (k.create_snapshot (identity c body.command_id) (principal_of c) body))
handle k c (get_snapshot id) =
    answered snapshot (respond 200 (λ a. a) (k.get_snapshot (principal_of c) id))
handle k c (recall_memories body) =
    answered recalled (respond 200 (λ a. a) (k.recall_memories (principal_of c) body))
handle k c (list_memories params) =
    answered fact_page (respond 200 (λ a. a) (k.list_memories (principal_of c) params))
handle k c (propose_memory body) =
    answered fact
      (respond 201 (λ a. a) (k.propose_memory (identity c body.command_id) (principal_of c) body))
handle k c (decide_memory id body) =
    answered fact
      (respond 200 (λ a. a) (k.decide_memory (identity c body.command_id) (principal_of c) id body))

abbrev pub unavailable : String → Port
unavailable service = record {
  list_sources = λ p cursor limit. failed (not_placed service);
  register_source = λ cmd p req. failed (not_placed service);
  get_source = λ p id. failed (not_placed service);
  delete_source = λ cmd p id revision. failed (not_placed service);
  replace_source_access = λ cmd p id req. failed (not_placed service);
  search = λ p req. failed (not_placed service);
  begin_source_upload = λ cmd p req. failed (not_placed service);
  create_snapshot = λ cmd p req. failed (not_placed service);
  get_snapshot = λ p id. failed (not_placed service);
  recall_memories = λ p req. failed (not_placed service);
  list_memories = λ p params. failed (not_placed service);
  propose_memory = λ cmd p req. failed (not_placed service);
  decide_memory = λ cmd p id req. failed (not_placed service);
}

-- Gateways.knowledge
unfoldable pub gateway : Option Port → Port
gateway none = unavailable "knowledge"
gateway (some knowledge) = knowledge
