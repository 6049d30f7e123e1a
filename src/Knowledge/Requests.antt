-- ===== src/Knowledge/Requests.antt =====
-- The calls of Knowledge's client (internal/adapters/knowledge/client.go). The contract's tables of
-- enumerators, strings.ToUpper and the clock are parameters; `timeout` is the client's.
use anvilkit_agent_api.Base.{ℕ, String, Option, none, some, List, []}
use anvilkit_agent_api.Base.Int.{ℤ, ◌+ℤ◌}
use anvilkit_agent_api.Access.{Principal}
use anvilkit_agent_api.Body.{Value}
use anvilkit_agent_api.Control.{CommandIdentity, Answer, deref}
use anvilkit_agent_api.Knowledge.{
  AccessEntry, Source, MemoryFact, ContextItem, Retrieved, Page, SourceUpload, Snapshot,
  RegisterSource, ReplaceAccess, SearchRequest, RecallRequest, MemoryParams, ProposeMemory,
  DecideMemory, BeginUpload, CreateSnapshot, Port,
}
use anvilkit_agent_api.Knowledge.Wire
use anvilkit_agent_api.Knowledge.Wire.{Stubs}
use anvilkit_agent_api.Knowledge.Client.{
  scope, command, enum, to_source, to_fact, access_of, to_item, to_retrieved, to_page, to_upload,
  to_snapshot, number_or, mapped,
}

pub record Env : Type 0 where
  pub source_kinds : List String
  pub fact_states : List String
  pub fact_decisions : List String
  pub upper : String → String
  pub now : ℤ
  pub timeout : ℤ

abbrev pub default_max_context_items : ℕ
default_max_context_items = 64

module _ (env : Env) (stubs : Stubs) (p : Principal) where
  unfoldable pub list_sources : String → ℕ → Answer (Page Source)
  unfolding scope to_page to_source
  list_sources cursor limit = mapped (to_page to_source) (
      stubs.list_sources
        (record { scope = scope p; cursor = cursor; limit = number_or 0 (some limit) }))

  unfoldable pub get_source : String → Answer Source
  unfolding scope to_source
  get_source source_id =
      mapped to_source (stubs.get_source (record { scope = scope p; name = source_id }))

  unfoldable pub search_request : SearchRequest → Wire.Search
  unfolding scope
  search_request req = record {
    scope = scope p;
    snapshot_id = req.snapshot_id;
    query = req.query;
    retrieval_profile_id = req.retrieval_profile_id;
    max_context_items = number_or default_max_context_items req.max_context_items;
    deadline = env.now +ℤ env.timeout;
  }

  unfoldable pub search : SearchRequest → Answer (Retrieved ContextItem)
  unfolding search_request to_retrieved to_item
  search req = mapped (to_retrieved to_item) (stubs.search (search_request req))

  unfoldable pub get_snapshot : String → Answer Snapshot
  unfolding scope to_snapshot
  get_snapshot snapshot_id =
      mapped to_snapshot (stubs.get_snapshot (record { scope = scope p; name = snapshot_id }))

  unfoldable pub recall_memories : RecallRequest → Answer (Retrieved MemoryFact)
  unfolding scope to_retrieved to_fact
  recall_memories req = mapped (to_retrieved to_fact) (
      stubs.recall_facts (record {
        scope = scope p;
        query = req.query;
        retrieval_profile_id = req.retrieval_profile_id;
        max_facts = number_or 5 req.max_facts;
        deadline = env.now +ℤ env.timeout;
      }))

  -- The state that a listing asks for, the zero enumerator without one.
  abbrev fact_state : Option String → String
  fact_state none = "FACT_STATE_UNSPECIFIED"
  fact_state (some w) = enum env.upper env.fact_states "FACT_STATE_" w

  unfoldable pub list_memories : MemoryParams → Answer (Page MemoryFact)
  unfolding scope deref enum to_page to_fact
  list_memories params = mapped (to_page to_fact) (
      stubs.list_facts (record {
        scope = scope p;
        subject_type = deref params.subject_type;
        subject_id = deref params.subject_id;
        state = fact_state params.state;
        cursor = deref params.cursor;
        limit = number_or 0 params.limit;
      }))

module _ (env : Env) (stubs : Stubs) (cmd : CommandIdentity) (p : Principal) where
  abbrev given_access : Option (List AccessEntry) → List Wire.AccessEntry
  given_access none = []
  given_access (some entries) = access_of entries

  unfoldable pub register_source : RegisterSource → Answer Source
  unfolding scope command enum access_of to_source
  register_source req = mapped to_source (
      stubs.register_source (record {
        command = command cmd;
        scope = scope p;
        kind = enum env.upper env.source_kinds "SOURCE_KIND_" req.kind;
        locator = req.locator;
        content_digest = req.content_digest;
        media_type = req.media_type;
        size_bytes = req.size_bytes;
        access = given_access req.access;
      }))

  unfoldable pub delete_source : String → String → Answer Source
  unfolding scope command to_source
  delete_source source_id expected_revision = mapped to_source (
      stubs.delete_source (record {
        command = command cmd;
        scope = scope p;
        source_id = source_id;
        expected_revision = expected_revision;
      }))

  unfoldable pub replace_source_access : String → ReplaceAccess → Answer Source
  unfolding scope command access_of to_source
  replace_source_access source_id req = mapped to_source (
      stubs.update_source_access (record {
        command = command cmd;
        scope = scope p;
        source_id = source_id;
        expected_acl_revision = req.expected_acl_revision;
        access = access_of req.access;
      }))

  abbrev given_refs : Option (List Value) → List Value
  given_refs none = []
  given_refs (some refs) = refs

  unfoldable pub propose_memory : ProposeMemory → Answer MemoryFact
  unfolding scope command to_fact
  propose_memory req = mapped to_fact (
      stubs.propose_fact (record {
        command = command cmd;
        scope = scope p;
        subject_type = req.subject_type;
        subject_id = req.subject_id;
        content = req.content;
        origin = "FACT_ORIGIN_USER";
        source_refs = given_refs req.source_refs;
        expires_at = req.expires_at;
      }))

  unfoldable pub decide_memory : String → DecideMemory → Answer MemoryFact
  unfolding scope command enum to_fact
  decide_memory fact_id req = mapped to_fact (
      stubs.decide_fact (record {
        command = command cmd;
        scope = scope p;
        fact_id = fact_id;
        expected_revision = req.expected_revision;
        decision = enum env.upper env.fact_decisions "FACT_DECISION_" req.decision;
        reason_code = req.reason_code;
      }))

  unfoldable pub begin_source_upload : BeginUpload → Answer SourceUpload
  unfolding scope command to_upload
  begin_source_upload req = mapped to_upload (
      stubs.begin_upload (record {
        command = command cmd;
        scope = scope p;
        content_digest = req.content_digest;
        size_bytes = req.size_bytes;
        media_type = req.media_type;
      }))

  unfoldable pub create_snapshot : CreateSnapshot → Answer Snapshot
  unfolding scope command to_snapshot
  create_snapshot req = mapped to_snapshot (
      stubs.create_snapshot
        (record { command = command cmd; scope = scope p; source_ids = req.source_ids }))

-- The client as the port that the handlers use.
abbrev pub client : Env → Stubs → Port
client env stubs = record {
  list_sources = λ p. list_sources env stubs p;
  register_source = λ cmd p. register_source env stubs cmd p;
  get_source = λ p. get_source env stubs p;
  delete_source = λ cmd p. delete_source env stubs cmd p;
  replace_source_access = λ cmd p. replace_source_access env stubs cmd p;
  search = λ p. search env stubs p;
  begin_source_upload = λ cmd p. begin_source_upload env stubs cmd p;
  create_snapshot = λ cmd p. create_snapshot env stubs cmd p;
  get_snapshot = λ p. get_snapshot env stubs p;
  recall_memories = λ p. recall_memories env stubs p;
  list_memories = λ p. list_memories env stubs p;
  propose_memory = λ cmd p. propose_memory env stubs cmd p;
  decide_memory = λ cmd p. decide_memory env stubs cmd p;
}
