-- ===== src/Knowledge.antt =====
-- The API's gateway to Knowledge: the port (internal/application/gateways.go) over the public
-- contract's values, which are generated types; a member that is only passed on is a document. A
-- time is the nanoseconds since the epoch.
pub mod Wire
pub mod Client
pub mod Requests
pub mod Handlers
pub mod Scoped
pub mod Issued
pub mod Unavailable
mod Examples
use anvilkit_agent_api.Base.{ℕ, String, Bool, Option, List}
use anvilkit_agent_api.Base.Int.{ℤ}
use anvilkit_agent_api.Access.{Principal}
use anvilkit_agent_api.Body.{Value}
use anvilkit_agent_api.Control.{CommandIdentity, Answer}

-- A permission is absent, or "manage"; a request may hold any word.
pub record AccessEntry : Type 0 where
  pub principal_type : String
  pub principal_id : String
  pub permission : Option String

pub record Source : Type 0 where
  pub source_id : String
  pub tenant_id : String
  pub kind : String
  pub locator : String
  pub current_revision : String
  pub content_digest : String
  pub acl_revision : String
  pub access : List AccessEntry
  pub ingest : String
  pub deleted : Bool
  pub created_at : ℤ
  pub updated_at : ℤ
  pub project_id : Option String

pub record MemoryFact : Type 0 where
  pub fact_id : String
  pub tenant_id : String
  pub subject_type : String
  pub subject_id : String
  pub content : String
  pub content_digest : String
  pub state : String
  pub revision : String
  pub proposer : String
  pub expires_at : Option ℤ
  pub created_at : ℤ
  pub updated_at : ℤ
  pub confirmer : Option String
  pub source_refs : Option (List Value)

pub record Citation : Type 0 where
  pub ordinal : String
  pub source_id : String
  pub source_revision : String
  pub chunk_id : String
  pub locator : String
  pub content_digest : String

pub record ContextItem : Type 0 where
  pub text : String
  pub citation : Citation

pub record Retrieved (A : Type 0) : Type 0 where
  pub items : List A
  pub no_answer : Bool
  pub index_generation : String

pub record Page (A : Type 0) : Type 0 where
  pub items : List A
  pub next_cursor : Option String

pub record SourceUpload : Type 0 where
  pub upload_id : String
  pub upload_url : String
  pub upload_method : String
  pub upload_headers : List (String × String)
  pub expires_at : ℤ

pub record Snapshot : Type 0 where
  pub snapshot_id : String
  pub tenant_id : String
  pub index_generation : String
  pub source_revisions : List Value
  pub content_digest : String
  pub created_at : ℤ
  pub project_id : Option String

pub record RegisterSource : Type 0 where
  pub command_id : String
  pub kind : String
  pub locator : String
  pub content_digest : String
  pub media_type : String
  pub size_bytes : String
  pub access : Option (List AccessEntry)

pub record ReplaceAccess : Type 0 where
  pub command_id : String
  pub expected_acl_revision : String
  pub access : List AccessEntry

pub record SearchRequest : Type 0 where
  pub snapshot_id : String
  pub query : String
  pub retrieval_profile_id : String
  pub max_context_items : Option ℕ

pub record RecallRequest : Type 0 where
  pub query : String
  pub retrieval_profile_id : String
  pub max_facts : Option ℕ

pub record MemoryParams : Type 0 where
  pub subject_type : Option String
  pub subject_id : Option String
  pub state : Option String
  pub cursor : Option String
  pub limit : Option ℕ

pub record ProposeMemory : Type 0 where
  pub command_id : String
  pub subject_type : String
  pub subject_id : String
  pub content : String
  pub source_refs : Option (List Value)
  pub expires_at : Option ℤ

pub record DecideMemory : Type 0 where
  pub command_id : String
  pub expected_revision : String
  pub decision : String
  pub reason_code : Option String

pub record BeginUpload : Type 0 where
  pub command_id : String
  pub content_digest : String
  pub size_bytes : String
  pub media_type : String

pub record CreateSnapshot : Type 0 where
  pub command_id : String
  pub source_ids : List String

-- application.Knowledge
pub record Port : Type 0 where
  pub list_sources : Principal → String → ℕ → Answer (Page Source)
  pub register_source : CommandIdentity → Principal → RegisterSource → Answer Source
  pub get_source : Principal → String → Answer Source
  pub delete_source : CommandIdentity → Principal → String → String → Answer Source
  pub replace_source_access : CommandIdentity → Principal → String → ReplaceAccess → Answer Source
  pub search : Principal → SearchRequest → Answer (Retrieved ContextItem)
  pub begin_source_upload : CommandIdentity → Principal → BeginUpload → Answer SourceUpload
  pub create_snapshot : CommandIdentity → Principal → CreateSnapshot → Answer Snapshot
  pub get_snapshot : Principal → String → Answer Snapshot
  pub recall_memories : Principal → RecallRequest → Answer (Retrieved MemoryFact)
  pub list_memories : Principal → MemoryParams → Answer (Page MemoryFact)
  pub propose_memory : CommandIdentity → Principal → ProposeMemory → Answer MemoryFact
  pub decide_memory : CommandIdentity → Principal → String → DecideMemory → Answer MemoryFact
