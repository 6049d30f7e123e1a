-- ===== src/Knowledge/Wire.antt =====
-- The messages of Knowledge's gRPC services, as far as the client fills and reads them, and its
-- stubs: generated code of the contract, so the stubs are parameters. An enumerator is its name.
use anvilkit_agent_api.Base.{ℕ, String, Bool, Option, List}
use anvilkit_agent_api.Base.Int.{ℤ}
use anvilkit_agent_api.Body.{Value}
use anvilkit_agent_api.Control.Wire.{Scope, Command, Called}
use anvilkit_agent_api.Knowledge.{Citation}

pub record AccessEntry : Type 0 where
  pub principal_type : String
  pub principal_id : String
  pub permission : String

pub record ListSources : Type 0 where
  pub scope : Scope
  pub cursor : String
  pub limit : ℕ

pub record RegisterSource : Type 0 where
  pub command : Command
  pub scope : Scope
  pub kind : String
  pub locator : String
  pub content_digest : String
  pub media_type : String
  pub size_bytes : String
  pub access : List AccessEntry

pub record Named : Type 0 where
  pub scope : Scope
  pub name : String

pub record DeleteSource : Type 0 where
  pub command : Command
  pub scope : Scope
  pub source_id : String
  pub expected_revision : String

pub record UpdateAccess : Type 0 where
  pub command : Command
  pub scope : Scope
  pub source_id : String
  pub expected_acl_revision : String
  pub access : List AccessEntry

pub record Search : Type 0 where
  pub scope : Scope
  pub snapshot_id : String
  pub query : String
  pub retrieval_profile_id : String
  pub max_context_items : ℕ
  pub deadline : ℤ

pub record Recall : Type 0 where
  pub scope : Scope
  pub query : String
  pub retrieval_profile_id : String
  pub max_facts : ℕ
  pub deadline : ℤ

pub record ListFacts : Type 0 where
  pub scope : Scope
  pub subject_type : String
  pub subject_id : String
  pub state : String
  pub cursor : String
  pub limit : ℕ

pub record ProposeFact : Type 0 where
  pub command : Command
  pub scope : Scope
  pub subject_type : String
  pub subject_id : String
  pub content : String
  pub origin : String
  pub source_refs : List Value
  pub expires_at : Option ℤ

pub record DecideFact : Type 0 where
  pub command : Command
  pub scope : Scope
  pub fact_id : String
  pub expected_revision : String
  pub decision : String
  pub reason_code : Option String

pub record BeginUpload : Type 0 where
  pub command : Command
  pub scope : Scope
  pub content_digest : String
  pub size_bytes : String
  pub media_type : String

pub record CreateSnapshot : Type 0 where
  pub command : Command
  pub scope : Scope
  pub source_ids : List String

pub record Source : Type 0 where
  pub source_id : String
  pub tenant_id : String
  pub project_id : String
  pub kind : String
  pub locator : String
  pub current_revision : String
  pub content_digest : String
  pub acl_revision : String
  pub access : List AccessEntry
  pub ingest : String
  pub deleted : Bool
  pub created_at : Option ℤ
  pub updated_at : Option ℤ

pub record Fact : Type 0 where
  pub fact_id : String
  pub tenant_id : String
  pub subject_type : String
  pub subject_id : String
  pub content : String
  pub content_digest : String
  pub state : String
  pub revision : String
  pub proposer : String
  pub confirmer : Option String
  pub source_refs : List Value
  pub expires_at : Option ℤ
  pub created_at : Option ℤ
  pub updated_at : Option ℤ

pub record Item : Type 0 where
  pub text : String
  pub citation : Citation

pub record Upload : Type 0 where
  pub upload_id : String
  pub upload_url : String
  pub upload_method : String
  pub upload_headers : List (String × String)
  pub expires_at : Option ℤ

pub record Snapshot : Type 0 where
  pub snapshot_id : String
  pub tenant_id : String
  pub project_id : String
  pub index_generation : String
  pub source_revisions : List Value
  pub content_digest : String
  pub created_at : Option ℤ

pub record Listed (A : Type 0) : Type 0 where
  pub items : List A
  pub next_cursor : String

pub record Retrieved (A : Type 0) : Type 0 where
  pub items : List A
  pub no_answer : Bool
  pub index_generation : String

pub record Stubs : Type 0 where
  pub list_sources : ListSources → Called (Listed Source)
  pub register_source : RegisterSource → Called Source
  pub get_source : Named → Called Source
  pub delete_source : DeleteSource → Called Source
  pub update_source_access : UpdateAccess → Called Source
  pub search : Search → Called (Retrieved Item)
  pub begin_upload : BeginUpload → Called Upload
  pub create_snapshot : CreateSnapshot → Called Snapshot
  pub get_snapshot : Named → Called Snapshot
  pub recall_facts : Recall → Called (Retrieved Fact)
  pub list_facts : ListFacts → Called (Listed Fact)
  pub propose_fact : ProposeFact → Called Fact
  pub decide_fact : DecideFact → Called Fact
