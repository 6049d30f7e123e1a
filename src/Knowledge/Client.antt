-- ===== src/Knowledge/Client.antt =====
-- The readers of Knowledge's messages (internal/adapters/knowledge/client.go).
use Prim.Native.Nat.{◌%◌}
use Prim.Native.String.{String}
use Prim.Native.String
use text.Mathlib.Text.{◌==◌ as str_eq}
use anvilkit_agent_api.Base.{ℕ, Option, none, some, List, [], ◌∷◌, map, ◌^◌, if◌then◌else◌}
use anvilkit_agent_api.Base.Results.{failed, ok}
use anvilkit_agent_api.Errors.Owner.{map_failed, one_of}
use anvilkit_agent_api.Access.{Principal}
use anvilkit_agent_api.Body.{Value}
use anvilkit_agent_api.Control.{CommandIdentity, Answer, opt_str, deref}
use anvilkit_agent_api.Control.Wire.{Scope, Command, Called}
use anvilkit_agent_api.Control.Client.{as_time, enum_word}
use anvilkit_agent_api.Knowledge.{
  AccessEntry, Source, MemoryFact, ContextItem, Retrieved, Page, SourceUpload, Snapshot,
}
use anvilkit_agent_api.Knowledge.Wire

unfoldable pub scope : Principal → Scope
scope p = record {
  tenant_id = p.tenant_id;
  project_id = p.project_id;
  actor_id = p.actor_id;
  roles = p.roles;
}

unfoldable pub command : CommandIdentity → Command
command cmd = record {
  tenant_id = cmd.tenant_id;
  command_id = cmd.command_id;
  actor_id = cmd.actor_id;
  request_digest = cmd.request_digest;
}

-- `enum`: the enumerator of a contract's word, the zero one for a word that is not listed.
-- `upper` is strings.ToUpper.
unfoldable pub enum : (String → String) → List String → String → String → String
enum upper names prefix w =
    let name = String.◌++◌ prefix (upper w) in
    if one_of name names then name else String.◌++◌ prefix "UNSPECIFIED"

abbrev to_entry : Wire.AccessEntry → AccessEntry
to_entry a = record {
  principal_type = a.principal_type;
  principal_id = a.principal_id;
  permission = if str_eq a.permission "manage" then some "manage" else none;
}

unfoldable pub to_source : Wire.Source → Source
unfolding enum_word opt_str
to_source s = record {
  source_id = s.source_id;
  tenant_id = s.tenant_id;
  kind = enum_word s.kind "SOURCE_KIND_";
  locator = s.locator;
  current_revision = s.current_revision;
  content_digest = s.content_digest;
  acl_revision = s.acl_revision;
  access = map to_entry s.access;
  ingest = enum_word s.ingest "INGEST_STATE_";
  deleted = s.deleted;
  created_at = as_time s.created_at;
  updated_at = as_time s.updated_at;
  project_id = opt_str s.project_id;
}

-- References are absent where there are none.
abbrev some_refs : List Value → Option (List Value)
some_refs [] = none
some_refs (r ∷ rs) = some (r ∷ rs)

unfoldable pub to_fact : Wire.Fact → MemoryFact
unfolding enum_word
to_fact f = record {
  fact_id = f.fact_id;
  tenant_id = f.tenant_id;
  subject_type = f.subject_type;
  subject_id = f.subject_id;
  content = f.content;
  content_digest = f.content_digest;
  state = enum_word f.state "FACT_STATE_";
  revision = f.revision;
  proposer = f.proposer;
  expires_at = f.expires_at;
  created_at = as_time f.created_at;
  updated_at = as_time f.updated_at;
  confirmer = f.confirmer;
  source_refs = some_refs f.source_refs;
}

abbrev entry_of : AccessEntry → Wire.AccessEntry
entry_of a = record {
  principal_type = a.principal_type;
  principal_id = a.principal_id;
  permission = deref a.permission;
}

unfoldable pub access_of : List AccessEntry → List Wire.AccessEntry
unfolding deref
access_of entries = map entry_of entries

unfoldable pub to_item : Wire.Item → ContextItem
to_item i = record { text = i.text; citation = i.citation }

unfoldable pub to_retrieved : {A B : Type 0} → (A → B) → Wire.Retrieved A → Retrieved B
to_retrieved read r = record {
  items = map read r.items;
  no_answer = r.no_answer;
  index_generation = r.index_generation;
}

unfoldable pub to_page : {A B : Type 0} → (A → B) → Wire.Listed A → Page B
unfolding opt_str
to_page read page = record { items = map read page.items; next_cursor = opt_str page.next_cursor }

unfoldable pub to_upload : Wire.Upload → SourceUpload
to_upload u = record {
  upload_id = u.upload_id;
  upload_url = u.upload_url;
  upload_method = u.upload_method;
  upload_headers = u.upload_headers;
  expires_at = as_time u.expires_at;
}

unfoldable pub to_snapshot : Wire.Snapshot → Snapshot
unfolding opt_str
to_snapshot s = record {
  snapshot_id = s.snapshot_id;
  tenant_id = s.tenant_id;
  index_generation = s.index_generation;
  source_revisions = s.source_revisions;
  content_digest = s.content_digest;
  created_at = as_time s.created_at;
  project_id = opt_str s.project_id;
}

-- A uint32 of a number that may be absent.
abbrev pub number_or : ℕ → Option ℕ → ℕ
number_or d none = d
number_or d (some n) = n % 2 ^ 32

-- The error of a call goes through MapError, its answer through the reader.
abbrev pub mapped : {A B : Type 0} → (A → B) → Called A → Answer B
mapped read (failed e) = failed (map_failed e "knowledge")
mapped read (ok a) = ok (read a)
