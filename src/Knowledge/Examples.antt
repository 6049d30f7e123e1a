-- ===== src/Knowledge/Examples.antt =====
-- The routes of Knowledge over an owner that answers searches.
use text.Mathlib.Text.{◌==◌ as str_eq}
use anvilkit_agent_api.Base.{◌≡◌, refl, some, [], ◌∷◌, true, arith, if◌then◌else◌}
use anvilkit_agent_api.Base.Int.{pos}
use anvilkit_agent_api.Base.Results.{failed, ok}
use anvilkit_agent_api.Access.{Principal}
use anvilkit_agent_api.Errors.Owner.{no_status, status, internal}
use anvilkit_agent_api.Control.Scoped.{verified}
use anvilkit_agent_api.Control.Handlers.{Reply}
use anvilkit_agent_api.Knowledge.{BeginUpload, SourceUpload, SearchRequest}
use anvilkit_agent_api.Knowledge.Wire
use anvilkit_agent_api.Knowledge.Wire.{Stubs}
use anvilkit_agent_api.Knowledge.Client.{to_upload}
use anvilkit_agent_api.Knowledge.Requests
use anvilkit_agent_api.Knowledge.Requests.{Env, client}
use anvilkit_agent_api.Knowledge.Handlers.{handle, search, begin_source_upload, upload}
use anvilkit_agent_api.Knowledge.Issued.{IsBegun, upload_issued}
use anvilkit_agent_api.Knowledge.Scoped.{command_id_of, Alike, client-Alike}

abbrev env : Env
env = record {
  source_kinds = [];
  fact_states = [];
  fact_decisions = [];
  upper = λ s. s;
  now = pos 0;
  timeout = pos 5;
}

abbrev nothing : Wire.Retrieved Wire.Item
nothing = record { items = []; no_answer = true; index_generation = "1" }

abbrev owner : Stubs
owner = record {
  list_sources = λ r. failed no_status;
  get_source = λ r. failed no_status;
  search = λ r. ok nothing;
  get_snapshot = λ r. failed no_status;
  recall_facts = λ r. failed no_status;
  list_facts = λ r. failed no_status;
  register_source = λ r. failed no_status;
  delete_source = λ r. failed no_status;
  update_source_access = λ r. failed no_status;
  begin_upload = λ r. failed no_status;
  create_snapshot = λ r. failed no_status;
  propose_fact = λ r. failed no_status;
  decide_fact = λ r. failed no_status;
}

-- An owner that answers the searches of another tenant otherwise.
abbrev other_owner : Stubs
other_owner = record owner {
  search = λ r. if str_eq r.scope.tenant_id "t1" then ok nothing else failed (status internal "");
}

abbrev actor : Principal
actor = record { tenant_id = "t1"; project_id = "p1"; actor_id = "a1"; roles = [] }

abbrev body : SearchRequest
body = record {
  snapshot_id = "s1";
  query = "q";
  retrieval_profile_id = "r1";
  max_context_items = some 8;
}

alike : Alike actor "sha256:01" (command_id_of (search body)) owner other_owner
unfolding command_id_of
alike = record {
  list_sources = λ r own. refl;
  get_source = λ r own. refl;
  search = λ r own cap. rw own.0 refl;
  get_snapshot = λ r own. refl;
  recall_facts = λ r own cap. refl;
  list_facts = λ r own. refl;
  register_source = λ r own mine. refl;
  delete_source = λ r own mine. refl;
  update_source_access = λ r own mine. refl;
  begin_upload = λ r own mine. refl;
  create_snapshot = λ r own mine. refl;
  propose_fact = λ r own mine user. refl;
  decide_fact = λ r own mine. refl;
}

client-Alike_example :
    handle (client env owner) (verified actor "sha256:01") (search body)
    ≡ handle (client env other_owner) (verified actor "sha256:01") (search body)
client-Alike_example =
    client-Alike env owner other_owner actor "sha256:01" (search body) (omega arith, omega arith)
      alike

-- An owner that issues one upload.
abbrev issuing : Stubs
issuing = record owner {
  begin_upload = λ r. ok (record {
    upload_id = "u1";
    upload_url = "https://objects/u1";
    upload_method = "PUT";
    upload_headers = ("x-digest", r.content_digest) ∷ [];
    expires_at = some (pos 9);
  });
}

abbrev begin : BeginUpload
begin = record {
  command_id = "c1";
  content_digest = "sha256:0a";
  size_bytes = "3";
  media_type = "text/plain";
}

abbrev begun : Reply SourceUpload
begun = record {
  status = 201;
  body = record {
    upload_id = "u1";
    upload_url = "https://objects/u1";
    upload_method = "PUT";
    upload_headers = ("x-digest", "sha256:0a") ∷ [];
    expires_at = pos 9;
  };
}

begins :
    handle (client env issuing) (verified actor "sha256:01") (begin_source_upload begin)
    ≡ ok (upload begun)
unfolding handle Requests.begin_source_upload to_upload
begins = refl

upload_issued_example :
    IsBegun env issuing (verified actor "sha256:01") begun (begin_source_upload begin)
upload_issued_example =
    upload_issued env issuing (verified actor "sha256:01") begun (begin_source_upload begin) begins
