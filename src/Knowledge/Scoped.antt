-- ===== src/Knowledge/Scoped.antt =====
-- Whose requests the API makes on Knowledge, and what it asks for.
use anvilkit_agent_api.Base.{String, ℕ, ◌≤◌, ◌<◌, ◌^◌, ◌≡◌, refl, ap, Option, none, some, arith}
use anvilkit_agent_api.Access.{Principal}
use anvilkit_agent_api.Control.Handlers.{identity, principal_of, respond}
use anvilkit_agent_api.Control.Scoped.{verified, IsOwn, IsOwnCommand}
use anvilkit_agent_api.Knowledge.Wire
use anvilkit_agent_api.Knowledge.Wire.{Stubs}
use anvilkit_agent_api.Knowledge.Client.{
  scope, command, mapped, to_source, to_fact, to_item, to_retrieved, to_page, to_upload,
  to_snapshot, number_or,
}
use anvilkit_agent_api.Knowledge.Requests
use anvilkit_agent_api.Knowledge.Requests.{Env, client}
use anvilkit_agent_api.Knowledge.Handlers.{
  Request, answered, handle, list_sources, register_source, get_source, delete_source,
  replace_source_access, search, begin_source_upload, create_snapshot, get_snapshot,
  recall_memories, list_memories, propose_memory, decide_memory, source_page, source, found, upload,
  snapshot, recalled, fact_page, fact,
}

-- The command that the request's body names; a read has none.
unfoldable pub command_id_of : Request → String
command_id_of (register_source body) = body.command_id
command_id_of (delete_source command_id id revision) = command_id
command_id_of (replace_source_access id body) = body.command_id
command_id_of (begin_source_upload body) = body.command_id
command_id_of (create_snapshot body) = body.command_id
command_id_of (propose_memory body) = body.command_id
command_id_of (decide_memory id body) = body.command_id
command_id_of _ = ""

-- A cap that the request names is at least 1, as the contract demands, and fits 32 bits.
abbrev pub IsCap : Option ℕ → Type 0
IsCap none = Unit
IsCap (some n) = (1 ≤ n) × (n < 2 ^ 32)

abbrev pub IsCapped : Request → Type 0
IsCapped (search body) = IsCap body.max_context_items
IsCapped (recall_memories body) = IsCap body.max_facts
IsCapped _ = Unit

capped : (d : ℕ) (cap : Option ℕ) → 1 ≤ d → IsCap cap → 1 ≤ number_or d cap
capped d none h k = h
capped d (some n) h (low, high) = omega (arith, low, high)

module _ (p : Principal) (digest command_id : String) where
  -- Two owners answer alike the messages that carry the caller's own scope, the command's own
  -- identity, a cap of at least 1 where there is one, and a user as a memory's origin; what either
  -- answers to any other message is left open.
  pub record Alike (s t : Stubs) : Type 0 where
    pub list_sources :
        (r : Wire.ListSources)
        → IsOwn p digest command_id r.scope
        → s.list_sources r ≡ t.list_sources r
    pub get_source :
        (r : Wire.Named) → IsOwn p digest command_id r.scope → s.get_source r ≡ t.get_source r
    pub search :
        (r : Wire.Search)
        → IsOwn p digest command_id r.scope
        → 1 ≤ r.max_context_items
        → s.search r ≡ t.search r
    pub get_snapshot :
        (r : Wire.Named) → IsOwn p digest command_id r.scope → s.get_snapshot r ≡ t.get_snapshot r
    pub recall_facts :
        (r : Wire.Recall)
        → IsOwn p digest command_id r.scope
        → 1 ≤ r.max_facts
        → s.recall_facts r ≡ t.recall_facts r
    pub list_facts :
        (r : Wire.ListFacts) → IsOwn p digest command_id r.scope → s.list_facts r ≡ t.list_facts r
    pub register_source :
        (r : Wire.RegisterSource)
        → IsOwn p digest command_id r.scope
        → IsOwnCommand p digest command_id r.command
        → s.register_source r ≡ t.register_source r
    pub delete_source :
        (r : Wire.DeleteSource)
        → IsOwn p digest command_id r.scope
        → IsOwnCommand p digest command_id r.command
        → s.delete_source r ≡ t.delete_source r
    pub update_source_access :
        (r : Wire.UpdateAccess)
        → IsOwn p digest command_id r.scope
        → IsOwnCommand p digest command_id r.command
        → s.update_source_access r ≡ t.update_source_access r
    pub begin_upload :
        (r : Wire.BeginUpload)
        → IsOwn p digest command_id r.scope
        → IsOwnCommand p digest command_id r.command
        → s.begin_upload r ≡ t.begin_upload r
    pub create_snapshot :
        (r : Wire.CreateSnapshot)
        → IsOwn p digest command_id r.scope
        → IsOwnCommand p digest command_id r.command
        → s.create_snapshot r ≡ t.create_snapshot r
    pub propose_fact :
        (r : Wire.ProposeFact)
        → IsOwn p digest command_id r.scope
        → IsOwnCommand p digest command_id r.command
        → r.origin ≡ "FACT_ORIGIN_USER"
        → s.propose_fact r ≡ t.propose_fact r
    pub decide_fact :
        (r : Wire.DecideFact)
        → IsOwn p digest command_id r.scope
        → IsOwnCommand p digest command_id r.command
        → s.decide_fact r ≡ t.decide_fact r

-- The API's response to an authenticated request on Knowledge's routes depends on Knowledge only
-- through messages that carry the caller's verified tenant, project, actor and roles and, for a
-- command, the caller's tenant and actor with the body's command id and the body's digest; where
-- the caps that requests name are at least 1 and fit 32 bits, a search and a recall never ask for 0
-- items, and a memory is proposed as a user's. Two owners that answer those alike give the same
-- response, whatever they answer to other messages.
pub client-Alike :
    (env : Env) (s t : Stubs) (p : Principal) (digest : String) (r : Request)
    → IsCapped r
    → Alike p digest (command_id_of r) s t
    → handle (client env s) (verified p digest) r ≡ handle (client env t) (verified p digest) r
unfolding handle command_id_of scope command identity principal_of Requests.list_sources
    Requests.get_source Requests.search Requests.get_snapshot Requests.recall_memories
    Requests.list_memories Requests.register_source Requests.delete_source
    Requests.replace_source_access Requests.begin_source_upload Requests.create_snapshot
    Requests.propose_memory Requests.decide_memory
client-Alike env s t p digest (list_sources cursor limit) cap alike =
    ap (λ a. answered source_page (respond 200 (λ b. b) (mapped (to_page to_source) a)))
      (alike.list_sources _ (refl, refl, refl, refl))
client-Alike env s t p digest (get_source id) cap alike =
    ap (λ a. answered source (respond 200 (λ b. b) (mapped to_source a)))
      (alike.get_source _ (refl, refl, refl, refl))
client-Alike env s t p digest (search body) cap alike =
    ap (λ a. answered found (respond 200 (λ b. b) (mapped (to_retrieved to_item) a)))
      (alike.search _ (refl, refl, refl, refl) (capped 64 body.max_context_items (omega arith) cap))
client-Alike env s t p digest (get_snapshot id) cap alike =
    ap (λ a. answered snapshot (respond 200 (λ b. b) (mapped to_snapshot a)))
      (alike.get_snapshot _ (refl, refl, refl, refl))
client-Alike env s t p digest (recall_memories body) cap alike =
    ap (λ a. answered recalled (respond 200 (λ b. b) (mapped (to_retrieved to_fact) a)))
      (alike.recall_facts _ (refl, refl, refl, refl) (capped 5 body.max_facts (omega arith) cap))
client-Alike env s t p digest (list_memories params) cap alike =
    ap (λ a. answered fact_page (respond 200 (λ b. b) (mapped (to_page to_fact) a)))
      (alike.list_facts _ (refl, refl, refl, refl))
client-Alike env s t p digest (register_source body) cap alike =
    ap (λ a. answered source (respond 202 (λ b. b) (mapped to_source a)))
      (alike.register_source _ (refl, refl, refl, refl) (refl, refl, refl, refl))
client-Alike env s t p digest (delete_source command_id id revision) cap alike =
    ap (λ a. answered source (respond 200 (λ b. b) (mapped to_source a)))
      (alike.delete_source _ (refl, refl, refl, refl) (refl, refl, refl, refl))
client-Alike env s t p digest (replace_source_access id body) cap alike =
    ap (λ a. answered source (respond 200 (λ b. b) (mapped to_source a)))
      (alike.update_source_access _ (refl, refl, refl, refl) (refl, refl, refl, refl))
client-Alike env s t p digest (begin_source_upload body) cap alike =
    ap (λ a. answered upload (respond 201 (λ b. b) (mapped to_upload a)))
      (alike.begin_upload _ (refl, refl, refl, refl) (refl, refl, refl, refl))
client-Alike env s t p digest (create_snapshot body) cap alike =
    ap (λ a. answered snapshot (respond 201 (λ b. b) (mapped to_snapshot a)))
      (alike.create_snapshot _ (refl, refl, refl, refl) (refl, refl, refl, refl))
client-Alike env s t p digest (propose_memory body) cap alike =
    ap (λ a. answered fact (respond 201 (λ b. b) (mapped to_fact a)))
      (alike.propose_fact _ (refl, refl, refl, refl) (refl, refl, refl, refl) refl)
client-Alike env s t p digest (decide_memory id body) cap alike =
    ap (λ a. answered fact (respond 200 (λ b. b) (mapped to_fact a)))
      (alike.decide_fact _ (refl, refl, refl, refl) (refl, refl, refl, refl))
