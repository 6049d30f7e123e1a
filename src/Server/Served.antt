-- ===== src/Server/Served.antt =====
-- The routes of Control behind the whole chain (internal/transport/http: NewServer, the middlewares and
-- the strict handlers), down to the client's stubs. Decoding a validated body is the generated code's.
use anvilkit_agent_api.Base.{ℕ, String, ◌≡◌, refl, sym, ap, ◌∙◌, Option, none, some}
use anvilkit_agent_api.Base.Results.{Result, failed, ok}
use anvilkit_agent_api.Errors.{Failure}
use anvilkit_agent_api.Access.{Principal, authenticate}
use anvilkit_agent_api.Access
use anvilkit_agent_api.Body.Request.{Body, strict_body}
use anvilkit_agent_api.Body.Request as Strict
use anvilkit_agent_api.Control.Wire.{Stubs}
use anvilkit_agent_api.Control.Scoped
use anvilkit_agent_api.Server.{Validation, no_route, valid, invalid}
use anvilkit_agent_api.Server.Chain.{
  Handling, answered, erred, undecodable, Call, Request, Settings, serve,
}
use anvilkit_agent_api.Server.Decision.{
  Verdict, turned_away, misbound, admitted, Answer, seen, id_of, expected, decide, ended, call,
  by_contract, by_body, by_bearer, by_parameters,
}
use anvilkit_agent_api.Server.Laws.{serve-decide}

abbrev pub status_in : Scoped.Response → ℕ
status_in (Scoped.operation r) = r.status
status_in (Scoped.receipt r) = r.status
status_in (Scoped.answer r) = r.status
status_in (Scoped.transfer r) = r.status

abbrev handling_of : Result Failure Scoped.Response → Handling
handling_of (failed f) = erred f
handling_of (ok a) = answered (status_in a)

abbrev bound : Stubs → Call → Option Scoped.Request → Handling
bound stubs c none = undecodable
bound stubs c (some q) = handling_of (Scoped.serve stubs c.identity q)

-- A strict handler of Control's routes.
unfoldable pub control_handler : (Body → Option Scoped.Request) → Stubs → Call → Handling
control_handler decode stubs c = bound stubs c (decode c.body)

expected-own :
    (id : String) (r : Request) (h : Call → Handling) (v : Verdict)
    → (expected id r h v).envelope ≡ none
    → (expected id r h v).message ≡ none
    → (c : Call) × (v ≡ admitted c) × ((ended id r (h c)).envelope ≡ none)
unfolding expected
expected-own id r h (turned_away challenge e) own plain = cc
expected-own id r h (misbound m) own plain = cc
expected-own id r h (admitted c) own plain = (c, refl, own)

-- What a call that is admitted has passed.
abbrev Passed : Settings → Request → Call → Type 0
Passed s r c =
    (p : Principal) × (digest : Option String) × (body : Body) × (authenticate s.verify
        r.authorization
      ≡ Access.passed p)
    × (r.unbound ≡ none)
    × (strict_body s.codec s.limit r.content_length r.body ≡ Strict.next digest body)
    × (s.validate body ≡ valid)
    × (c ≡ call (id_of s r) p digest body)

admitted-injective : (b c : Call) → admitted b ≡ admitted c → b ≡ c
admitted-injective b c h = cc

module _ (s : Settings) (r : Request) (c : Call) where
  by_contract-admitted :
      (v : Validation) (p : Principal) (digest : Option String) (body : Body)
      → by_contract (id_of s r) p digest body v ≡ admitted c
      → (v ≡ valid) × (c ≡ call (id_of s r) p digest body)
  by_contract-admitted no_route p digest body h = cc
  by_contract-admitted (invalid e) p digest body h = cc
  by_contract-admitted valid p digest body h = (refl, cc)

  by_body-admitted :
      (g : Strict.Gate) (p : Principal)
      → by_body s.validate (id_of s r) p g ≡ admitted c
      → (digest : Option String) × (body : Body) × (g ≡ Strict.next digest body)
        × (s.validate body ≡ valid)
        × (c ≡ call (id_of s r) p digest body)
  by_body-admitted (Strict.refused e) p h = cc
  by_body-admitted (Strict.next digest body) p h =
      let (v, e) = by_contract-admitted (s.validate body) p digest body h in
      (digest, body, refl, v, e)

  by_parameters-admitted :
      (u : Option String) (after : Verdict)
      → by_parameters u after ≡ admitted c
      → (u ≡ none) × (after ≡ admitted c)
  by_parameters-admitted none after h = (refl, h)
  by_parameters-admitted (some m) after h = cc

  by_bearer-admitted :
      (g : Access.Gate) (after : Principal → Verdict)
      → by_bearer after g ≡ admitted c
      → (p : Principal) × (g ≡ Access.passed p) × (after p ≡ admitted c)
  by_bearer-admitted (Access.refused challenge e) after h = cc
  by_bearer-admitted (Access.passed p) after h = (p, refl, h)

  decide-Passed : decide s r ≡ admitted c → Passed s r c
  unfolding decide
  decide-Passed h =
      let (p, bearer, after) = by_bearer-admitted (authenticate s.verify r.authorization) _ h in
      let (named, rest) = by_parameters-admitted r.unbound _ after in
      let (digest, body, strict, v, e) =
        by_body-admitted (strict_body s.codec s.limit r.content_length r.body) p rest in
      (p, digest, body, bearer, named, strict, v, e)

module _ (decode : Body → Option Scoped.Request) (stubs : Stubs) (id : String) (r : Request) where
  handling_of-own :
      (a : Result Failure Scoped.Response)
      → (ended id r (handling_of a)).envelope ≡ none
      → (reply : Scoped.Response) × (a ≡ ok reply)
        × ((ended id r (handling_of a)).status ≡ status_in reply)
  unfolding ended
  handling_of-own (failed f) own = cc
  handling_of-own (ok reply) own = (reply, refl, refl)

  bound-own :
      (c : Call) (q : Option Scoped.Request)
      → (ended id r (bound stubs c q)).envelope ≡ none
      → (asked : Scoped.Request) × (reply : Scoped.Response) × (q ≡ some asked)
        × (Scoped.serve stubs c.identity asked ≡ ok reply)
        × ((ended id r (bound stubs c q)).status ≡ status_in reply)
  unfolding ended
  bound-own c none own = cc
  bound-own c (some asked) own =
      let (reply, e, status) = handling_of-own (Scoped.serve stubs c.identity asked) own in
      (asked, reply, refl, e, status)

some-injective_answer : (a b : Answer) → some a ≡ some b → a ≡ b
some-injective_answer a b h = cc

-- A response of Control's routes that is neither an error envelope nor the refusal of a parameter
-- answers a request whose bearer token the verifier accepts, whose parameters bind, whose body the strict reading lets through, with the digest that it takes, and the
-- contract accepts: it has the status of the reply that the route's handler gives over Control, called
-- for that principal and that digest, to the request that the body decodes to.
pub control_served :
    (s : Settings) (decode : Body → Option Scoped.Request) (stubs : Stubs) (r : Request)
    (a : Answer)
    → seen (serve s (control_handler decode stubs) r) ≡ some a
    → a.envelope ≡ none
    → a.message ≡ none
    → (p : Principal) × (digest : Option String) × (body : Body) × (asked : Scoped.Request)
      × (reply : Scoped.Response) × (authenticate s.verify r.authorization ≡ Access.passed p)
      × (r.unbound ≡ none)
      × (strict_body s.codec s.limit r.content_length r.body ≡ Strict.next digest body)
      × (s.validate body ≡ valid)
      × (decode body ≡ some asked)
      × (Scoped.serve stubs (record { principal = some p; digest = digest }) asked ≡ ok reply)
      × (a.status ≡ status_in reply)
unfolding control_handler expected call
control_served s decode stubs r a h own plain =
    let handler : Call → Handling = control_handler decode stubs in
    let id : String = id_of s r in
    let same : expected id r handler (decide s r) ≡ a =
      some-injective_answer _ _ (sym (serve-decide s r handler) ∙ h) in
    let (c, v, ends) =
      expected-own id r handler (decide s r) (ap (λ (b : Answer). b.envelope) same ∙ own)
        (ap (λ (b : Answer). b.message) same ∙ plain) in
    let (p, digest, body, bearer, named, strict, fits, e) = decide-Passed s r c v in
    let (asked, reply, read, replied, status) =
      bound-own decode stubs id r c (decode c.body) ends in
    (
      p,
      digest,
      body,
      asked,
      reply,
      bearer,
      named,
      strict,
      fits,
      ap (λ (b : Call). decode b.body) (sym e) ∙ read,
      ap (λ (b : Call). Scoped.serve stubs b.identity asked) (sym e) ∙ replied,
      ap (λ (b : Answer). b.status) (sym same)
          ∙ ap (λ w. (expected id r handler w).status) v
          ∙ status,
    )
