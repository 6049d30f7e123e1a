-- ===== src/Startup/Started.antt =====
-- What a process that starts without development.enabled is made of.
use anvilkit_agent_api.Base.{String, ◌≡◌, Bool, false, Option, none, some}
use anvilkit_agent_api.Base.Text.{is_empty}
use anvilkit_agent_api.Config.{Config, Url}
use anvilkit_agent_api.Startup.{Transport, plaintext, server_verified, both_verified}
use anvilkit_agent_api.Startup.Process.{Discovery, oidc, Outside, Process}

module _ {R P : Type 0} where
  -- Mutual TLS, to a server of a given name.
  abbrev pub IsMutual : Transport R P → Type 0
  IsMutual plaintext = ⊥
  IsMutual (server_verified pool name) = ⊥
  IsMutual (both_verified r name) = is_empty name ≡ false

  abbrev pub IsEncrypted : Transport R P → Type 0
  IsEncrypted plaintext = ⊥
  IsEncrypted (server_verified pool name) = Unit
  IsEncrypted (both_verified r name) = Unit

  -- Nothing without an address, and mutual TLS with one.
  abbrev pub IsPlaced : String → Option (Transport R P) → Type 0
  IsPlaced address none = address ≡ ""
  IsPlaced address (some t) = IsMutual t

  abbrev pub IsExported : String → Option (Transport R P) → Type 0
  IsExported endpoint none = endpoint ≡ ""
  IsExported endpoint (some t) = IsEncrypted t

module _ {F R P V : Type 0} (o : Outside F R P V) where
  -- The parts that a start without the development guard has.
  abbrev pub HasSafeParts : Process o → Type 0
  HasSafeParts p =
      ((d : Discovery P) × (key : V) × (u : Url) × (p.verifier ≡ oidc d key)
        × (o.parse_url d.issuer ≡ some u)
        × (u.scheme ≡ "https"))
      × IsMutual p.control
      × IsPlaced p.config.knowledge.address p.knowledge
      × IsPlaced p.config.mcp.address p.mcp
      × IsExported p.config.telemetry.otlp_endpoint p.collector
