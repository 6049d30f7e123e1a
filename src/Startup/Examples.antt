-- ===== src/Startup/Examples.antt =====
-- A service at its start, and the properties at it.
use anvilkit_agent_api.Base.{
  ℕ, ◌+◌, ◌-◌, ◌*◌, ◌≤◌, String, ◌≡◌, refl, true, Option, none, some, List, [], ◌∷◌, arith,
}
use anvilkit_agent_api.Base.Int.{pos}
use anvilkit_agent_api.Config.{MtlsFiles, ClientIdentity, IdentitySection}
use anvilkit_agent_api.Startup.{Identities, plaintext, reloader, client}
use anvilkit_agent_api.Startup.Readiness.{new_readiness, probes, Ordered, health_asked_seldom}

abbrev own_section : IdentitySection
own_section = record {
  cert_file = "tls.crt";
  key_file = "tls.key";
  ca_file = "ca.crt";
  reload_interval = pos 5000000000;
}

-- A reloader is the name of its certificate, and a pool that of its file.
abbrev ids : Identities String
ids = record { development = true; section = own_section; own = none; started = [] }

abbrev opens : MtlsFiles → Option String
opens files = some files.cert_file

abbrev pools : String → Option String
pools file = some file

abbrev local : ClientIdentity
local = record {
  mode = "development";
  mtls = record { cert_file = ""; key_file = ""; ca_file = ""; server_name = "" };
}

abbrev own_files : MtlsFiles
own_files = record {
  cert_file = "tls.crt";
  key_file = "tls.key";
  ca_file = "ca.crt";
  server_name = "owner";
}

local_plaintext : (client opens pools ids local "owner").1 ≡ some plaintext
unfolding client
local_plaintext = refl

own_opened : (reloader opens pools ids own_files).1 ≡ some "tls.crt"
unfolding reloader
own_opened = refl

abbrev schedule : List (ℕ × Option String)
schedule = (1, none) ∷ (2, none) ∷ (6000000000, some "down") ∷ []

schedule-Ordered : Ordered 0 schedule 7000000000
unfolding Ordered
schedule-Ordered = (omega arith, (omega arith, (omega arith, omega arith)))

health_asked_seldom_example :
    5000000000 * (probes new_readiness schedule).1 ≤ (7000000000 - 0) + 5000000000
health_asked_seldom_example = health_asked_seldom 0 7000000000 schedule schedule-Ordered
