-- ===== src/Config/Sample.antt =====
-- A production configuration, and the URL of its issuer.
use anvilkit_agent_api.Base.{ℕ, ◌*◌, String, Option, false, some, [], ◌∷◌}
use anvilkit_agent_api.Base.Int.{pos}
use anvilkit_agent_api.Config.{ClientIdentity, OwnerSection, Config, Url, second, minute}

abbrev own_files : ClientIdentity
own_files = record {
  mode = "mtls";
  mtls = record { cert_file = ""; key_file = ""; ca_file = ""; server_name = "owner" };
}

abbrev owner : OwnerSection
owner = record { address = "owner:443"; timeout = pos (30 * second); identity = own_files }

abbrev pub production : Config ℕ
production = record {
  development = false;
  identity = record {
    cert_file = "tls.crt";
    key_file = "tls.key";
    ca_file = "ca.crt";
    reload_interval = pos (10 * second);
  };
  telemetry = record {
    otlp_endpoint = "otel:4317";
    sample_ratio = 10;
    metrics_listen = "127.0.0.1:9090";
    otlp_tls = record {
      mode = "tls";
      ca_file = "ca.crt";
      cert_file = "";
      key_file = "";
      server_name = "";
    };
  };
  http = record {
    listen = "0.0.0.0:8080";
    read_header_timeout = pos (5 * second);
    body_limit_bytes = pos 1048576;
    shutdown_timeout = pos (30 * second);
  };
  control = record { address = "control:443"; identity = own_files };
  auth = record {
    mode = "oidc";
    principals_file = "";
    oidc = record {
      issuer = "https://idp.example";
      audience = "agent-api";
      algorithms = "RS256" ∷ "EdDSA" ∷ [];
      clock_skew = pos (30 * second);
      ca_file = "";
      timeout = pos (10 * second);
      claims = record { tenant = "tenant"; project = "project"; actor = "sub"; roles = "roles" };
    };
  };
  sse = record {
    heartbeat_interval = pos (15 * second);
    frame_buffer = pos 64;
    slow_consumer_grace = pos (2 * second);
    write_timeout = pos (10 * second);
    max_streams = pos 1024;
    max_streams_per_principal = pos 16;
    retry_base = pos (2 * second);
  };
  transfer_window = pos (15 * minute);
  profile = "preview";
  knowledge = owner;
  mcp = owner;
}

abbrev pub parsed : String → Option Url
parsed _ = some (record {
  scheme = "https";
  host = "idp.example";
  has_user = false;
  raw_query = "";
  fragment = "";
})
