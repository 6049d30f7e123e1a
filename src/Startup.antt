-- ===== src/Startup.antt =====
-- Wiring at startup (internal/bootstrap/identity.go and readiness.go): the transport of each outbound
-- connection, the reloaders that they share, and the cached readiness. Opening a file set as a
-- reloader and a CA file as a pool read the disk: both are parameters.
pub mod Guarded
pub mod Readiness
pub mod Process
pub mod Started
mod Examples
mod ProcessExamples
use text.Mathlib.Text.{◌==◌ as str_eq}
use anvilkit_agent_api.Base.{
  String, Bool, true, false, not, ◌&&◌, Option, none, some, List, [], ◌∷◌, ◌++◌, if◌then◌else◌,
}
use anvilkit_agent_api.Base.Text.{is_empty}
use anvilkit_agent_api.Config.{MtlsFiles, ClientIdentity, IdentitySection, ClientTls}
use anvilkit_agent_api.Config.Validate.{resolved}

-- `development` and `section` are what the code reads of its configuration; R is a reloader.
pub record Identities (R : Type 0) : Type 0 where
  pub development : Bool
  pub section : IdentitySection
  pub own : Option R
  pub started : List R

-- The credentials of a connection; P is a pool of CAs.
pub data Transport (R P : Type 0) : Type 0 where
  plaintext : Transport R P
  server_verified : P → String → Transport R P
  both_verified : R → String → Transport R P

abbrev pub is_own : IdentitySection → MtlsFiles → Bool
is_own section files =
    str_eq files.cert_file section.cert_file
    && str_eq files.key_file section.key_file
    && str_eq files.ca_file section.ca_file

abbrev pub server_name_of : String → String → String
server_name_of own default_name = if is_empty own then default_name else own

module _ {R P : Type 0} (open_files : MtlsFiles → Option R) (ca_pool : String → Option P) where
  abbrev pub opened : Identities R → Bool → Option R → Identities R × Option R
  opened ids mine none = (ids, none)
  opened ids mine (some r) = (
    record ids { started = ids.started ++ r ∷ []; own = if mine then some r else ids.own },
    some r,
  )

  abbrev pub own_or : Identities R → MtlsFiles → Option R → Identities R × Option R
  own_or ids files (some r) =
      if is_own ids.section files then (ids, some r) else opened ids false (open_files files)
  own_or ids files none = opened ids (is_own ids.section files) (open_files files)

  unfoldable pub reloader : Identities R → MtlsFiles → Identities R × Option R
  reloader ids files = own_or ids files ids.own

  -- NewClientCredentials needs a server name.
  abbrev pub credentials : String → Identities R × Option R → Identities R × Option (Transport R P)
  credentials server_name (ids, none) = (ids, none)
  credentials server_name (ids, some r) =
      (ids, if is_empty server_name then none else some (both_verified r server_name))

  -- The transport of a gRPC client.
  unfoldable pub client :
      Identities R → ClientIdentity → String → Identities R × Option (Transport R P)
  client ids ci default_server_name =
      if str_eq ci.mode "development"
      then (ids, if not ids.development then none else some plaintext)
      else if str_eq ci.mode "mtls"
      then credentials (server_name_of (resolved ids.section ci).server_name default_server_name)
          (reloader ids (resolved ids.section ci))
      else (ids, none)

  abbrev pub pooled : String → Option P → Option (Transport R P)
  pooled server_name none = none
  pooled server_name (some p) = some (server_verified p server_name)

  abbrev pub files_of : ClientTls → MtlsFiles
  files_of t = record {
    cert_file = t.cert_file;
    key_file = t.key_file;
    ca_file = t.ca_file;
    server_name = "";
  }

  -- The transport of the collector.
  unfoldable pub collector_credentials :
      Identities R → ClientTls → Identities R × Option (Transport R P)
  collector_credentials ids t =
      if str_eq t.mode "development"
      then (ids, if not ids.development then none else some plaintext)
      else if str_eq t.mode "tls"
      then (ids, pooled t.server_name (ca_pool t.ca_file))
      else if str_eq t.mode "mtls"
      then credentials t.server_name (reloader ids (files_of t))
      else (ids, none)
