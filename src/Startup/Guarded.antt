-- ===== src/Startup/Guarded.antt =====
-- The guard of plaintext at startup, and the identity that the clients share.
use text.Mathlib.Text.{◌==◌ as str_eq}
use text.Mathlib.TextEquality.{eq_iff}
use anvilkit_agent_api.Base.{
  String, ◌≡◌, ap, ◌≢◌, inl, inr, true, Option, none, some, [], ◌∷◌, ◌++◌, Bool-cases, Option-cases,
}
use anvilkit_agent_api.Base.Text.{is_empty}
use anvilkit_agent_api.Config.{MtlsFiles, ClientIdentity}
use anvilkit_agent_api.Config.Validate.{resolved}
use anvilkit_agent_api.Startup.{
  Identities, plaintext, both_verified, is_own, reloader, credentials, client, server_name_of,
}

module _ {R P : Type 0} (open_files : MtlsFiles → Option R) (ca_pool : String → Option P) where
  credentials_encrypted :
      (name : String) (x : Identities R × Option R)
      → (credentials open_files ca_pool name x).1 ≢ some plaintext
  credentials_encrypted name (ids, none) h = cc
  credentials_encrypted name (ids, some r) h = elim (Bool-cases (is_empty name)) [
    | inl unnamed ↦ let stop : none ≡ some plaintext = rw unnamed at h in cc
    | inr named ↦ let stop : some (both_verified r name) ≡ some plaintext = rw named at h in cc
  ]

  -- A connection to an owner is plaintext only where its section's mode is development and the
  -- configuration sets development.enabled.
  pub client_plaintext :
      (ids : Identities R) (ci : ClientIdentity) (default_server_name : String)
      → (client open_files ca_pool ids ci default_server_name).1 ≡ some plaintext
      → (ci.mode ≡ "development") × (ids.development ≡ true)
  unfolding client
  client_plaintext ids ci default_server_name h = elim (Bool-cases (str_eq ci.mode "development")) [
    | inl dev ↦ elim (Bool-cases ids.development) [
      | inl guarded ↦ ((eq_iff ci.mode "development").0 dev, guarded)
      | inr unguarded ↦ let stop : none ≡ some plaintext = rw (dev, unguarded, client) at h in cc
    ]
    | inr other ↦ elim (Bool-cases (str_eq ci.mode "mtls")) [
      | inl mtls ↦ absurd (
          credentials_encrypted
            (server_name_of (resolved ids.section ci).server_name default_server_name)
            (reloader open_files ca_pool ids (resolved ids.section ci))
            (rw (other, mtls, client) at h))
      | inr unknown ↦ let stop : none ≡ some plaintext = rw (other, unknown, client) at h in cc
    ]
  ]

  -- Of the process's own files, one reloader serves every client: once one is open, asking again for
  -- the same files gives it back and starts no other.
  pub reloader_shared :
      (ids : Identities R) (files : MtlsFiles) (r : R)
      → is_own ids.section files ≡ true
      → (reloader open_files ca_pool ids files).1 ≡ some r
      → reloader open_files ca_pool (reloader open_files ca_pool ids files).0 files
        ≡ ((reloader open_files ca_pool ids files).0, some r)
  unfolding reloader
  reloader_shared ids files r mine h = elim (Option-cases ids.own) [
    | inr (s, held) ↦
        let same : some s ≡ some r = rw (held, mine, reloader) at h in
        rw (held, mine, reloader)
          (rw mine (ap (λ (o : Option R). (record ids { own = some s }, o)) same))
    | inl fresh ↦ elim (Option-cases (open_files files)) [
      | inl broken ↦ let stop : none ≡ some r = rw (fresh, mine, broken, reloader) at h in cc
      | inr (s, opened_now) ↦
          let same : some s ≡ some r = rw (fresh, mine, opened_now, reloader) at h in
          rw (fresh, mine, opened_now, reloader)
            (rw mine (
              ap
                (λ (o : Option R).
                  (record ids { own = some s; started = ids.started ++ s ∷ [] }, o))
                same))
    ]
  ]
