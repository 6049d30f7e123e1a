-- ===== src/Preview/Sent.antt =====
-- What the routes of the previews and the sources send.
use mathlib.Core.Path.{subst}
use text.Mathlib.Text.{◌==◌ as str_eq}
use anvilkit_agent_api.Base.{
  String, ◌≡◌, refl, sym, ap, ◌∙◌, inl, inr, none, some, [], ◌∷◌, length, Bool-cases, if◌then◌else◌,
}
use anvilkit_agent_api.Base.Results
use anvilkit_agent_api.Control.{opt_str}
use anvilkit_agent_api.Control.Wire.{Stubs, Called, Operation}
use anvilkit_agent_api.Control.Client.{scope}
use anvilkit_agent_api.Control.Handlers.{Context, principal_of, Reply}
use anvilkit_agent_api.Preview.{
  Artifact, Preview, Source, answered, Result, denied, served, media_type_of, max_preview_artifact,
  max_source_archive, artifacts_of, last_of, read_preview_artifact, read_source,
}
use anvilkit_agent_api.Preview.Handlers.{
  Recorded, Reads, Sent, error_of, answer_of, replied, send_preview, send_source, owner_for,
  handle_read_preview_artifact, handle_read_source,
}
use anvilkit_agent_api.Preview.Verified.{
  IsRecorded, read_preview_artifact_served, read_source_served,
}

replied-ok :
    {A : Type 0} (f : A → Sent) (r : Result A) (reply : Reply Sent)
    → replied f r ≡ Results.ok reply
    → (a : A) × (r ≡ served a) × (record { status = 200; body = f a } ≡ reply)
replied-ok f (denied e) reply h = cc
replied-ok f (served a) reply h = (a, refl, cc)

error_of-none : (r : Called Operation) → error_of r ≡ none → (v : Operation) × (r ≡ Results.ok v)
error_of-none (Results.failed e) h = cc
error_of-none (Results.ok v) h = (v, refl)

answer_of-answered :
    {A B : Type 0} (f : A → B) (r : Called A) (b : B)
    → answer_of f r ≡ answered b
    → (a : A) × (r ≡ Results.ok a) × (f a ≡ b)
answer_of-answered f (Results.failed e) b h = cc
answer_of-answered f (Results.ok a) b h = (a, refl, cc)

-- The content type that the handler chooses is the artifact's media type.
content_type_of :
    (class : String)
    → (if str_eq (media_type_of class) "text/css" then "text/css" else "text/javascript")
      ≡ media_type_of class
content_type_of class = elim (Bool-cases (str_eq class "css")) [
  | inl css ↦ rw css refl
  | inr other ↦ rw other refl
]

module _ {D : Type 0} (stubs : Stubs) (reads : Reads D) (c : Context) (operation_id : String) where
  -- Control lets the caller read the operation, under the caller's own scope.
  abbrev pub IsReadable : Type 0
  IsReadable =
      (v : Operation) × (stubs.get_operation
          (record { scope = scope (principal_of c); operation_id = operation_id })
        ≡ Results.ok v)

  -- A preview's artifact that is answered is one that the preview of the caller's tenant lists under
  -- the digest asked for, of an operation that Control lets the caller read; its bytes are those
  -- recorded, of at most 2 MiB; it is sent 200 as the media type of its class, with its length, not to
  -- be stored and not to be sniffed.
  pub handle_read_preview_artifact_lem :
      (digest : String) (reply : Reply Sent)
      → handle_read_preview_artifact stubs reads c operation_id digest ≡ Results.ok reply
      → IsReadable
        × ((r : Recorded) × (a : Artifact) × (reads.get_preview
                (principal_of c).tenant_id
                operation_id
              ≡ Results.ok r)
            × (last_of digest (artifacts_of r.artifacts) ≡ some a)
            × (a.digest ≡ digest)
            × IsRecorded
                (owner_for stubs reads (principal_of c))
                a
                max_preview_artifact
                reply.body.body
            × (reply.body.content_type ≡ media_type_of a.class))
        × (reply.status ≡ 200)
        × (reply.body.content_length ≡ length reply.body.body)
        × (reply.body.headers
            ≡ ("Cache-Control", "no-store") ∷ ("X-Content-Type-Options", "nosniff") ∷ [])
  unfolding handle_read_preview_artifact owner_for send_preview
  handle_read_preview_artifact_lem digest reply h =
      let owner = owner_for stubs reads (principal_of c) in
      let (b, read, e) =
        replied-ok send_preview (read_preview_artifact owner operation_id digest) reply h in
      let (allowed, is) = read_preview_artifact_served owner operation_id digest b read in
      let (v, asked) = error_of-none _ allowed in
      let (r, found, same) =
        answer_of-answered (λ (x : Recorded). x.artifacts)
          (reads.get_preview (principal_of c).tenant_id operation_id) is.preview is.answer in
      (
        (v, asked),
        (
          r,
          is.artifact,
          found,
          ap (λ (x : Preview). last_of digest (artifacts_of x)) same ∙ is.listed,
          is.asked,
          subst (λ (x : Reply Sent). IsRecorded owner is.artifact max_preview_artifact x.body.body)
              e is.recorded,
          ap (λ (x : Reply Sent). x.body.content_type) (sym e)
              ∙ ap (λ (m : String). if str_eq m "text/css" then "text/css" else "text/javascript")
                  is.media_type
              ∙ content_type_of is.artifact.class,
        ),
        ap (λ (x : Reply Sent). x.status) (sym e),
        subst (λ (x : Reply Sent). x.body.content_length ≡ length x.body.body) e refl,
        ap (λ (x : Reply Sent). x.body.headers) (sym e),
      )

  -- A source archive that is answered is the one that the caller's tenant has recorded for an
  -- operation that Control lets the caller read: the recorded bytes, of at most 16 MiB, sent 200 with
  -- their length, not to be stored, under the recorded lineage and digest and, where it has one, the
  -- revision.
  pub handle_read_source_lem :
      (reply : Reply Sent)
      → handle_read_source stubs reads c operation_id ≡ Results.ok reply
      → IsReadable
        × ((s : Source) × (reads.get_source (principal_of c).tenant_id operation_id ≡ Results.ok s)
            × IsRecorded
                (owner_for stubs reads (principal_of c))
                s.archive
                max_source_archive
                reply.body.body
            × (reply.body.source
                ≡ some (record {
                  lineage = s.lineage;
                  digest = s.archive.digest;
                  revision = opt_str s.revision;
                })))
        × (reply.status ≡ 200)
        × (reply.body.content_length ≡ length reply.body.body)
        × (reply.body.headers ≡ ("Cache-Control", "no-store") ∷ [])
  unfolding handle_read_source owner_for send_source
  handle_read_source_lem reply h =
      let owner = owner_for stubs reads (principal_of c) in
      let (b, read, e) = replied-ok send_source (read_source owner operation_id) reply h in
      let (allowed, is) = read_source_served owner operation_id b read in
      let (v, asked) = error_of-none _ allowed in
      let (s, found, same) =
        answer_of-answered (λ (x : Source). x)
          (reads.get_source (principal_of c).tenant_id operation_id) is.source is.answer in
      (
        (v, asked),
        (
          is.source,
          found ∙ ap Results.ok same,
          subst
              (λ (x : Reply Sent).
                IsRecorded owner is.source.archive max_source_archive x.body.body)
              e is.recorded,
          ap (λ (x : Reply Sent). x.body.source) (sym e) ∙ λ i. some (record {
            lineage = is.lineage i;
            digest = is.exact_digest i;
            revision = opt_str (is.revision i);
          }),
        ),
        ap (λ (x : Reply Sent). x.status) (sym e),
        subst (λ (x : Reply Sent). x.body.content_length ≡ length x.body.body) e refl,
        ap (λ (x : Reply Sent). x.body.headers) (sym e),
      )
