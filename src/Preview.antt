-- ===== src/Preview.antt =====
-- Preview and source reads (internal/adapters/control/preview.go). Control's answers, the HTTP fetch of
-- a capability, strconv.ParseInt and the hexadecimal SHA-256 of the bytes are parameters: `Owner`.
pub mod Verified
pub mod Handlers
pub mod Sent
mod Examples
mod HandlersExamples
use Prim.Native.String
use text.Mathlib.Text.{◌==◌ as str_eq}
use anvilkit_agent_api.Base.{
  ℕ, ◌+◌, ◌^◌, String, Bool, true, false, not, ◌||◌, Option, none, some, List, [], ◌∷◌, length,
  take, ◌==◌, if◌then◌else◌,
}
use anvilkit_agent_api.Base.Int.{ℤ, pos, negsuc, below, above}
use anvilkit_agent_api.Errors.{ControlError}
use anvilkit_agent_api.Errors.Owner.{OwnerError, map_failed}

-- controlv1.ArtifactReference
pub record Artifact : Type 0 where
  pub handle : String
  pub digest : String
  pub size_bytes : String
  pub class : String

pub record Preview : Type 0 where
  pub build : Option Artifact
  pub styles : List Artifact

pub record Source : Type 0 where
  pub archive : Artifact
  pub lineage : String
  pub revision : String

pub data Answer (A : Type 0) : Type 0 where
  refused : OwnerError → Answer A
  answered : A → Answer A

-- A GET of the capability: the status and the body, none where reading it fails.
pub data Fetched : Type 0 where
  unusable unreachable : Fetched
  response : ℕ → Option (List ℕ) → Fetched

pub record Owner (D : Type 0) : Type 0 where
  pub get_operation : String → Option OwnerError
  pub get_preview : String → Answer Preview
  pub get_source : String → Answer Source
  pub read_artifact : String → String → Answer D
  pub fetch : D → Fetched
  pub parse_int : String → Option ℤ
  pub digest_of : List ℕ → String
  pub decimal : ℕ → String

pub data Result (A : Type 0) : Type 0 where
  denied : ControlError → Result A
  served : A → Result A

abbrev pub unavailable : String → ControlError
unavailable message = record {
  code = "DEPENDENCY_UNAVAILABLE";
  message = message;
  retryable = true;
}

abbrev pub final : String → String → ControlError
final code message = record { code = code; message = message; retryable = false }

abbrev pub max_preview_artifact : ℕ
max_preview_artifact = 2097152

abbrev pub max_source_archive : ℕ
max_source_archive = 16777216

abbrev pub media_type_of : String → String
media_type_of class = if str_eq class "css" then "text/css" else "text/javascript"

-- The module, if any, and the styles; the loop keeps the last artifact of the digest.
abbrev pub artifacts_of : Preview → List Artifact
artifacts_of p = elim (p.build) [ none ↦ p.styles | some m ↦ m ∷ p.styles ]

unfoldable pub last_of : String → List Artifact → Option Artifact
last_of digest [] = none
last_of digest (a ∷ rest) = elim (last_of digest rest) [
  | some found ↦ some found
  | none ↦ if str_eq a.digest digest then some a else none
]

abbrev pub with_bytes : {A : Type 0} → (List ℕ → A) → Result (List ℕ) → Result A
with_bytes f (denied e) = denied e
with_bytes f (served body) = served (f body)

pub record PreviewBytes : Type 0 where
  pub media_type : String
  pub body : List ℕ

pub record SourceBytes : Type 0 where
  pub lineage : String
  pub revision : String
  pub digest : String
  pub body : List ℕ

module _ {D : Type 0} (owner : Owner D) where
  -- The bytes, once they are read in full up to one more than the recorded size.
  unfoldable pub check_bytes : String → ℕ → List ℕ → Result (List ℕ)
  check_bytes digest size body =
      if not (length body == size) || not (str_eq (owner.digest_of body) digest)
      then denied
          (final "EFFECT_UNCERTAIN" "artifact bytes differ from the recorded digest or size")
      else served body

  abbrev pub status_error : ℕ → ControlError
  status_error status = unavailable (String.◌++◌ "artifact read answered " (owner.decimal status))

  unfoldable pub read_fetched : String → ℕ → Fetched → Result (List ℕ)
  read_fetched digest size unusable = denied (unavailable "artifact capability unusable")
  read_fetched digest size unreachable = denied (unavailable "artifact store unreachable")
  read_fetched digest size (response status none) = denied (status_error status)
  read_fetched digest size (response status (some body)) =
      if not (status == 200)
      then denied (status_error status)
      else check_bytes digest size (take (size + 1) body)

  abbrev pub read_download : String → ℕ → Answer D → Result (List ℕ)
  read_download digest size (refused e) = denied (map_failed e "control")
  read_download digest size (answered d) = read_fetched digest size (owner.fetch d)

  unfoldable pub read_verified : String → String → String → ℕ → Result (List ℕ)
  read_verified handle operation digest size =
      read_download digest size (owner.read_artifact handle operation)

  -- The recorded size within the bound, then the bytes.
  abbrev pub sized : ControlError → ℕ → String → Artifact → Option ℤ → Result (List ℕ)
  sized over bound operation a none = denied over
  sized over bound operation a (some (negsuc n)) = denied over
  sized over bound operation a (some (pos n)) =
      if above (pos n) bound then denied over else read_verified a.handle operation a.digest n

  abbrev pub preview_over : ControlError
  preview_over = final "INVALID_ARGUMENT" "preview artifact exceeds the bound"

  abbrev pub source_over : ControlError
  source_over = final "INVALID_ARGUMENT" "source archive exceeds the bound"

  abbrev pub serve_found : String → Option Artifact → Result PreviewBytes
  serve_found operation none =
      denied (final "NOT_FOUND" "no artifact of this preview has that digest")
  serve_found operation (some a) =
      with_bytes (λ body. record { media_type = media_type_of a.class; body = body })
        (sized preview_over max_preview_artifact operation a (owner.parse_int a.size_bytes))

  abbrev pub serve_preview : String → String → Answer Preview → Result PreviewBytes
  serve_preview operation digest (refused e) = denied (map_failed e "control")
  serve_preview operation digest (answered p) =
      serve_found operation (last_of digest (artifacts_of p))

  -- ReadPreviewArtifact: the operation is read under the user's scope first.
  unfoldable pub read_preview_artifact : String → String → Result PreviewBytes
  read_preview_artifact operation digest = elim (owner.get_operation operation) [
    | some e ↦ denied (map_failed e "control")
    | none ↦ serve_preview operation digest (owner.get_preview operation)
  ]

  abbrev pub serve_source : String → Answer Source → Result SourceBytes
  serve_source operation (refused e) = denied (map_failed e "control")
  serve_source operation (answered s) =
      with_bytes
        (λ body. record {
          lineage = s.lineage;
          revision = s.revision;
          digest = s.archive.digest;
          body = body;
        })
        (sized source_over max_source_archive operation s.archive
          (owner.parse_int s.archive.size_bytes))

  unfoldable pub read_source : String → Result SourceBytes
  read_source operation = elim (owner.get_operation operation) [
    | some e ↦ denied (map_failed e "control")
    | none ↦ serve_source operation (owner.get_source operation)
  ]
