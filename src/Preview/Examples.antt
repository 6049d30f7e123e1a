-- ===== src/Preview/Examples.antt =====
-- One preview and one source with their bytes, and the properties at them.
use text.Mathlib.Text.{◌==◌ as str_eq}
use anvilkit_agent_api.Base.{String, ◌≡◌, refl, none, some, [], ◌∷◌, length, ◌==◌, if◌then◌else◌}
use anvilkit_agent_api.Base.Int.{pos}
use anvilkit_agent_api.Preview.{
  Artifact, answered, response, Owner, served, last_of, check_bytes, read_fetched, read_verified,
  read_preview_artifact, read_source, PreviewBytes, SourceBytes,
}

abbrev style : Artifact
style = record { handle = "h"; digest = "sha256:two"; size_bytes = "2"; class = "css" }

abbrev control : Owner String
control = record {
  get_operation = λ operation. none;
  get_preview = λ operation. answered (record { build = none; styles = style ∷ [] });
  get_source = λ operation. answered (record { archive = style; lineage = "l1"; revision = "7" });
  read_artifact = λ handle operation. answered handle;
  fetch = λ url. response 200 (some (65 ∷ 66 ∷ []));
  parse_int = λ s. if str_eq s "2" then some (pos 2) else none;
  digest_of = λ body. if length body == 2 then "sha256:two" else "sha256:other";
  decimal = λ n. "n";
}

abbrev style_bytes : PreviewBytes
style_bytes = record { media_type = "text/css"; body = 65 ∷ 66 ∷ [] }

abbrev source_bytes : SourceBytes
source_bytes = record { lineage = "l1"; revision = "7"; digest = "sha256:two"; body = 65 ∷ 66 ∷ [] }

style_read : read_preview_artifact control "op" "sha256:two" ≡ served style_bytes
unfolding read_preview_artifact last_of read_verified read_fetched check_bytes
style_read = refl

source_read : read_source control "op" ≡ served source_bytes
unfolding read_source read_verified read_fetched check_bytes
source_read = refl
