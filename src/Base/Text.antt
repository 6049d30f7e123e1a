-- ===== src/Base/Text.antt =====
-- Go strings as texts: their UTF-8 bytes where the code counts bytes, and the functions of the
-- package strings that it calls.
use Prim.Native.Char.{code}
use Prim.Native.String.{String}
use Prim.Native.Nat.{ℕ, ◌+◌, ◌/◌, ◌%◌}
use mathlib.Core.Bool.{Bool}
use mathlib.Core.List.{List, [], ◌∷◌, ◌++◌}
use text.Mathlib.Text.{◌==◌ as str_eq}
use anvilkit_agent_api.Base.Tests.{if◌then◌else◌, ltb, ◌==◌}

abbrev pub is_empty : String → Bool
is_empty s = str_eq s ""

-- The bytes of one code point.
encode_point : ℕ → List ℕ
encode_point n =
    if ltb n 128
    then n ∷ []
    else if ltb n 2048
    then (192 + n / 64) ∷ (128 + n % 64) ∷ []
    else if ltb n 65536
    then (224 + n / 4096) ∷ (128 + n / 64 % 64) ∷ (128 + n % 64) ∷ []
    else (240 + n / 262144) ∷ (128 + n / 4096 % 64) ∷ (128 + n / 64 % 64) ∷ (128 + n % 64) ∷ []

unfoldable pub utf8 : String → List ℕ
unfolding encode_point
utf8 String.[] = []
utf8 (String.◌∷◌ c s) = encode_point (code c) ++ utf8 s

-- What `strings.Cut(s, sep)` puts before a one-byte separator: all of `s` where there is none.
unfoldable pub cut_before : ℕ → String → String
cut_before sep String.[] = ""
cut_before sep (String.◌∷◌ c s) =
    let rest = String.◌∷◌ c (cut_before sep s) in if code c == sep then "" else rest
