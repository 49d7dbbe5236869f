-- ===== src/Prelude/Patterns.antt =====
-- The regular expressions that the contracts match identifiers, digests and commits with, over the code
-- points of a native text, and `len(text.encode("utf-8"))`.
use Prim.Native.Nat.{ℕ, ◌+◌}
use Prim.Native.String.{String}
use mathlib.Core.Bool.{Bool, true, false, ◌&&◌, ◌||◌}
use mathlib.Core.List.{List, [], ◌∷◌}
use mathlib.Core.Option.{none, some}
use blackcell.Prelude.Tests.{ltb, leb, ◌==◌, if◌then◌else◌}
use blackcell.Prelude.Lists.{length, all}
use blackcell.Prelude.Text.{codes, after_prefix}

-- `[first][rest]{0,maximum}\Z`
unfoldable pub fullmatch : (first rest : ℕ → Bool) → ℕ → List ℕ → Bool
fullmatch first rest maximum [] = false
fullmatch first rest maximum (c ∷ cs) = first c && all rest cs && leb (length cs) maximum

abbrev is_lower_hex : ℕ → Bool
is_lower_hex c = (leb b'0' c && leb c b'9') || (leb b'a' c && leb c b'f')

-- `[0-9a-f]{40}\Z`
unfoldable pub is_commit : String → Bool
is_commit s = all is_lower_hex (codes s) && length (codes s) == 40

-- `sha256:[0-9a-f]{64}\Z`
unfoldable pub is_digest : String → Bool
unfolding after_prefix
is_digest s = elim (after_prefix "sha256:" s) [
  | none ↦ false
  | some rest ↦ all is_lower_hex (codes rest) && length (codes rest) == 64
]

abbrev width : ℕ → ℕ
width c = if ltb c 128 then 1 else if ltb c 2048 then 2 else if ltb c 65536 then 3 else 4

-- `len(text.encode("utf-8"))`
unfoldable pub utf8_length : List ℕ → ℕ
utf8_length [] = 0
utf8_length (c ∷ cs) = width c + utf8_length cs

-- `c in text` for a single character
abbrev pub has_code : ℕ → List ℕ → Bool
has_code c [] = false
has_code c (d ∷ ds) = d == c || has_code c ds

-- `text.startswith(prefix)` over code points
unfoldable pub starts_with : List ℕ → List ℕ → Bool
starts_with [] text = true
starts_with (p ∷ ps) [] = false
starts_with (p ∷ ps) (c ∷ text) = c == p && starts_with ps text
