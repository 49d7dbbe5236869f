-- ===== src/Plan/Texts.antt =====
-- orchestration/execution_plan.py: the checks of single values, `_identifier`, `_text`,
-- `_repository_path`, `_path_tuple` and `_bounded_text_tuple`.
pub mod Kept
use Prim.Native.Char.{code}
use Prim.Native.String
use blackcell.Prelude.{
  ℕ, String, Bool, true, false, List, [], ◌∷◌, ◌++◌, ◌&&◌, ◌||◌, not, ◌==◌, ltb, str_eq, length, ok,
  err, ◌>>=◌, ◌>>◌, if◌then◌else◌,
}
use blackcell.Prelude.Text.{codes, is_alnum}
use blackcell.Prelude.Patterns.{fullmatch, has_code, starts_with}
use blackcell.Host.{Host}
use blackcell.Kernel.Event.{is_blank}
use blackcell.Lifecycle.Fold.{contains, sorted}
use blackcell.Plan.{Result, invalid_execution_contract, refuse}

abbrev is_identifier_code : ℕ → Bool
is_identifier_code c = is_alnum c || c == b'.' || c == b'_' || c == b':' || c == b'-'

-- `_IDENTIFIER.fullmatch(value) is not None`
unfoldable pub is_identifier : String → Bool
unfolding fullmatch
is_identifier value = fullmatch is_alnum is_identifier_code 127 (codes value)

-- `_identifier`
unfoldable pub identifier : String → Result String
unfolding is_identifier
identifier value = do refuse (not (is_identifier value)); ok value

-- `len(set(values)) == len(values)`
unfoldable pub are_distinct : List String → Bool
are_distinct [] = true
are_distinct (v ∷ vs) = not (contains vs v) && are_distinct vs

-- `set(values)`, in the order of the last occurrences
unfoldable pub set_of : List String → List String
set_of [] = []
set_of (v ∷ vs) = let rest = set_of vs in if contains vs v then rest else v ∷ rest

-- `"/../" in text`
unfoldable pub has_parent : List ℕ → Bool
unfolding starts_with
has_parent [] = false
has_parent (c ∷ cs) = starts_with (codes "/../") (c ∷ cs) || has_parent cs

unfoldable pub is_slashes : String → Bool
is_slashes String.[] = true
is_slashes (String.◌∷◌ c s) = code c == b'/' && is_slashes s

-- `text.rstrip("/")`
unfoldable pub without_slashes : String → String
unfolding is_slashes
without_slashes String.[] = ""
without_slashes (String.◌∷◌ c s) =
    let rest = without_slashes s in if is_slashes (String.◌∷◌ c s) then "" else String.◌∷◌ c rest

-- the characters that no path has
unfoldable is_odd_path : String → Bool
unfolding starts_with has_parent
is_odd_path text =
    starts_with (codes "/") (codes text)
    || starts_with (codes "../") (codes text)
    || has_parent (codes "/" ++ codes text ++ codes "/")
    || str_eq text "."
    || str_eq text ".."
    || has_code b'\\' (codes text)
    || has_code 0 (codes text)

-- `tuple(check(item) for item in values)`
unfoldable pub each {α β} :
    {A : Type α} {B : Type β} (check : A → Result B) → List A → Result (List B)
each check [] = ok []
each check (v ∷ vs) = do first ← check v; rest ← each check vs; ok (first ∷ rest)

module _ (host : Host) where
  -- `_text`
  unfoldable pub text_of : String → Result String
  text_of value = do refuse (is_blank host value); ok value

  -- `_repository_path`
  unfoldable pub repository_path : String → Result String
  unfolding text_of is_odd_path
  repository_path value = do
    text ← text_of value
    refuse (is_odd_path text)
    ok (without_slashes text)

  -- `_path_tuple`
  unfoldable pub path_tuple : List String → Result (List String)
  path_tuple value = do
    refuse (ltb 256 (length value))
    paths ← each repository_path value
    refuse (not (are_distinct (sorted paths)))
    ok (sorted paths)

  -- `_bounded_text_tuple`
  unfoldable pub bounded_text_tuple : List String → ℕ → Result (List String)
  bounded_text_tuple value maximum = do
    refuse (ltb maximum (length value))
    result ← each text_of value
    refuse (not (are_distinct (sorted result)))
    ok (sorted result)
