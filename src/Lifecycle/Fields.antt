-- ===== src/Lifecycle/Fields.antt =====
-- The readers of single payload fields in orchestration/run_lifecycle.py.
use Prim.Native.String
use blackcell.Prelude.{
  ℕ, pos, String, Bool, false, Option, none, some, ◌&&◌, ◌||◌, not, ◌==◌, ltb, leb, length, all, ok,
  err, ◌>>=◌, ◌>>◌, raise_if, if◌then◌else◌,
}
use blackcell.Prelude.Text.{codes, is_alnum, after_prefix, parses_hex}
use blackcell.Json.{Json, text, int, obj, Fields}
use blackcell.Host.{Host, DateTime}
use blackcell.Lifecycle.State.{Result, invalid_run_lifecycle}

abbrev pub failure {ℓ} : {A : Type ℓ} → Result A
failure = err invalid_run_lifecycle

-- `if test: raise LifecycleError()`
abbrev pub reject : Bool → Result (Unit {0})
reject test = raise_if test invalid_run_lifecycle

-- `_mapping`
abbrev pub mapping : Json → Result Fields
mapping (obj fields) = ok fields
mapping _ = failure

-- `_positive_integer`; a bool is no integer here
unfoldable pub positive_integer : Json → Result ℕ
positive_integer (int (pos n)) = if ltb n 1 then failure else ok n
positive_integer _ = failure

-- `_text`
unfoldable pub text_value : Json → Result String
text_value (text s) = if length (codes s) == 0 || ltb 256 (length (codes s)) then failure else ok s
text_value _ = failure

abbrev is_word_code : ℕ → Bool
is_word_code c = is_alnum c || c == b'-' || c == b'.' || c == b'_'

-- `_failure_code` and `_identifier`, which are one function under two names
unfoldable pub identifier : Json → Result String
unfolding text_value
identifier v = do s ← text_value v; reject (not (all is_word_code (codes s))); ok s

without_prefix : String → Option String → String
without_prefix s none = s
without_prefix s (some rest) = rest

-- `digest.removeprefix("sha256:")`
unfoldable pub suffix_of : String → String
unfolding after_prefix without_prefix
suffix_of s = without_prefix s (after_prefix "sha256:" s)

module _ (host : Host) where
  digest_ok : String → Bool
  unfolding after_prefix parses_hex
  digest_ok s = length (codes s) == 71 && elim (after_prefix "sha256:" s) [
    | none ↦ false
    | some rest ↦ parses_hex host.ascii_of rest
  ]

  -- `_digest`
  unfoldable pub digest : Json → Result String
  unfolding text_value digest_ok
  digest v = do s ← text_value v; reject (not (digest_ok s)); ok s

  is_lowered_code : ℕ → Bool
  is_lowered_code c = if ltb c 128 then not (leb b'A' c && leb c b'Z') else host.is_lowered c

  -- `_commit`
  unfoldable pub commit : Json → Result String
  unfolding text_value parses_hex is_lowered_code
  commit v = do
    s ← text_value v
    reject (not (length (codes s) == 40))
    reject (not (parses_hex host.ascii_of s))
    reject (not (all is_lowered_code (codes s)))
    ok s

  abbrev aware : Option DateTime → Result ℕ
  aware none = failure
  aware (some d) = if d.is_aware then ok d.instant else failure

  -- `_timestamp`
  unfoldable pub timestamp : Json → Result ℕ
  unfolding text_value
  timestamp v = do s ← text_value v; aware (host.fromisoformat s)

  -- `provider_request_id`
  unfoldable pub provider_request_id : String → Result String
  unfolding digest suffix_of
  provider_request_id lease_digest = do
    d ← digest (text lease_digest)
    ok (String.◌++◌ "change-" (suffix_of d))
