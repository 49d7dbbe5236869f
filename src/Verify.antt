-- ===== src/Verify.antt =====
-- orchestration/verification_lifecycle.py: the readers of single payload fields and the names of a
-- verification; `review_id` is of orchestration/review_lifecycle.py.
pub mod Lease
pub mod State
pub mod Fold
pub mod Stream
pub mod Move
pub mod Attempts
pub mod History
pub mod Kept
pub mod Over
pub mod Back
pub mod Samples
pub mod Tests
use Prim.Native.String
use Prim.Native.Nat.{suc, zero}
use blackcell.Prelude.{
  ℕ, pos, String, Bool, true, false, Option, none, some, List, [], ◌∷◌, ◌||◌, ◌&&◌, not, ◌==◌, ltb,
  leb, str_eq, Outcome, ok, err, raise_if, ◌>>=◌, ◌>>◌, if◌then◌else◌,
}
use blackcell.Prelude.Text.{take, codes, is_alnum}
use blackcell.Prelude.Patterns.{fullmatch, is_digest}
use blackcell.Json.{Json, text, int, obj, Fields, dict, has_exactly}
use blackcell.Host.{Host, json_digest}
use blackcell.Lifecycle.Fields.{suffix_of}

-- `VerificationLifecycleError` and `ReviewLifecycleError`
pub data VerifyError : Type 0 where
  invalid_verification_lifecycle invalid_review_lifecycle : VerifyError

abbrev pub Result {ℓ} : Type ℓ → Type ℓ
Result A = Outcome VerifyError A

abbrev pub refused {ℓ} : {A : Type ℓ} → Result A
refused = err invalid_verification_lifecycle

-- `if test: raise VerificationLifecycleError()`
abbrev pub refuse : Bool → Result (Unit {0})
refuse test = raise_if test invalid_verification_lifecycle

-- `_mapping`
abbrev pub mapping : Json → Result Fields
mapping (obj fields) = ok fields
mapping _ = refused

-- `_exact`
unfoldable pub exact : Fields → List String → Result (Unit {0})
exact fields expected = refuse (not (has_exactly fields expected))

-- `_text`
unfoldable pub text_value : Json → Result String
text_value (text s) = if str_eq s "" then refused else ok s
text_value _ = refused

abbrev is_name_code : ℕ → Bool
is_name_code c = is_alnum c || c == b'.' || c == b'_' || c == b'-'

-- `_IDENTIFIER.fullmatch(value) is not None`
unfoldable pub is_identifier : String → Bool
unfolding fullmatch
is_identifier value = fullmatch is_alnum is_name_code 127 (codes value)

abbrev is_lower_alnum : ℕ → Bool
is_lower_alnum c = (leb b'a' c && leb c b'z') || (leb b'0' c && leb c b'9')

abbrev is_failure_rest : ℕ → Bool
is_failure_rest c = is_lower_alnum c || c == b'-'

-- `_FAILURE_CODE.fullmatch(value) is not None`
unfoldable pub is_failure_code : String → Bool
unfolding fullmatch
is_failure_code value = fullmatch is_lower_alnum is_failure_rest 127 (codes value)

-- `_identifier`
unfoldable pub identifier : Json → Result String
unfolding text_value is_identifier
identifier value = do s ← text_value value; refuse (not (is_identifier s)); ok s

-- `_digest`
unfoldable pub digest : Json → Result String
unfolding text_value is_digest
digest value = do s ← text_value value; refuse (not (is_digest s)); ok s

-- `_failure`
unfoldable pub failure_code : Json → Result String
unfolding text_value is_failure_code
failure_code value = do s ← text_value value; refuse (not (is_failure_code s)); ok s

-- `_positive_integer`; a bool is no integer here
unfoldable pub positive_integer : Json → Result ℕ
positive_integer (int (pos n)) = if ltb n 1 then refused else ok n
positive_integer _ = refused

-- `_nonnegative_integer`
unfoldable pub nonnegative_integer : Json → ℕ → Result ℕ
nonnegative_integer (int (pos n)) maximum = if leb n maximum then ok n else refused
nonnegative_integer _ maximum = refused

module _ (host : Host) (run_id event_digest : String) where
  -- `verification_id`
  unfoldable pub verification_id : Result String
  unfolding identifier digest take suffix_of
  verification_id = do
    _ ← identifier (text run_id)
    _ ← digest (text event_digest)
    let name = json_digest host (
        obj (
          dict (
            ("run_id", text run_id)
            ∷ ("review_event_digest", text event_digest)
            ∷ ("stage", text "verification")
            ∷ [])))
    ok (String.◌++◌ "verification-" (take 48 (suffix_of name)))

  -- `review_id`
  unfoldable pub review_id : Result String
  unfolding is_identifier is_digest take suffix_of
  review_id = do
    raise_if (not (is_identifier run_id) || not (is_digest event_digest)) invalid_review_lifecycle
    let name = json_digest host (
        obj (
          dict (
            ("run_id", text run_id)
            ∷ ("run_event_digest", text event_digest)
            ∷ ("stage", text "review")
            ∷ [])))
    ok (String.◌++◌ "review-" (take 48 (suffix_of name)))

-- `verification_stream`
unfoldable pub verification_stream : String → Result String
unfolding identifier
verification_stream run_id = do
  name ← identifier (text run_id)
  ok (String.◌++◌ "verification:" name)
