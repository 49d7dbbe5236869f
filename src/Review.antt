-- ===== src/Review.antt =====
-- orchestration/review_lifecycle.py: the readers of single payload fields and the names of a review.
-- The patterns of identifiers and failure codes are those of `Verify`, and `review_id` stands there.
pub mod Lease
pub mod State
pub mod Guards
pub mod Fold
pub mod Stream
pub mod Move
pub mod Begun
pub mod Refines
pub mod Requests
pub mod History
pub mod Accepted
pub mod Over
pub mod Samples
pub mod Tests
use Prim.Native.String
use blackcell.Prelude.{
  ℕ, pos, String, Bool, true, false, List, [], ◌∷◌, not, ltb, leb, str_eq, ok, err, raise_if, ◌>>=◌,
  ◌>>◌, if◌then◌else◌,
}
use blackcell.Prelude.Text.{take}
use blackcell.Prelude.Patterns.{is_digest}
use blackcell.Json.{Json, text, int, obj, Fields, has_exactly}
use blackcell.Lifecycle.Fields.{suffix_of}
use blackcell.Verify.{invalid_review_lifecycle, Result, is_identifier, is_failure_code}

abbrev pub refused {ℓ} : {A : Type ℓ} → Result A
refused = err invalid_review_lifecycle

-- `if test: raise ReviewLifecycleError()`
abbrev pub refuse : Bool → Result (Unit {0})
refuse test = raise_if test invalid_review_lifecycle

-- `_mapping`
abbrev pub mapping : Json → Result Fields
mapping (obj fields) = ok fields
mapping _ = refused

-- `_exact`
unfoldable pub exact : Fields → List String → Result (Unit {0})
exact fields expected = refuse (not (has_exactly fields expected))

-- `_text`
unfoldable pub text_value : Json → Result String
text_value (text s) = if str_eq s "" then refused else ok s
text_value _ = refused

-- `_identifier`
unfoldable pub identifier : Json → Result String
unfolding text_value
identifier value = do s ← text_value value; refuse (not (is_identifier s)); ok s

-- `_digest`
unfoldable pub digest : Json → Result String
unfolding text_value
digest value = do s ← text_value value; refuse (not (is_digest s)); ok s

-- `_failure`
unfoldable pub failure_code : Json → Result String
unfolding text_value
failure_code value = do s ← text_value value; refuse (not (is_failure_code s)); ok s

-- `_positive_integer`; a bool is no integer here
unfoldable pub positive_integer : Json → Result ℕ
positive_integer (int (pos n)) = if ltb n 1 then refused else ok n
positive_integer _ = refused

-- `_nonnegative_integer`
unfoldable pub nonnegative_integer : Json → ℕ → Result ℕ
nonnegative_integer (int (pos n)) maximum = if leb n maximum then ok n else refused
nonnegative_integer _ maximum = refused

-- `review_provider_request_id`
unfoldable pub review_provider_request_id : String → Result String
unfolding digest take suffix_of
review_provider_request_id lease_digest = do
  _ ← digest (text lease_digest)
  ok (String.◌++◌ "review-" (take 48 (suffix_of lease_digest)))

-- `review_stream`
unfoldable pub review_stream : String → Result String
unfolding identifier
review_stream run_id = do name ← identifier (text run_id); ok (String.◌++◌ "review:" name)
