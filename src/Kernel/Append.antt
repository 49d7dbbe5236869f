-- ===== src/Kernel/Append.antt =====
-- The checks of an append in kernel/store.py: what they raise, and the length of the committed prefix.
use blackcell.Prelude.{
  ℕ, suc, ◌+◌, ℤ, pos, is_negative, to_ℕ, String, Bool, true, false, Option, none, some, List, [],
  ◌∷◌, ◌&&◌, not, ◌==◌, str_eq, opt_eq, all, any, is_some, ok, err, ◌>>◌, raise_if, if◌then◌else◌,
}
use blackcell.Kernel.Errors.{
  Result, KernelError, concurrency, event_sequence, value_error, runtime_error,
}
use blackcell.Kernel.Event.{EventEnvelope}
use blackcell.Kernel.Ledger.{Row}

-- The connection's state that `_validate_transaction_connection` looks at.
pub record Connection : Type 0 where
  pub in_transaction : Bool
  pub foreign_keys : Bool
  pub targets_store : Bool

unfoldable pub validate_transaction_connection : Connection → Result (Unit {0})
validate_transaction_connection c = do
  raise_if (not c.in_transaction) runtime_error
  raise_if (not c.foreign_keys) runtime_error
  raise_if (not c.targets_store) value_error

abbrev pub contains : List String → String → Bool
contains names k = any (λ (name : String). str_eq name k) names

-- `{event.stream_id for event in events}`. Python leaves the order of a set open, and it decides
-- which of several exceptions is raised; here a stream stands where it occurs last.
unfoldable pub stream_ids : List EventEnvelope → List String
stream_ids [] = []
stream_ids (event ∷ events) =
    let rest = stream_ids events in
    if contains rest event.stream_id then rest else event.stream_id ∷ rest

unfoldable pub expected_of : String → List (String × ℤ) → Option ℤ
expected_of k [] = none
expected_of k ((j, n) ∷ expected) = if str_eq j k then some n else expected_of k expected

abbrev is_negative_option : Option ℤ → Bool
is_negative_option none = false
is_negative_option (some n) = is_negative n

abbrev pub sequence_value : Option ℤ → ℕ
sequence_value none = 0
sequence_value (some n) = to_ℕ n

-- `_validate_append_request`
unfoldable pub validate_append_request :
    List EventEnvelope → List (String × ℤ) → Result (List String)
unfolding stream_ids expected_of
validate_append_request events expected = do
  let ids = stream_ids events
  raise_if (not (all (λ (k : String). is_some (expected_of k expected)) ids)) value_error
  raise_if (any (λ (k : String). is_negative_option (expected_of k expected)) ids) value_error
  ok ids

-- the row that `where stream_id = ? and idempotency_key = ?` selects
unfoldable pub keyed_row : String → String → List Row → Option Row
keyed_row stream key [] = none
keyed_row stream key (row ∷ rows) =
    if str_eq row.stream_id stream && opt_eq row.idempotency_key (some key)
    then some row
    else keyed_row stream key rows

-- An event of a batch, and the stored occurrence that it repeats.
abbrev pub Pair : Type 0
Pair = EventEnvelope × Option EventEnvelope

-- `_validate_existing_batch_order`; `last` is the dictionary `last_sequence`
unfoldable pub existing_order : List (String × ℤ) → List EventEnvelope → Result (Unit {0})
unfolding expected_of
existing_order last [] = ok tt
existing_order last (event ∷ events) =
    let rest = existing_order ((event.stream_id, pos event.stream_sequence) ∷ last) events in
    elim (expected_of event.stream_id last) [
      | none ↦ rest
      | some previous ↦
          if event.stream_sequence == to_ℕ previous + 1 then rest else err event_sequence
    ]

-- `grouped[stream_id]`
unfoldable pub group : String → List Pair → List Pair
group k [] = []
group k ((event, stored) ∷ pairs) =
    let rest = group k pairs in if str_eq event.stream_id k then (event, stored) ∷ rest else rest

-- the first loop of `_validate_batch_stream`: the length of the committed prefix
unfoldable pub committed_prefix : Bool → List Pair → Option ℕ
committed_prefix encountered_new [] = some 0
committed_prefix encountered_new ((_, some _) ∷ pairs) =
    if encountered_new
    then none
    else elim (committed_prefix false pairs) [ none ↦ none | some n ↦ some (suc n) ]
committed_prefix encountered_new ((_, none) ∷ pairs) = committed_prefix true pairs

-- the second loop of `_validate_batch_stream`; `last` is the sequence before the first pair
unfoldable pub check_sequences : KernelError → ℕ → List Pair → Result (Unit {0})
check_sequences stale last [] = ok tt
check_sequences stale last ((_, some stored) ∷ pairs) =
    let rest = check_sequences stale (suc last) pairs in
    if stored.stream_sequence == suc last then rest else err stale
check_sequences stale last ((candidate, none) ∷ pairs) =
    let rest = check_sequences stale (suc last) pairs in
    if candidate.stream_sequence == suc last then rest else err event_sequence

-- `_validate_batch_stream`
unfoldable pub validate_batch_stream : String → List Pair → ℕ → ℕ → Result ℕ
unfolding committed_prefix check_sequences
validate_batch_stream k pairs expected actual = elim (committed_prefix false pairs) [
  | none ↦ err (concurrency k expected actual)
  | some prefix ↦ do
    raise_if (not (actual == expected + prefix)) (concurrency k (expected + prefix) actual)
    check_sequences (concurrency k expected actual) expected pairs
    ok prefix
]
