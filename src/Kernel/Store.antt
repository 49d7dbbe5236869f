-- ===== src/Kernel/Store.antt =====
-- kernel/store.py: the append-only event ledger with optimistic stream concurrency.
use blackcell.Prelude.{
  ℕ, ◌+◌, ◌-◌, ℤ, String, true, Option, none, some, List, [], ◌∷◌, ◌++◌, ◌||◌, not, ◌==◌, str_eq,
  opt_eq, any, length, ok, err, if◌then◌else◌,
}
use blackcell.Host.{Host}
use blackcell.Kernel.Errors.{
  Result, concurrency, event_conflict, idempotency_conflict, value_error, sqlite_integrity,
}
use blackcell.Kernel.Event.{EventEnvelope, post_init, idempotency_hash}
use blackcell.Kernel.Ledger.{
  Database, current_sequence, set_sequence, has_length, violates, event_from_row, row_of,
}
use blackcell.Kernel.Append.{
  Connection, Pair, expected_of, sequence_value, group, validate_transaction_connection,
  validate_append_request, validate_batch_stream, existing_order, keyed_row,
}
use blackcell.Kernel.Transaction.{Action, pure, lift, gets, ◌>>=◌, ◌>>◌}

-- What the first loop of an append leaves for a stream.
pub record Checked : Type 0 where
  pub stream_id : String
  pub current : ℕ
  pub new_count : ℕ

-- `insert into event_streams(stream_id, current_sequence) values (?, 0)`
unfoldable pub add_stream : String → Action (Unit {0})
add_stream k db =
    if any (λ (s : String × ℕ). str_eq s.0 k) db.event_streams || not (has_length k)
    then (err sqlite_integrity, db)
    else (ok tt, record db { event_streams = (k, 0) ∷ db.event_streams })

-- `if actual == 0: insert into event_streams …`
unfoldable pub open_stream : String → ℕ → Action (Unit {0})
open_stream k actual = if actual == 0 then add_stream k else pure tt

-- one round of the loop over `grouped`
unfoldable pub check_stream : List (String × ℤ) → List Pair → String → Action Checked
check_stream expected pairs k = do
  actual ← gets (λ db. current_sequence db k)
  let events = group k pairs
  prefix ← lift (validate_batch_stream k events (sequence_value (expected_of k expected)) actual)
  open_stream k actual
  pure (record { stream_id = k; current = actual; new_count = length events - prefix })

unfoldable pub check_streams : List (String × ℤ) → List Pair → List String → Action (List Checked)
check_streams expected pairs [] = pure []
check_streams expected pairs (k ∷ ids) = do
  c ← check_stream expected pairs k
  cs ← check_streams expected pairs ids
  pure (c ∷ cs)

-- one round of the last loop
unfoldable pub advance_stream : Checked → Action (Unit {0})
advance_stream c db =
    let (streams, changed) =
      set_sequence c.stream_id c.current (c.current + c.new_count) db.event_streams in
    let moved = record db { event_streams = streams } in
    if c.new_count == 0
    then (ok tt, db)
    else if changed == 1
    then (ok tt, moved)
    else (err (concurrency c.stream_id c.current (current_sequence moved c.stream_id)), moved)

-- the last loop: `current_sequence` moves on by what each stream gained
unfoldable pub advance : List Checked → Action (Unit {0})
advance [] = pure tt
advance (c ∷ cs) = do advance_stream c; advance cs

abbrev pub stored_all : List Pair → Option (List EventEnvelope)
stored_all [] = some []
stored_all ((_, none) ∷ pairs) = none
stored_all ((_, some event) ∷ pairs) = elim (stored_all pairs) [
  | none ↦ none
  | some events ↦ some (event ∷ events)
]

-- the stored occurrence of a row that was found
abbrev stored : Result EventEnvelope → Result (Option EventEnvelope)
stored (ok event) = ok (some event)
stored (err e) = err e

-- `begin immediate` on a connection of `connect`, then `commit`, or `rollback` on an exception
abbrev pub commit_or_rollback :
    Database → Result (List EventEnvelope) × Database → Result (List EventEnvelope) × Database
commit_or_rollback before (ok events, after) = (ok events, after)
commit_or_rollback before (err e, after) = (err e, before)

abbrev pub opened : Connection
opened = record { in_transaction = true; foreign_keys = true; targets_store = true }

module _ (host : Host) where
  -- `_idempotent_event`
  unfoldable pub idempotent_event : Database → EventEnvelope → Result (Option EventEnvelope)
  idempotent_event db event = elim event.idempotency_key [
    | none ↦ ok none
    | some key ↦ elim (keyed_row event.stream_id key db.kernel_events) [
      | none ↦ ok none
      | some row ↦
          if opt_eq row.idempotency_hash (some (idempotency_hash host event))
          then stored (event_from_row host row)
          else err idempotency_conflict
    ]
  ]

  -- `zip(batch, existing)`
  unfoldable pub idempotent_events : List EventEnvelope → Action (List Pair)
  idempotent_events [] = pure []
  idempotent_events (event ∷ events) = do
    repeated ← λ db. (idempotent_event db event, db)
    pairs ← idempotent_events events
    pure ((event, repeated) ∷ pairs)

  -- `_insert_event`
  unfoldable pub insert_event : EventEnvelope → Action EventEnvelope
  insert_event event db =
      let position = db.last_position + 1 in
      let row = row_of host event position in
      if violates row db then (err event_conflict, db) else (
        post_init host (record event { global_position = some position }),
        record db { kernel_events = db.kernel_events ++ row ∷ []; last_position = position },
      )

  unfoldable pub insert_or_keep : Pair → Action EventEnvelope
  insert_or_keep (_, some stored) db = (ok stored, db)
  insert_or_keep (candidate, none) db = insert_event candidate db

  unfoldable pub insert_all : List Pair → Action (List EventEnvelope)
  insert_all [] = pure []
  insert_all (pair ∷ pairs) = do
    event ← insert_or_keep pair
    events ← insert_all pairs
    pure (event ∷ events)

  -- the part of `append_many_in_transaction` after the idempotent fast path
  unfoldable pub append_new :
      List (String × ℤ) → List String → List Pair → Action (List EventEnvelope)
  append_new expected ids pairs = do
    checked ← check_streams expected pairs ids
    appended ← insert_all pairs
    advance checked
    pure appended

  unfoldable pub append_pairs :
      List (String × ℤ) → List String → List Pair → Action (List EventEnvelope)
  append_pairs expected ids pairs = elim (stored_all pairs) [
    | some events ↦ do lift (existing_order [] events); pure events
    | none ↦ append_new expected ids pairs
  ]

  -- `append_many_in_transaction`: it neither commits nor rolls back
  unfoldable pub append_many_in_transaction :
      Connection → List EventEnvelope → List (String × ℤ) → Action (List EventEnvelope)
  append_many_in_transaction connection [] expected = do
    lift (validate_transaction_connection connection)
    pure []
  append_many_in_transaction connection (event ∷ events) expected = do
    lift (validate_transaction_connection connection)
    ids ← lift (validate_append_request (event ∷ events) expected)
    pairs ← idempotent_events (event ∷ events)
    append_pairs expected ids pairs

  -- `append_many`
  unfoldable pub append_many : List EventEnvelope → List (String × ℤ) → Action (List EventEnvelope)
  append_many [] expected db = (ok [], db)
  append_many (event ∷ events) expected db =
      commit_or_rollback db (append_many_in_transaction opened (event ∷ events) expected db)

  abbrev first : Result (List EventEnvelope) → Result EventEnvelope
  first (ok (event ∷ _)) = ok event
  first (ok []) = err value_error
  first (err e) = err e

  -- `append`
  unfoldable pub append : EventEnvelope → ℤ → Action EventEnvelope
  append event expected db =
      let (result, after) = append_many (event ∷ []) ((event.stream_id, expected) ∷ []) db in
      (first result, after)
