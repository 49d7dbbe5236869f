-- ===== src/Kernel/Retry.antt =====
-- Exact retries of an append.
use blackcell.Prelude.{
  ℕ, ◌+◌, ◌≡◌, refl, pos, String, none, some, List, [], ◌∷◌, ◌++◌, arith, ok, eq_refl, eq_iff,
}
use blackcell.Host.{Host}
use blackcell.Json.{obj}
use blackcell.Kernel.Event.{EventEnvelope, post_init, idempotency_hash}
use blackcell.Kernel.Ledger.{Row, Database, row_of, event_from_row}
use blackcell.Kernel.Append.{
  keyed_row, existing_order, validate_append_request, validate_transaction_connection, stream_ids,
  expected_of,
}
use blackcell.Kernel.Store.{
  idempotent_event, idempotent_events, append_pairs, append_many_in_transaction, append_many,
  append,
}
use blackcell.Kernel.Writers.{appended_row, appended_stored}

keyed_row-append :
    (stream key : String) (rows : List Row) (row : Row)
    → keyed_row stream key rows ≡ none
    → row.stream_id ≡ stream
    → row.idempotency_key ≡ some key
    → keyed_row stream key (rows ++ row ∷ []) ≡ some row
unfolding keyed_row
keyed_row-append stream key [] row h e k = ground (arith, eq_refl key, eq_iff row.stream_id stream)
keyed_row-append stream key (r ∷ rows) row h e k =
    ground (arith, keyed_row-append stream key rows row)

module _ (host : Host) (event : EventEnvelope) where
  -- No row has the key of an event that is no repetition.
  keyed_row_absent :
      (key : String) (db : Database)
      → event.idempotency_key ≡ some key
      → idempotent_event host db event ≡ ok none
      → keyed_row event.stream_id key db.kernel_events ≡ none
  unfolding idempotent_event
  keyed_row_absent key db k new = ground arith

  -- The row of an event reads back as the envelope that the insert returned.
  read_back :
      (position : ℕ) {stored : EventEnvelope}
      → host.json_loads (host.canonical_json (obj event.payload)) ≡ some (obj event.payload)
      → post_init host (record event { global_position = some position }) ≡ ok stored
      → event_from_row host (row_of host event position) ≡ ok stored
  unfolding event_from_row row_of
  read_back position loads h = rw loads h

  repeated :
      (key : String) (db after : Database) (position : ℕ) {stored : EventEnvelope}
      → event.idempotency_key ≡ some key
      → idempotent_event host db event ≡ ok none
      → host.json_loads (host.canonical_json (obj event.payload)) ≡ some (obj event.payload)
      → post_init host (record event { global_position = some position }) ≡ ok stored
      → after.kernel_events ≡ db.kernel_events ++ row_of host event position ∷ []
      → idempotent_event host after event ≡ ok (some stored)
  unfolding idempotent_event
  repeated key db after position k new loads h rows =
      let found =
        keyed_row-append event.stream_id key db.kernel_events (row_of host event position)
          (keyed_row_absent key db k new) (unfold row_of in refl) (unfold row_of in k) in
      let there : keyed_row event.stream_id key after.kernel_events
          ≡ some (row_of host event position) =
        rw rows found in
      let back = read_back position loads h in
      let hash : (row_of host event position).idempotency_hash
          ≡ some (idempotency_hash host event) =
        unfold row_of in simp k in
      ground (arith, there, back, hash, eq_refl (idempotency_hash host event))

retry_found :
    (host : Host) (event : EventEnvelope) (key : String) (n : ℕ) (db : Database)
    {stored : EventEnvelope} {after : Database}
    → event.idempotency_key ≡ some key
    → host.json_loads (host.canonical_json (obj event.payload)) ≡ some (obj event.payload)
    → idempotent_event host db event ≡ ok none
    → append host event (pos n) db ≡ (ok stored, after)
    → idempotent_event host after event ≡ ok (some stored)
retry_found host event key n db {stored} {after} k loads new done =
    repeated host event key db after (db.last_position + 1) k new loads
      (appended_stored host event n db new done) (appended_row host event n db new done)

-- A retry of a keyed append, whatever sequence it expects, returns the event that the first call
-- returned and changes nothing, if the payload's JSON text parses back to the payload.
pub append_retry :
    (host : Host) (event : EventEnvelope) (key : String) (n m : ℕ) (db : Database)
    {stored : EventEnvelope} {after : Database}
    → event.idempotency_key ≡ some key
    → host.json_loads (host.canonical_json (obj event.payload)) ≡ some (obj event.payload)
    → idempotent_event host db event ≡ ok none
    → append host event (pos n) db ≡ (ok stored, after)
    → append host event (pos m) after ≡ (ok stored, after)
unfolding append append_many append_many_in_transaction append_pairs validate_append_request
    validate_transaction_connection stream_ids expected_of idempotent_events existing_order
append_retry host event key n m db {stored} {after} k loads new done =
    let again = retry_found host event key n db k loads new done in
    ground (arith, eq_refl event.stream_id, again)
