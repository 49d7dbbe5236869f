-- ===== src/Kernel/Reads/Gapless.antt =====
-- What a read of a stream returns, when the ledger is sound and its rows can be read.
use blackcell.Prelude.{
  ℕ, zero, suc, ◌+◌, ◌-◌, ℤ, pos, negsuc, ◌≡◌, ◌∙◌, ap, refl, String, Bool, Option, none, some,
  List, [], ◌∷◌, map, arith, ok, >>=-eq-ok, All, inl, inr, Bool-cases,
}
use blackcell.Host.{Host}
use blackcell.Kernel.Event.{EventEnvelope, post_init}
use blackcell.Kernel.Ledger.{Row, Database, current_sequence, parsed_object, event_from_row}
use blackcell.Kernel.Streams.{range}
use blackcell.Kernel.Streams.Gapless.{IsSound}
use blackcell.Kernel.Reads.{
  validate_cursor, select_rows, is_wanted, by_sequence, first_rows, limited, events_from_rows,
  read_stream,
}
use blackcell.Kernel.Reads.Order.{
  above, above-range, select-sequences, order_by-sequences, map-limited,
}

-- the row decodes to an event
pub record IsReadable (host : Host) (row : Row) : Type 0 where
  pub event : EventEnvelope
  pub decodes : event_from_row host row ≡ ok event

abbrev sequence_of : EventEnvelope → ℕ
sequence_of event = event.stream_sequence

module _ (P : Row → Type 0) where
  All-select : (test : Row → Bool) (rows : List Row) → All P rows → All P (select_rows test rows)
  unfolding select_rows
  All-select test [] h = tt
  All-select test (row ∷ rows) (p, h) = elim (Bool-cases (test row)) [
    | inl passed ↦ rw passed (p, All-select test rows h)
    | inr failed ↦ rw failed (All-select test rows h)
  ]

  All-first_rows : (n : ℕ) (rows : List Row) → All P rows → All P (first_rows n rows)
  unfolding first_rows
  All-first_rows zero rows h = tt
  All-first_rows (suc n) [] h = tt
  All-first_rows (suc n) (row ∷ rows) (p, h) = (p, All-first_rows n rows h)

  All-limited : (limit : Option ℤ) (rows : List Row) → All P rows → All P (limited limit rows)
  All-limited none rows h = h
  All-limited (some (pos n)) rows h = All-first_rows n rows h
  All-limited (some (negsuc _)) rows h = h

post_init-same :
    (host : Host) (event : EventEnvelope) {made : EventEnvelope}
    → post_init host event ≡ ok made
    → made.stream_sequence ≡ event.stream_sequence
unfolding post_init
post_init-same host event h = ground arith

event_from_row-sequence :
    (host : Host) (row : Row) {event : EventEnvelope}
    → event_from_row host row ≡ ok event
    → event.stream_sequence ≡ row.stream_sequence
unfolding event_from_row
event_from_row-sequence host row h =
    let (_, _, h1) = >>=-eq-ok (parsed_object (host.json_loads row.payload_json)) _ h in
    post_init-same host _ h1

readable_rows :
    (host : Host) (rows : List Row)
    → All (IsReadable host) rows
    → (events : List EventEnvelope) × (events_from_rows host rows ≡ ok events)
      × (map sequence_of events ≡ map by_sequence rows)
unfolding events_from_rows
readable_rows host [] h = ([], refl, refl)
readable_rows host (row ∷ rows) (r, h) =
    let (events, found, same) = readable_rows host rows h in
    (
      r.event ∷ events,
      rw (r.decodes, found) refl,
      rw (event_from_row-sequence host row r.decodes, same) refl,
    )

wanted-range :
    (db : Database) (k : String) (a : ℕ)
    → IsSound db
    → map by_sequence (select_rows (is_wanted k (pos a) none) db.kernel_events)
      ≡ range (suc a) (current_sequence db k - a)
wanted-range db k a sound =
    let e : (1 + current_sequence db k) - suc a ≡ current_sequence db k - a = omega arith in
    select-sequences k a db.kernel_events
    ∙ ap (above a) (sound.gapless k)
    ∙ above-range a 1 (current_sequence db k) (ground arith)
    ∙ ap (λ (n : ℕ). range (suc a) n) e

-- A stream of a sound ledger is read without a gap. If the ledger's rows can be read, then reading a
-- stream behind the sequence a, with a valid limit or none, returns the events with the sequences
-- a + 1, a + 2, … up to the recorded one, in this order, and no more of them than the limit allows.
pub read_stream-range :
    (host : Host) (db : Database) (stream_id : String) (a : ℕ) (limit : Option ℤ)
    → IsSound db
    → All (IsReadable host) db.kernel_events
    → validate_cursor (pos a) limit ≡ ok tt
    → (events : List EventEnvelope) × (read_stream host stream_id (pos a) none limit db ≡ ok events)
      × (map (λ (e : EventEnvelope). e.stream_sequence) events
          ≡ limited limit (range (suc a) (current_sequence db stream_id - a)))
unfolding read_stream
read_stream-range host db k a limit sound readable valid =
    let rows = select_rows (is_wanted k (pos a) none) db.kernel_events in
    let numbers = wanted-range db k a sound in
    let sorted = order_by-sequences rows (suc a) (current_sequence db k - a) numbers in
    let fine =
      All-limited (IsReadable host) limit rows
        (All-select (IsReadable host) (is_wanted k (pos a) none) db.kernel_events readable) in
    let (events, found, same) = readable_rows host (limited limit rows) fine in
    (events, rw (valid, sorted) found, same ∙ map-limited limit rows ∙ ap (limited limit) numbers)
