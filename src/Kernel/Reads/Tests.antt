-- ===== src/Kernel/Reads/Tests.antt =====
-- The read of a stream at a ledger with two events.
use blackcell.Prelude.{
  ℕ, ◌≡◌, refl, String, none, some, List, [], ◌∷◌, pos, arith, ok, map, Bool-cases, inl, inr,
  str_eq, All,
}
use blackcell.Json.{end}
use blackcell.Host.{json_digest}
use blackcell.Samples.{host, digest}
use blackcell.Kernel.Event.{EventEnvelope, is_blank, post_init}
use blackcell.Kernel.Ledger.{Database, sequence_row, current_sequence, event_from_row, row_of}
use blackcell.Kernel.Streams.{range}
use blackcell.Kernel.Streams.Gapless.{IsSound}
use blackcell.Kernel.Reads.{
  validate_cursor, select_rows, insert_row, order_by, first_rows, limited, fetch_one,
  events_from_rows, get_event, read_stream, read_all, read_type_descending, reversed, max_position,
  current_position,
}
use blackcell.Kernel.Reads.Gapless.{IsReadable, read_stream-range}

abbrev event : String → ℕ → EventEnvelope
event id n = record {
  event_id = id;
  stream_id = "s";
  stream_sequence = n;
  event_type = "t";
  schema_version = 1;
  recorded_at = 5;
  effective_at = 5;
  correlation_id = "c";
  causation_id = none;
  actor = "a";
  source = "test";
  payload = end;
  payload_hash = digest;
  idempotency_key = none;
  global_position = some n;
}

abbrev two : Database
two = record {
  kernel_events = row_of host (event "e1" 1) 1 ∷ row_of host (event "e2" 2) 2 ∷ [];
  event_streams = ("s", 2) ∷ [];
  last_position = 2;
}

two-IsSound : IsSound two
unfolding current_sequence sequence_row row_of
two-IsSound = record {
  gapless =
      λ k. elim (Bool-cases (str_eq "s" k)) [ inl same ↦ rw same refl | inr other ↦ rw other refl ];
  ascending = ground arith;
}

readable : All (IsReadable host) two.kernel_events
unfolding row_of event_from_row post_init is_blank json_digest
readable = (
  record { event = event "e1" 1; decodes = refl },
  (record { event = event "e2" 2; decodes = refl }, tt),
)

valid : validate_cursor (pos 1) (some (pos 5)) ≡ ok tt
unfolding validate_cursor
valid = refl

read_stream-range_example :
    (events : List EventEnvelope) × (read_stream host "s" (pos 1) none (some (pos 5)) two
      ≡ ok events)
    × (map (λ (e : EventEnvelope). e.stream_sequence) events ≡ limited (some (pos 5)) (range 2 1))
unfolding current_sequence sequence_row
read_stream-range_example =
    read_stream-range host two "s" 1 (some (pos 5)) two-IsSound readable valid

-- newest first, and by identifier
read_backwards :
    read_type_descending host "t" (pos 2) (pos 2) two ≡ ok (event "e2" 2 ∷ event "e1" 1 ∷ [])
unfolding read_type_descending validate_cursor select_rows order_by insert_row reversed first_rows
    events_from_rows row_of event_from_row post_init is_blank json_digest
read_backwards = refl

got : get_event host "e2" two ≡ ok (some (event "e2" 2))
unfolding get_event fetch_one row_of event_from_row post_init is_blank json_digest
got = refl

head : current_position two ≡ 2
unfolding current_position max_position row_of
head = refl

rest : read_all host (pos 1) none two ≡ ok (event "e2" 2 ∷ [])
unfolding read_all validate_cursor select_rows order_by insert_row events_from_rows row_of
    event_from_row post_init is_blank json_digest
rest = refl
