-- ===== src/Kernel/Tests.antt =====
-- The theorems on the ledger and on projections at concrete events.
use blackcell.Prelude.{◌≡◌, ◌≢◌, refl, String, Option, none, some, [], ◌∷◌, pos, arith, ok, err}
use blackcell.Json.{end}
use blackcell.Host.{json_digest}
use blackcell.Samples.{host, digest}
use blackcell.Kernel.Errors.{concurrency}
use blackcell.Kernel.Event.{EventEnvelope, is_blank, post_init, idempotency_hash}
use blackcell.Kernel.Ledger.{
  Database, sequence_row, current_sequence, set_sequence, has_length, violates, event_from_row,
  row_of,
}
use blackcell.Kernel.Append.{
  validate_transaction_connection, stream_ids, expected_of, sequence_value, validate_append_request,
  keyed_row, existing_order, group, committed_prefix, check_sequences, validate_batch_stream,
}
use blackcell.Kernel.Store.{
  add_stream, open_stream, check_stream, check_streams, advance_stream, advance, stored_all,
  idempotent_event, idempotent_events, insert_event, insert_or_keep, insert_all, append_new,
  append_pairs, append_many_in_transaction, append_many, append, commit_or_rollback,
}
use blackcell.Kernel.Streams.Gapless.{IsSound}
use blackcell.Kernel.Streams.Append.{append_many-IsSound}
use blackcell.Kernel.Writers.{append_stale, append_second_writer}
use blackcell.Kernel.Retry.{append_retry}

abbrev event : String → Option String → EventEnvelope
event id key = record {
  event_id = id;
  stream_id = "s";
  stream_sequence = 1;
  event_type = "t";
  schema_version = 1;
  recorded_at = 5;
  effective_at = 5;
  correlation_id = "c";
  causation_id = none;
  actor = "a";
  source = "test";
  payload = end;
  payload_hash = digest;
  idempotency_key = key;
  global_position = none;
}

abbrev first : EventEnvelope
first = event "e1" (some "k")

abbrev second : EventEnvelope
second = event "e2" none

abbrev empty : Database
empty = record { kernel_events = []; event_streams = []; last_position = 0 }

abbrev stored : EventEnvelope
stored = record first { global_position = some 1 }

abbrev after : Database
after = record {
  kernel_events = row_of host first 1 ∷ [];
  event_streams = ("s", 1) ∷ [];
  last_position = 1;
}

empty-IsSound : IsSound empty
unfolding current_sequence sequence_row
empty-IsSound = record { gapless = λ k. refl; ascending = omega arith }

first_append : append host first (pos 0) empty ≡ (ok stored, after)
unfolding append append_many append_many_in_transaction append_pairs append_new check_streams
    check_stream validate_batch_stream committed_prefix check_sequences group sequence_value
    validate_append_request validate_transaction_connection stream_ids expected_of idempotent_events
    insert_all insert_or_keep advance advance_stream insert_event idempotent_event existing_order
    open_stream add_stream set_sequence current_sequence sequence_row keyed_row event_from_row
    row_of post_init is_blank idempotency_hash has_length violates stored_all json_digest
    commit_or_rollback
first_append = refl

append_many-IsSound_example : IsSound (append_many host (first ∷ []) (("s", pos 0) ∷ []) empty).1
append_many-IsSound_example =
    append_many-IsSound host (first ∷ []) (("s", pos 0) ∷ []) empty empty-IsSound

second_unseen : idempotent_event host after second ≡ ok none
unfolding idempotent_event
second_unseen = refl

first_unseen : idempotent_event host empty first ≡ ok none
unfolding idempotent_event keyed_row
first_unseen = refl

behind : current_sequence empty "s" ≢ 3
unfolding current_sequence sequence_row
behind = λ e. ground arith

append_stale_example :
    append host first (pos 3) empty ≡ (err (concurrency "s" 3 (current_sequence empty "s")), empty)
append_stale_example = append_stale host first 3 empty first_unseen behind

append_second_writer_example : append host second (pos 0) after ≡ (err (concurrency "s" 0 1), after)
append_second_writer_example =
    append_second_writer host first second 0 empty refl first_unseen first_append second_unseen

append_retry_example : append host first (pos 7) after ≡ (ok stored, after)
append_retry_example = append_retry host first "k" 0 7 empty refl refl first_unseen first_append
