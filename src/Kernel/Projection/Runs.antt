-- ===== src/Kernel/Projection/Runs.antt =====
-- A projection rebuilt from a ledger with two events, from the start and from a checkpoint.
use blackcell.Prelude.{ℕ, suc, ◌≡◌, refl, String, true, none, some, [], ◌∷◌, pos, ok, err}
use blackcell.Json.{Json, int, end}
use blackcell.Host.{json_digest}
use blackcell.Samples.{host, digest}
use blackcell.Kernel.Errors.{Result, value_error}
use blackcell.Kernel.Event.{EventEnvelope, is_blank, post_init}
use blackcell.Kernel.Ledger.{Database, event_from_row, row_of}
use blackcell.Kernel.Reads.{
  validate_cursor, select_rows, insert_row, order_by, events_from_rows, read_stream, read_all,
}
use blackcell.Kernel.Projection.{
  Projection, ReplayResult, replay_event, replay_step, replay_loop, replay_start, replay,
  validate_checkpoint, ProjectionCheckpoint, new_checkpoint, checkpoint_of,
}
use blackcell.Kernel.Projection.Rebuild.{after_position, after_sequence, events_behind, rebuild}

abbrev event : String → ℕ → EventEnvelope
event id n = record {
  event_id = id;
  stream_id = "s";
  stream_sequence = n;
  event_type = "t";
  schema_version = 1;
  recorded_at = 5;
  effective_at = 5;
  correlation_id = "c";
  causation_id = none;
  actor = "a";
  source = "test";
  payload = end;
  payload_hash = digest;
  idempotency_key = none;
  global_position = some n;
}

abbrev two : Database
two = record {
  kernel_events = row_of host (event "e1" 1) 1 ∷ row_of host (event "e2" 2) 2 ∷ [];
  event_streams = ("s", 2) ∷ [];
  last_position = 2;
}

abbrev read_count : Json → Result ℕ
read_count (int (pos n)) = ok n
read_count _ = err value_error

abbrev counter : Projection ℕ
counter = record {
  name = "count";
  version = 1;
  initial_state = 0;
  apply = λ n event. suc n;
  dump_state = λ n. int (pos n);
  load_state = read_count;
}

abbrev result : ℕ → ℕ → ReplayResult ℕ
result n new = record {
  state = n;
  state_hash = digest;
  processed_events = new;
  last_global_position = n;
  last_stream_sequence = some n;
}

rebuilt : rebuild counter host none none two ≡ ok (result 2 2)
unfolding rebuild events_behind after_position read_all validate_cursor select_rows order_by
    insert_row events_from_rows row_of event_from_row post_init is_blank json_digest replay
    replay_start replay_loop replay_step replay_event
rebuilt = refl

abbrev drawn : ProjectionCheckpoint
drawn = record {
  projection_name = "count";
  projection_version = 1;
  stream_id = some "s";
  last_global_position = 1;
  last_stream_sequence = some 1;
  state = int (pos 1);
  state_hash = digest;
  updated_at = record { instant = 1000; offset = pos 0; is_aware = true };
}

checkpoint_made :
    checkpoint_of counter host
      (result 1 1)
      (some "s")
      (record { instant = 1000; offset = pos 0; is_aware = true })
    ≡ ok drawn
unfolding new_checkpoint checkpoint_of json_digest is_blank
checkpoint_made = refl

rebuilt_behind : rebuild counter host (some "s") (some drawn) two ≡ ok (result 2 1)
unfolding rebuild events_behind after_sequence read_stream validate_cursor select_rows order_by
    insert_row events_from_rows row_of event_from_row post_init is_blank json_digest replay
    replay_start replay_loop replay_step replay_event validate_checkpoint
rebuilt_behind = refl
