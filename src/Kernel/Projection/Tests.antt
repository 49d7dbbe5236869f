-- ===== src/Kernel/Projection/Tests.antt =====
-- The theorems on projections at a projection that counts events.
use blackcell.Prelude.{ℕ, suc, ◌+◌, ◌≡◌, ◌≤◌, refl, true, false, none, some, [], ◌∷◌, pos, ok, err}
use blackcell.Json.{Json, int, obj, end}
use blackcell.Host.{DateTime, json_digest}
use blackcell.Samples.{host, digest}
use blackcell.Kernel.Errors.{Result, value_error}
use blackcell.Kernel.Event.{EventEnvelope, is_blank}
use blackcell.Kernel.Projection.{
  Projection, ProjectionCheckpoint, ReplayResult, replay_event, replay_step, replay_loop,
  replay_start, replay, new_checkpoint, checkpoint_of, scope,
}
use blackcell.Kernel.Projection.Table.{
  CheckpointRow, find_row, upsert, position_of, checkpoint_row, load, write_row, save_over, save_at,
  save,
}
use blackcell.Kernel.Projection.Resume.{replay_resume}
use blackcell.Kernel.Projection.Saved.{save_monotone, save_returned}

abbrev event : ℕ → EventEnvelope
event n = record {
  event_id = "e";
  stream_id = "s";
  stream_sequence = n;
  event_type = "t";
  schema_version = 1;
  recorded_at = 5;
  effective_at = 5;
  correlation_id = "c";
  causation_id = none;
  actor = "a";
  source = "test";
  payload = end;
  payload_hash = digest;
  idempotency_key = none;
  global_position = some n;
}

abbrev read_count : Json → Result ℕ
read_count (int (pos n)) = ok n
read_count _ = err value_error

abbrev counter : Projection ℕ
counter = record {
  name = "count";
  version = 1;
  initial_state = 0;
  apply = λ n event. suc n;
  dump_state = λ n. int (pos n);
  load_state = read_count;
}

abbrev result : ℕ → ReplayResult ℕ
result n = record {
  state = n;
  state_hash = digest;
  processed_events = n;
  last_global_position = n;
  last_stream_sequence = some n;
}

replayed_one : replay counter host (event 1 ∷ []) none ≡ ok (result 1)
unfolding replay replay_start replay_loop replay_step replay_event json_digest
replayed_one = refl

replayed_two : replay counter host (event 1 ∷ event 2 ∷ []) none ≡ ok (result 2)
unfolding replay replay_start replay_loop replay_step replay_event json_digest
replayed_two = refl

abbrev now : DateTime
now = record { instant = 1000; offset = pos 0; is_aware = true }

unnamed : is_blank host "count" ≡ false
unfolding is_blank
unnamed = refl

replay_resume_example :
    (c : ProjectionCheckpoint) × (checkpoint_of counter host (result 1) none now ≡ ok c)
    × (rest : ReplayResult ℕ) × (replay counter host (event 2 ∷ []) (some c) ≡ ok rest)
    × (rest.state ≡ 2)
    × (rest.state_hash ≡ digest)
    × (rest.last_global_position ≡ 2)
    × (1 + rest.processed_events ≡ 2)
replay_resume_example =
    replay_resume counter host (event 1 ∷ []) (event 2 ∷ []) now replayed_one replayed_two unnamed
      refl refl

abbrev checkpoint : ℕ → ProjectionCheckpoint
checkpoint n = record {
  projection_name = "count";
  projection_version = 1;
  stream_id = none;
  last_global_position = n;
  last_stream_sequence = none;
  state = obj end;
  state_hash = digest;
  updated_at = now;
}

abbrev row : ℕ → CheckpointRow
row n = record {
  projection_name = "count";
  projection_version = 1;
  scope = "*";
  last_global_position = n;
  last_stream_sequence = none;
  state_json = "{}";
  state_hash = digest;
  updated_at = "1970-01-01T00:00:00+00:00";
}

save_monotone_example :
    position_of (find_row "count" 1 "*" (row 2 ∷ []))
    ≤ position_of (find_row "count" 1 "*" (save host (checkpoint 1) none (row 2 ∷ [])).1)
save_monotone_example = save_monotone host (checkpoint 1) none (row 2 ∷ []) "count" 1 "*"

checkpoint_made : new_checkpoint host (checkpoint 2) ≡ ok (checkpoint 2)
unfolding new_checkpoint is_blank json_digest
checkpoint_made = refl

kept_two : save host (checkpoint 2) (some 1) (row 1 ∷ []) ≡ (ok (checkpoint 2), row 2 ∷ [])
unfolding save save_at save_over write_row checkpoint_row find_row upsert scope
kept_two = refl

save_returned_example :
    (load host "count" 1 none (row 2 ∷ []) ≡ ok (some (checkpoint 2)))
    × ((checkpoint 2).last_global_position ≡ (checkpoint 2).last_global_position)
    × ((checkpoint 2).state_hash ≡ (checkpoint 2).state_hash)
save_returned_example =
    save_returned host (checkpoint 2) (some 1) (row 1 ∷ []) checkpoint_made refl refl kept_two
