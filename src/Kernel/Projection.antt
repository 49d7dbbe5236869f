-- ===== src/Kernel/Projection.antt =====
-- kernel/projections.py: folds over recorded events, and their checkpoints.
pub mod Table
pub mod Resume
pub mod Saved
pub mod Rebuild
pub mod Runs
pub mod Tests
use blackcell.Prelude.{
  ℕ, ◌+◌, String, Bool, true, false, Option, none, some, List, [], ◌∷◌, ◌&&◌, ◌||◌, not, ◌==◌, ltb,
  leb, str_eq, opt_eq, ok, err, ◌>>=◌, ◌>>◌, raise_if, if◌then◌else◌,
}
use blackcell.Json.{Json}
use blackcell.Host.{Host, DateTime, json_digest}
use blackcell.Kernel.Errors.{Result, value_error, projection_conflict}
use blackcell.Kernel.Event.{EventEnvelope, is_blank}

-- The protocol `Projection`; `load_state` may raise.
pub record Projection (S : Type 0) : Type 0 where
  pub name : String
  pub version : ℕ
  pub initial_state : S
  pub apply : S → EventEnvelope → S
  pub dump_state : S → Json
  pub load_state : Json → Result S

pub record ProjectionCheckpoint : Type 0 where
  pub projection_name : String
  pub projection_version : ℕ
  pub stream_id : Option String
  pub last_global_position : ℕ
  pub last_stream_sequence : Option ℕ
  pub state : Json
  pub state_hash : String
  pub updated_at : DateTime

pub record ReplayResult (S : Type 0) : Type 0 where
  pub state : S
  pub state_hash : String
  pub processed_events : ℕ
  pub last_global_position : ℕ
  pub last_stream_sequence : Option ℕ

-- `ProjectionCheckpoint.__post_init__`; positions and sequences are natural numbers
unfoldable pub new_checkpoint : Host → ProjectionCheckpoint → Result ProjectionCheckpoint
unfolding is_blank
new_checkpoint host c = do
  raise_if (is_blank host c.projection_name) value_error
  raise_if (ltb c.projection_version 1) value_error
  raise_if (not c.updated_at.is_aware) value_error
  raise_if (not (str_eq (json_digest host c.state) c.state_hash)) value_error
  ok c

-- the variables of the loop of `replay`
pub record Progress (S : Type 0) : Type 0 where
  pub state : S
  pub last_position : ℕ
  pub last_sequence : Option ℕ
  pub processed : ℕ
  pub previous_input_position : ℕ

-- the stream that a checkpoint confines the replay to
abbrev pub confined : Option ProjectionCheckpoint → Option String
confined none = none
confined (some c) = c.stream_id

abbrev leaves : Option String → String → Bool
leaves none k = false
leaves (some j) k = not (str_eq k j)

module _ {S : Type 0} (projection : Projection S) where
  -- one round of the loop, at an event read from position `position`
  unfoldable pub replay_event : Option String → Progress S → EventEnvelope → ℕ → Result (Progress S)
  replay_event only p event position =
      if leb position p.previous_input_position
      then err value_error
      else if leb position p.last_position
      then ok (record p { previous_input_position = position })
      else if leaves only event.stream_id
      then err value_error
      else ok (record {
        state = projection.apply p.state event;
        last_position = position;
        last_sequence = some event.stream_sequence;
        processed = p.processed + 1;
        previous_input_position = position;
      })

  unfoldable pub replay_step : Option String → Progress S → EventEnvelope → Result (Progress S)
  replay_step only p event = elim event.global_position [
    | none ↦ err value_error
    | some position ↦ replay_event only p event position
  ]

  unfoldable pub replay_loop : Option String → Progress S → List EventEnvelope → Result (Progress S)
  replay_loop only p [] = ok p
  replay_loop only p (event ∷ events) = replay_step only p event >>= λ q. replay_loop only q events

  -- `_validate_checkpoint`
  unfoldable pub validate_checkpoint : ProjectionCheckpoint → Result (Unit {0})
  validate_checkpoint c = do
    raise_if (not (str_eq c.projection_name projection.name)) value_error
    raise_if (not (c.projection_version == projection.version)) value_error

  -- the state before the loop
  unfoldable pub replay_start : Option ProjectionCheckpoint → Result (Progress S)
  replay_start none = ok (record {
    state = projection.initial_state;
    last_position = 0;
    last_sequence = none;
    processed = 0;
    previous_input_position = 0;
  })
  replay_start (some c) = do
    validate_checkpoint c
    state ← projection.load_state c.state
    ok (record {
      state = state;
      last_position = c.last_global_position;
      last_sequence = c.last_stream_sequence;
      processed = 0;
      previous_input_position = 0;
    })

  -- `ProjectionRunner.replay`
  unfoldable pub replay :
      Host → List EventEnvelope → Option ProjectionCheckpoint → Result (ReplayResult S)
  replay host events checkpoint = do
    raise_if (ltb projection.version 1) value_error
    start ← replay_start checkpoint
    p ← replay_loop (confined checkpoint) start events
    ok (record {
      state = p.state;
      state_hash = json_digest host (projection.dump_state p.state);
      processed_events = p.processed;
      last_global_position = p.last_position;
      last_stream_sequence = p.last_sequence;
    })

  -- `ReplayResult.checkpoint`, through `ProjectionCheckpoint.create`
  unfoldable pub checkpoint_of :
      Host → ReplayResult S → Option String → DateTime → Result ProjectionCheckpoint
  unfolding new_checkpoint
  checkpoint_of host r stream now = new_checkpoint host (record {
    projection_name = projection.name;
    projection_version = projection.version;
    stream_id = stream;
    last_global_position = r.last_global_position;
    last_stream_sequence = elim stream [ none ↦ none | some _ ↦ r.last_stream_sequence ];
    state = projection.dump_state r.state;
    state_hash = json_digest host (projection.dump_state r.state);
    updated_at = now;
  })

-- `_scope`
unfoldable pub scope : Host → Option String → Result String
scope host none = ok "*"
scope host (some k) = if str_eq k "*" || is_blank host k then err value_error else ok k
