-- ===== src/Kernel/Ledger.antt =====
-- The two tables of the event ledger (kernel/database.py) and the SQL that kernel/store.py runs on
-- them. `kernel_events` lists the rows in the order of their insertion, which is the order of
-- `global_position`; `last_position` is SQLite's autoincrement counter.
use Prim.Native.Char.{code}
use blackcell.Prelude.{
  ℕ, ◌+◌, String, Bool, true, false, Option, none, some, List, [], ◌∷◌, ◌&&◌, ◌||◌, not, ◌==◌, ltb,
  str_eq, any, ok, err, ◌>>=◌, if◌then◌else◌,
}
use blackcell.Json.{Json, obj, Fields}
use blackcell.Host.{Host}
use blackcell.Kernel.Errors.{Result, value_error, type_error}
use blackcell.Kernel.Event.{EventEnvelope, post_init, idempotency_hash}

-- A row of `kernel_events`. The two dates stand for the ISO texts that the columns hold.
pub record Row : Type 0 where
  pub global_position : ℕ
  pub event_id : String
  pub stream_id : String
  pub stream_sequence : ℕ
  pub event_type : String
  pub schema_version : ℕ
  pub recorded_at : ℕ
  pub effective_at : ℕ
  pub correlation_id : String
  pub causation_id : Option String
  pub actor : String
  pub source : String
  pub payload_json : String
  pub payload_hash : String
  pub idempotency_key : Option String
  pub idempotency_hash : Option String

pub record Database : Type 0 where
  pub kernel_events : List Row
  pub event_streams : List (String × ℕ)
  pub last_position : ℕ

-- `select current_sequence from event_streams where stream_id = ?`
unfoldable pub sequence_row : String → List (String × ℕ) → Option ℕ
sequence_row k [] = none
sequence_row k ((j, n) ∷ streams) = if str_eq j k then some n else sequence_row k streams

abbrev or_zero : Option ℕ → ℕ
or_zero none = 0
or_zero (some n) = n

-- `EventStore._current_sequence`
unfoldable pub current_sequence : Database → String → ℕ
unfolding sequence_row
current_sequence db k = or_zero (sequence_row k db.event_streams)

-- `update event_streams set current_sequence = ? where stream_id = ? and current_sequence = ?`,
-- with the row count; `stream_id` is the primary key
unfoldable pub set_sequence : String → ℕ → ℕ → List (String × ℕ) → List (String × ℕ) × ℕ
set_sequence k previous next [] = ([], 0)
set_sequence k previous next ((j, n) ∷ streams) =
    let (rest, changed) = set_sequence k previous next streams in
    if str_eq j k && n == previous
    then ((j, next) ∷ rest, changed + 1)
    else ((j, n) ∷ rest, changed)

-- `length(column) > 0`: SQLite measures a text up to its first NUL
abbrev pub has_length : String → Bool
has_length String.[] = false
has_length (String.◌∷◌ c s) = not (code c == 0)

-- two keys of a unique column; NULLs are distinct
abbrev same_key : Option String → Option String → Bool
same_key (some a) (some b) = str_eq a b
same_key _ _ = false

module _ (row : Row) where
  clashes : Row → Bool
  clashes old =
      str_eq old.event_id row.event_id
      || (str_eq old.stream_id row.stream_id
          && (old.stream_sequence == row.stream_sequence
              || same_key old.idempotency_key row.idempotency_key))

  -- the foreign key on `causation_id`, checked with the new row in place
  cause_known : Option String → List Row → Bool
  cause_known none rows = true
  cause_known (some cause) rows =
      str_eq row.event_id cause || any (λ (r : Row). str_eq r.event_id cause) rows

  -- whether the insert breaks a constraint of the table
  unfoldable pub violates : Database → Bool
  unfolding clashes cause_known sequence_row
  violates db =
      any clashes db.kernel_events
      || not (any (λ (s : String × ℕ). str_eq s.0 row.stream_id) db.event_streams)
      || not (cause_known row.causation_id db.kernel_events)
      || not (
          has_length row.event_id
          && has_length row.event_type
          && has_length row.correlation_id
          && has_length row.actor
          && has_length row.source)
      || ltb row.stream_sequence 1
      || ltb row.schema_version 1

abbrev pub parsed_object : Option Json → Result Fields
parsed_object none = err value_error
parsed_object (some (obj fields)) = ok fields
parsed_object (some _) = err type_error

module _ (host : Host) where
  -- `_event_from_row`
  unfoldable pub event_from_row : Row → Result EventEnvelope
  event_from_row row = do
    payload ← parsed_object (host.json_loads row.payload_json)
    post_init host (record {
      event_id = row.event_id;
      stream_id = row.stream_id;
      stream_sequence = row.stream_sequence;
      event_type = row.event_type;
      schema_version = row.schema_version;
      recorded_at = row.recorded_at;
      effective_at = row.effective_at;
      correlation_id = row.correlation_id;
      causation_id = row.causation_id;
      actor = row.actor;
      source = row.source;
      payload = payload;
      payload_hash = row.payload_hash;
      idempotency_key = row.idempotency_key;
      global_position = some row.global_position;
    })

  -- the row that `_insert_event` writes
  unfoldable pub row_of : EventEnvelope → ℕ → Row
  row_of event position = record {
    global_position = position;
    event_id = event.event_id;
    stream_id = event.stream_id;
    stream_sequence = event.stream_sequence;
    event_type = event.event_type;
    schema_version = event.schema_version;
    recorded_at = event.recorded_at;
    effective_at = event.effective_at;
    correlation_id = event.correlation_id;
    causation_id = event.causation_id;
    actor = event.actor;
    source = event.source;
    payload_json = host.canonical_json (obj event.payload);
    payload_hash = event.payload_hash;
    idempotency_key = event.idempotency_key;
    idempotency_hash = elim event.idempotency_key [
      | none ↦ none
      | some _ ↦ some (idempotency_hash host event)
    ];
  }
