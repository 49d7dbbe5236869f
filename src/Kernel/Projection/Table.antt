-- ===== src/Kernel/Projection/Table.antt =====
-- kernel/projections.py: the table of checkpoints. A list of rows stands for `projection_checkpoints` of
-- kernel/database.py, whose primary key is name, version and scope.
use blackcell.Prelude.{
  ℕ, String, Bool, true, false, Option, none, some, List, [], ◌∷◌, ◌&&◌, ◌||◌, not, ◌==◌, ltb,
  str_eq, ok, err, ◌>>=◌, if◌then◌else◌,
}
use blackcell.Host.{Host}
use blackcell.Kernel.Errors.{Result, value_error, projection_conflict, sqlite_integrity}
use blackcell.Kernel.Ledger.{has_length}
use blackcell.Kernel.Projection.{ProjectionCheckpoint, new_checkpoint, scope}

-- a row of `projection_checkpoints`; state and date are texts
pub record CheckpointRow : Type 0 where
  pub projection_name : String
  pub projection_version : ℕ
  pub scope : String
  pub last_global_position : ℕ
  pub last_stream_sequence : Option ℕ
  pub state_json : String
  pub state_hash : String
  pub updated_at : String

abbrev pub Checkpoints : Type 0
Checkpoints = List CheckpointRow

-- the primary key
abbrev pub has_key : String → ℕ → String → CheckpointRow → Bool
has_key name version key row =
    str_eq row.projection_name name && row.projection_version == version && str_eq row.scope key

-- `select … where projection_name = ? and projection_version = ? and scope = ?`
unfoldable pub find_row : String → ℕ → String → Checkpoints → Option CheckpointRow
find_row name version key [] = none
find_row name version key (row ∷ rows) =
    if has_key name version key row then some row else find_row name version key rows

-- `insert … on conflict … do update`
unfoldable pub upsert : CheckpointRow → Checkpoints → Checkpoints
upsert new [] = new ∷ []
upsert new (row ∷ rows) =
    if has_key new.projection_name new.projection_version new.scope row
    then new ∷ rows
    else row ∷ upsert new rows

-- the row's position, or 0
abbrev pub position_of : Option CheckpointRow → ℕ
position_of none = 0
position_of (some row) = row.last_global_position

abbrev same_sequence : Option ℕ → Option ℕ → Bool
same_sequence none none = true
same_sequence (some a) (some b) = a == b
same_sequence _ _ = false

abbrev differs : Option ℕ → ℕ → Bool
differs none n = false
differs (some m) n = not (m == n)

-- what `json.loads` and `datetime.fromisoformat` return or raise
abbrev pub parsed {ℓ} : {A : Type ℓ} → Option A → Result A
parsed none = err value_error
parsed (some value) = ok value

-- `None if scope == "*" else scope`
abbrev pub stream_of : String → Option String
stream_of key = if str_eq key "*" then none else some key

module _ (host : Host) where
  -- `_checkpoint_from_row`
  unfoldable pub checkpoint_from_row : CheckpointRow → Result ProjectionCheckpoint
  unfolding new_checkpoint
  checkpoint_from_row row = do
    state ← parsed (host.json_loads row.state_json)
    updated_at ← parsed (host.fromisoformat row.updated_at)
    new_checkpoint host (record {
      projection_name = row.projection_name;
      projection_version = row.projection_version;
      stream_id = stream_of row.scope;
      last_global_position = row.last_global_position;
      last_stream_sequence = row.last_stream_sequence;
      state = state;
      state_hash = row.state_hash;
      updated_at = updated_at;
    })

  -- the row that `save` writes
  unfoldable pub checkpoint_row : String → ProjectionCheckpoint → CheckpointRow
  checkpoint_row key c = record {
    projection_name = c.projection_name;
    projection_version = c.projection_version;
    scope = key;
    last_global_position = c.last_global_position;
    last_stream_sequence = c.last_stream_sequence;
    state_json = host.canonical_json c.state;
    state_hash = c.state_hash;
    updated_at = host.isoformat_at c.updated_at;
  }

  abbrev loaded : Option CheckpointRow → Result (Option ProjectionCheckpoint)
  loaded none = ok none
  loaded (some row) = checkpoint_from_row row >>= λ c. ok (some c)

  -- `CheckpointStore.load`
  unfoldable pub load :
      String → ℕ → Option String → Checkpoints → Result (Option ProjectionCheckpoint)
  unfolding find_row checkpoint_from_row
  load name version stream_id rows = do
    key ← scope host stream_id
    loaded (find_row name version key rows)

  -- the insert, with the constraints of the table that the checkpoint's own checks leave open
  unfoldable pub write_row :
      String → ProjectionCheckpoint → Checkpoints → Result ProjectionCheckpoint × Checkpoints
  unfolding upsert checkpoint_row
  write_row key c rows =
      if not (has_length c.projection_name) || ltb c.projection_version 1
      then (err sqlite_integrity, rows)
      else (ok c, upsert (checkpoint_row key c) rows)

  -- the row found and the checkpoint, once the position is known not to regress
  unfoldable pub save_over :
      String
      → ProjectionCheckpoint
      → Option CheckpointRow
      → Checkpoints
      → Result ProjectionCheckpoint × Checkpoints
  unfolding write_row checkpoint_from_row
  save_over key c none rows = write_row key c rows
  save_over key c (some row) rows =
      if c.last_global_position == row.last_global_position
      then (if str_eq row.state_hash c.state_hash
            && same_sequence row.last_stream_sequence c.last_stream_sequence
          then (checkpoint_from_row row, rows)
          else (err projection_conflict, rows))
      else write_row key c rows

  -- `CheckpointStore.save`, under its scope; what raises is rolled back
  unfoldable pub save_at :
      String
      → ProjectionCheckpoint
      → Option ℕ
      → Checkpoints
      → Result ProjectionCheckpoint × Checkpoints
  unfolding find_row save_over
  save_at key c expected rows =
      let found = find_row c.projection_name c.projection_version key rows in
      if differs expected (position_of found) || ltb c.last_global_position (position_of found)
      then (err projection_conflict, rows)
      else save_over key c found rows

  unfoldable pub save :
      ProjectionCheckpoint → Option ℕ → Checkpoints → Result ProjectionCheckpoint × Checkpoints
  unfolding save_at
  save c expected rows = elim (scope host c.stream_id) [
    | err e ↦ (err e, rows)
    | ok key ↦ save_at key c expected rows
  ]
