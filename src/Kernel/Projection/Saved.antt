-- ===== src/Kernel/Projection/Saved.antt =====
-- The checkpoint table: what a save leaves under each key.
use blackcell.Prelude.{
  ℕ, ◌≤◌, ◌≡◌, refl, sym, ap, ◌∙◌, String, false, [], ◌∷◌, Option, none, some, ◌==◌, arith, ok,
  ok-injective, eq_iff, eq_refl, inl, inr, Bool-cases, Option-cases, Outcome-cases,
}
use blackcell.Host.{Host}
use blackcell.Kernel.Projection.{ProjectionCheckpoint, new_checkpoint, scope}
use blackcell.Kernel.Projection.Table.{
  CheckpointRow, Checkpoints, has_key, find_row, upsert, position_of, stream_of,
  checkpoint_from_row, checkpoint_row, load, write_row, save_over, save_at, save,
}

find_row-upsert_self :
    (new : CheckpointRow) (rows : Checkpoints)
    → find_row new.projection_name new.projection_version new.scope (upsert new rows) ≡ some new
unfolding find_row upsert
find_row-upsert_self new [] = ground (arith, eq_refl new.projection_name, eq_refl new.scope)
find_row-upsert_self new (row ∷ rows) =
    ground (arith, eq_refl new.projection_name, eq_refl new.scope, find_row-upsert_self new rows)

find_row-upsert_other :
    (name : String) (version : ℕ) (k : String) (new : CheckpointRow) (rows : Checkpoints)
    → has_key name version k new ≡ false
    → find_row name version k (upsert new rows) ≡ find_row name version k rows
unfolding find_row upsert
find_row-upsert_other name version k new [] h = ground arith
find_row-upsert_other name version k new (row ∷ rows) h = ground (
  arith,
  find_row-upsert_other name version k new rows h,
  eq_iff row.projection_name name,
  eq_iff new.projection_name name,
  eq_iff row.projection_name new.projection_name,
  eq_iff row.scope new.scope,
  eq_iff row.scope k,
  eq_iff new.scope k,
)

-- A write at or above the position that its key had lowers the position of no key.
upsert_monotone :
    (name : String) (version : ℕ) (k : String) (new : CheckpointRow) (rows : Checkpoints)
    → position_of (find_row new.projection_name new.projection_version new.scope rows)
      ≤ new.last_global_position
    → position_of (find_row name version k rows)
      ≤ position_of (find_row name version k (upsert new rows))
upsert_monotone name version k new rows h = elim (Bool-cases (has_key name version k new)) [
  | inl same ↦
      ground
        (arith, find_row-upsert_self new rows, eq_iff new.projection_name name, eq_iff new.scope k)
  | inr other ↦ rw (find_row-upsert_other name version k new rows other) (omega arith)
]

-- Whatever is saved, and whether or not it is accepted, no key's checkpoint falls back to an earlier
-- position.
pub save_monotone :
    (host : Host) (c : ProjectionCheckpoint) (expected : Option ℕ) (rows : Checkpoints)
    (name : String) (version : ℕ) (k : String)
    → position_of (find_row name version k rows)
      ≤ position_of (find_row name version k (save host c expected rows).1)
unfolding save save_at save_over write_row checkpoint_row
save_monotone host c expected rows name version k = elim (Outcome-cases (scope host c.stream_id)) [
  | inr (e, refused) ↦ rw (refused, save) (omega arith)
  | inl (key, named) ↦
      ground (arith, named, upsert_monotone name version k (checkpoint_row host key c) rows)
]

-- The stream is read back from its scope.
scope-stream_of :
    (host : Host) (stream_id : Option String) (key : String)
    → scope host stream_id ≡ ok key
    → stream_of key ≡ stream_id
unfolding scope
scope-stream_of host none key h = let e : "*" ≡ key = ok-injective h in ap stream_of (sym e)
scope-stream_of host (some k) key h = ground arith

-- The row of a constructed checkpoint decodes to it.
checkpoint_from_row-checkpoint_row :
    (host : Host) (c : ProjectionCheckpoint) (key : String)
    → new_checkpoint host c ≡ ok c
    → host.json_loads (host.canonical_json c.state) ≡ some c.state
    → host.fromisoformat (host.isoformat_at c.updated_at) ≡ some c.updated_at
    → scope host c.stream_id ≡ ok key
    → checkpoint_from_row host (checkpoint_row host key c) ≡ ok c
unfolding checkpoint_from_row checkpoint_row
checkpoint_from_row-checkpoint_row host c key made state date named =
    rw (state, date, scope-stream_of host c.stream_id key named) made

checkpoint_from_row-fields :
    (host : Host) (row : CheckpointRow) {c : ProjectionCheckpoint}
    → checkpoint_from_row host row ≡ ok c
    → (c.last_global_position ≡ row.last_global_position) × (c.state_hash ≡ row.state_hash)
unfolding checkpoint_from_row new_checkpoint
checkpoint_from_row-fields host row h = (ground arith, ground arith)

-- the checkpoint is what a load of its key returns
IsLoaded : Host → ProjectionCheckpoint → ProjectionCheckpoint → Checkpoints → Type 0
IsLoaded host c kept after =
    (load host c.projection_name c.projection_version c.stream_id after ≡ ok (some kept))
    × (kept.last_global_position ≡ c.last_global_position)
    × (kept.state_hash ≡ c.state_hash)

load-found :
    (host : Host) (c kept : ProjectionCheckpoint) (row : CheckpointRow) (rows : Checkpoints)
    (key : String)
    → scope host c.stream_id ≡ ok key
    → find_row c.projection_name c.projection_version key rows ≡ some row
    → checkpoint_from_row host row ≡ ok kept
    → load host c.projection_name c.projection_version c.stream_id rows ≡ ok (some kept)
unfolding load
load-found host c kept row rows key named found decoded = rw (named, found, decoded) refl

-- A checkpoint that is written is the one that is loaded.
written-IsLoaded :
    (host : Host) (c : ProjectionCheckpoint) (rows : Checkpoints) (key : String)
    {kept : ProjectionCheckpoint} {after : Checkpoints}
    → new_checkpoint host c ≡ ok c
    → host.json_loads (host.canonical_json c.state) ≡ some c.state
    → host.fromisoformat (host.isoformat_at c.updated_at) ≡ some c.updated_at
    → scope host c.stream_id ≡ ok key
    → write_row host key c rows ≡ (ok kept, after)
    → IsLoaded host c kept after
unfolding write_row IsLoaded
written-IsLoaded host c rows key {kept} {after} made state date named h =
    let row = checkpoint_row host key c in
    let e : c ≡ kept = ground arith in
    let f : upsert row rows ≡ after = ground arith in
    let there : find_row c.projection_name c.projection_version key (upsert row rows) ≡ some row =
      unfold checkpoint_row in find_row-upsert_self row rows in
    let decoded = checkpoint_from_row-checkpoint_row host c key made state date named in
    rw (sym e, sym f)
      (load-found host c c row (upsert row rows) key named there decoded, refl, refl)

-- A checkpoint that was there already is the one that is loaded.
old-IsLoaded :
    (host : Host) (c kept : ProjectionCheckpoint) (row : CheckpointRow) (rows : Checkpoints)
    (key : String)
    → scope host c.stream_id ≡ ok key
    → find_row c.projection_name c.projection_version key rows ≡ some row
    → checkpoint_from_row host row ≡ ok kept
    → c.last_global_position ≡ row.last_global_position
    → row.state_hash ≡ c.state_hash
    → IsLoaded host c kept rows
unfolding IsLoaded
old-IsLoaded host c kept row rows key named found decoded at same =
    let (position, hash) = checkpoint_from_row-fields host row decoded in
    (load-found host c kept row rows key named found decoded, position ∙ sym at, hash ∙ same)

save_over-IsLoaded :
    (host : Host) (c : ProjectionCheckpoint) (row : CheckpointRow) (rows : Checkpoints)
    (key : String) {kept : ProjectionCheckpoint} {after : Checkpoints}
    → new_checkpoint host c ≡ ok c
    → host.json_loads (host.canonical_json c.state) ≡ some c.state
    → host.fromisoformat (host.isoformat_at c.updated_at) ≡ some c.updated_at
    → scope host c.stream_id ≡ ok key
    → find_row c.projection_name c.projection_version key rows ≡ some row
    → save_over host key c (some row) rows ≡ (ok kept, after)
    → IsLoaded host c kept after
unfolding save_over
save_over-IsLoaded host c row rows key {kept} {after} made state date named found h =
    elim (Bool-cases (c.last_global_position == row.last_global_position)) [
      | inr other ↦ written-IsLoaded host c rows key made state date named (ground arith)
      | inl at ↦
          let decoded : checkpoint_from_row host row ≡ ok kept = ground arith in
          let same : row.state_hash ≡ c.state_hash =
            ground (arith, eq_iff row.state_hash c.state_hash) in
          let e : rows ≡ after = ground arith in
          rw (sym e) (old-IsLoaded host c kept row rows key named found decoded (ground arith) same)
    ]

-- A save that returns a checkpoint leaves the one in the table that a load of the same name, version and
-- stream returns. It stands at the saved position with the saved state's hash. The saved checkpoint is a
-- constructed one, whose state and date are read back from the texts that they are written as.
pub save_returned :
    (host : Host) (c : ProjectionCheckpoint) (expected : Option ℕ) (rows : Checkpoints)
    {kept : ProjectionCheckpoint} {after : Checkpoints}
    → new_checkpoint host c ≡ ok c
    → host.json_loads (host.canonical_json c.state) ≡ some c.state
    → host.fromisoformat (host.isoformat_at c.updated_at) ≡ some c.updated_at
    → save host c expected rows ≡ (ok kept, after)
    → (load host c.projection_name c.projection_version c.stream_id after ≡ ok (some kept))
      × (kept.last_global_position ≡ c.last_global_position)
      × (kept.state_hash ≡ c.state_hash)
unfolding save save_at save_over IsLoaded
save_returned host c expected rows {kept} {after} made state date h =
    elim (Outcome-cases (scope host c.stream_id)) [
      | inr (x, refused) ↦ ground arith
      | inl (key, named) ↦
          elim (Option-cases (find_row c.projection_name c.projection_version key rows)) [
            | inl fresh ↦ written-IsLoaded host c rows key made state date named (ground arith)
            | inr (row, found) ↦
                save_over-IsLoaded host c row rows key made state date named found (ground arith)
          ]
    ]
