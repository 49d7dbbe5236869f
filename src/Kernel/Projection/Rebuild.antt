-- ===== src/Kernel/Projection/Rebuild.antt =====
-- kernel/projections.py: `ProjectionRunner.rebuild`, which replays what it reads from the ledger.
use blackcell.Prelude.{ℕ, pos, String, Option, none, some, List, ◌>>=◌}
use blackcell.Host.{Host}
use blackcell.Kernel.Errors.{Result}
use blackcell.Kernel.Event.{EventEnvelope}
use blackcell.Kernel.Ledger.{Database}
use blackcell.Kernel.Reads.{read_stream, read_all}
use blackcell.Kernel.Projection.{Projection, ProjectionCheckpoint, ReplayResult, replay}

-- `checkpoint.last_global_position if checkpoint is not None else 0`
unfoldable pub after_position : Option ProjectionCheckpoint → ℕ
after_position none = 0
after_position (some c) = c.last_global_position

-- the sequence that the checkpoint has reached, or 0
unfoldable pub after_sequence : Option ProjectionCheckpoint → ℕ
after_sequence none = 0
after_sequence (some c) = elim c.last_stream_sequence [ none ↦ 0 | some n ↦ n ]

-- the events behind the checkpoint, of the whole ledger or of one stream
unfoldable pub events_behind :
    Host → Option String → Option ProjectionCheckpoint → Database → Result (List EventEnvelope)
unfolding after_position after_sequence
events_behind host none checkpoint db = read_all host (pos (after_position checkpoint)) none db
events_behind host (some stream_id) checkpoint db =
    read_stream host stream_id (pos (after_sequence checkpoint)) none none db

-- `ProjectionRunner.rebuild`
unfoldable pub rebuild :
    {S : Type 0}
    → Projection S
    → Host
    → Option String
    → Option ProjectionCheckpoint
    → Database
    → Result (ReplayResult S)
unfolding events_behind
rebuild projection host stream_id checkpoint db = do
  events ← events_behind host stream_id checkpoint db
  replay projection host events checkpoint
