-- ===== src/Lib.antt =====
-- blackcell: the event ledger, its projections, the folds of runs, reviews and
-- verifications, the plan compiler and the model gateway.
--
-- The Python package src/blackcell is a local daemon that records everything in an append-only event
-- ledger and works out each run's state by folding the run's stream. This library models:
--
-- * the kernel. `Kernel.Event` is the envelope of src/blackcell/kernel/events.py and the checks of its
--   constructor. `Kernel.Ledger` holds the two tables of kernel/database.py, with the constraints that
--   SQLite enforces (`violates`), and the SQL statements of kernel/store.py as functions on them.
--   `Kernel.Append` has the checks of one batch (`_validate_append_request`, `_validate_batch_stream`,
--   `_validate_existing_batch_order`, …), `Kernel.Transaction` the monad of a transaction, a function
--   of the tables that may raise, and `Kernel.Store` the operations `append`, `append_many` and
--   `append_many_in_transaction`, with the rollback. `Kernel.Reads` has the reads, as a test on rows, an
--   order and a limit. `Kernel.Projection` is kernel/projections.py: the
--   checkpoint with its constructor and `ProjectionRunner.replay`, with `rebuild` in
--   `Kernel.Projection.Rebuild`; `Kernel.Projection.Table` is the checkpoint table, whose rows hold
--   states and dates as texts, with `CheckpointStore.load` and `save`.
-- * the run lifecycle, src/blackcell/orchestration/run_lifecycle.py. `Lifecycle.State` has the
--   variables of `fold_run_lifecycle` as the record `Fold`, `Lifecycle.Fields` and `Lifecycle.Guards`
--   the readers of a payload, `Lifecycle.Lease`, `Lifecycle.Attempt`, `Lifecycle.Cleanup` and
--   `Lifecycle.Terminal` the branches on the event type, one function each, and `Lifecycle.Fold` the
--   checks of the stream, the loop and the checks behind it. `Lifecycle.Step` is the abstract view, a
--   relation of moves on nodes and lease.
-- * the gateway to model providers, src/blackcell/gateway. `Gateway` has the data of models.py and
--   profiles.py and the selection of a route (`select`); `Gateway.Call` the constructor's check and the
--   prepared call of router.py, and `Gateway.Invoke` its invocation. The adapter is a parameter.
--   `Gateway.Schema` is gateway/schema.py, which checks a schema and an output against it; its
--   exceptions are tests here, without their messages.
-- * the plan compiler and the policy kernel, src/blackcell/orchestration/execution_plan.py. `Plan` has
--   the order of a plan's tasks, `Plan.Texts` the readers of identifiers, paths and tuples,
--   `Plan.Specs` goals, checks and tasks with their constructors, `Plan.Whole` the plan with the check
--   of its writers, `Plan.Payload` the payloads and `Plan.Reading` their readers, `Plan.Compile` the
--   compilation of a planner's draft, `Plan.Policy` requests, evidence and `ExecutionPolicyKernel`, and
--   `Plan.Planning` what a planner is asked and answers.
-- * the fold of a verification, src/blackcell/orchestration/verification_lifecycle.py. `Verify` has the
--   readers, `Verify.Lease` candidates and leases, `Verify.State` the variables of the fold,
--   `Verify.Fold` a function for each event type, and `Verify.Stream` the loop. `Verify.Move` is the
--   abstract view, a relation of moves.
-- * the fold of a review, src/blackcell/orchestration/review_lifecycle.py, in the same way in `Review`:
--   `Review.Lease`, `Review.State`, `Review.Guards` and `Review.Fold`, `Review.Stream`, and the moves
--   in `Review.Move`.
--
-- The three folds read what the ledger holds: they and it use `Kernel.Event.EventEnvelope`.
--
-- `Json` is JSON as the code's frozen values have it. `Host` holds what is called of Python's library
-- and cannot be read here: SHA-256, JSON text, ISO dates, Unicode tables and paths. It is an argument
-- of every function that uses it. Where a theorem needs more of it, this is a hypothesis, such as
-- `HasHexDigests`. `Samples` has a concrete one for the tests, which stand in modules named `Tests`,
-- `Examples` or `Runs`. Datetimes are UTC instants in microseconds, exceptions are values of an `Outcome`.
-- An SQL connection is the state of the tables and three flags. The loops of the source run over
-- given sequences, so that the functions here recur on lists, but for the `while` loop of
-- `_topological_order`, which is given as many rounds as there are tasks (`Plan.Ends`).
--
-- Not modelled: migrations, the artifact files, the HTTP and terminal
-- surfaces, the command line, configuration, process and git adapters and telemetry, which are mostly
-- input and output; the replay and, but for one request that it builds
-- (`Plan.Policy.Repair`), the execution runtime.
pub mod Prelude
pub mod Json
pub mod Host
pub mod Samples
pub mod Kernel
pub mod Lifecycle
pub mod Gateway
pub mod Plan
pub mod Verify
pub mod Review
