-- ===== src/Kernel/Errors.antt =====
-- kernel/errors.py, and the built-in exceptions that the kernel raises.
use blackcell.Prelude.{ℕ, String, Outcome}

pub data KernelError : Type 0 where
  -- the stream, the expected sequence and the actual one
  concurrency : String → ℕ → ℕ → KernelError
  event_sequence event_conflict idempotency_conflict event_integrity : KernelError
  projection_conflict : KernelError
  value_error type_error runtime_error : KernelError
  -- `sqlite3.IntegrityError`, where no handler turns it into another exception
  sqlite_integrity : KernelError

abbrev pub Result {ℓ} : Type ℓ → Type ℓ
Result = Outcome KernelError
