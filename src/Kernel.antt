-- ===== src/Kernel.antt =====
-- The kernel: event envelopes, the SQLite event ledger and projections (src/blackcell/kernel).
pub mod Errors
pub mod Event
pub mod Ledger
pub mod Append
pub mod Transaction
pub mod Store
pub mod Projection
pub mod Streams
pub mod Writers
pub mod Retry
pub mod Reads
pub mod Tests
