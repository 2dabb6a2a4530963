-- ===== src/ScopedLedger/Tests.antt =====
-- Runs of the engine on small inputs.
pub mod Samples
mod Writes
mod Transactions
