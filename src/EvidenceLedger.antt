-- ===== src/EvidenceLedger.antt =====
-- src/phigraph/core_v3/ledger.py, models.py and backends.py: the evidence ledger, whose
-- collections are hash chains in one file.
pub mod Models
pub mod Chain
pub mod Registers
pub mod Verifications
pub mod Extensions
pub mod Queries
pub mod Walks
pub mod Validity
pub mod Kept
pub mod Writes
pub mod Updates
pub mod Runs
mod Tests
pub mod Tamper
pub mod Once
pub mod Sqlite
