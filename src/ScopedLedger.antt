-- ===== src/ScopedLedger.antt =====
-- src/phigraph/core_v3/scoped_ledger.py: the scoped transactional ledger over the JSON backend.
pub mod Abstract
pub mod Changes
pub mod History
pub mod Rows
pub mod Validate
pub mod Store
pub mod Append
pub mod Cas
pub mod Query
pub mod Engine
pub mod Session
pub mod Verify
pub mod Invariant
pub mod Tests
