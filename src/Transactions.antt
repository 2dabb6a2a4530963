-- ===== src/Transactions.antt =====
-- src/phigraph/core_v3/transactions.py: the types of the transactional ledger, its collections,
-- its hashes and its locks. The proofs are in the modules below.
pub mod Collections
pub mod Hashes
pub mod Locks
