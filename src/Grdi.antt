-- ===== src/Grdi.antt =====
-- src/phigraph/grdi: the locks of its transactions, and who may plan and simulate an action.
pub mod LedgerOps
pub mod Models
pub mod Receipts
pub mod Authority
pub mod ExecutionGateway
pub mod OutcomeLedger
pub mod Dicts
pub mod Events
pub mod Projection
pub mod Arguments
pub mod Rows
mod Tests
