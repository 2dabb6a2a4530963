-- ===== src/Grdi/LedgerOps.antt =====
-- The lock references of each GRDI transaction (src/phigraph/grdi/ledger_ops.py). A reference is
-- checked when it is constructed, so that a builder may raise.
pub mod Admits
use phigraph.Prelude.{String, List, [], ◌∷◌, ◌++◌}
use phigraph.Python.Errors.{Result, ok, ◌>>=◌, ◌>>◌}
use phigraph.Transactions.Collections.{gateway_event_canonical_key}
use phigraph.Transactions.Locks.{LockRef, chain, canonical, post_init}

-- The scope that every reference of a builder has.
pub record Scope : Type 0 where
  pub tenant_id : String
  pub project_id : String

-- `canonical_lock`, before the check
abbrev pub canonical_lock : Scope → String → String → LockRef
canonical_lock s collection canonical_key = record {
  tenant_id = s.tenant_id;
  project_id = s.project_id;
  collection = collection;
  kind = canonical;
  canonical_key = canonical_key;
}

-- `chain_lock`, before the check
abbrev pub chain_lock : Scope → String → LockRef
chain_lock s collection = record {
  tenant_id = s.tenant_id;
  project_id = s.project_id;
  collection = collection;
  kind = chain;
  canonical_key = "";
}

-- The construction of the references, in order.
unfoldable pub constructed : List LockRef → Result (List LockRef)
constructed [] = ok []
constructed (ref ∷ refs) = do post_init ref; rest ← constructed refs; ok (ref ∷ rest)

abbrev pub envelope_refs : Scope → String → List LockRef
envelope_refs s envelope_id =
    chain_lock s "decision_envelopes" ∷ canonical_lock s "decision_envelopes" envelope_id ∷ []

unfoldable pub envelope_locks : Scope → String → Result (List LockRef)
envelope_locks s envelope_id = constructed (envelope_refs s envelope_id)

abbrev pub authority_refs : Scope → String → String → List LockRef
authority_refs s envelope_id authority_decision_id =
    envelope_refs s envelope_id
    ++ chain_lock s "authority_decisions"
      ∷ canonical_lock s "authority_decisions" authority_decision_id
      ∷ []

unfoldable pub authority_locks : Scope → String → String → Result (List LockRef)
authority_locks s envelope_id authority_decision_id =
    constructed (authority_refs s envelope_id authority_decision_id)

unfoldable pub execution_plan_locks : Scope → String → String → String → Result (List LockRef)
execution_plan_locks s envelope_id authority_decision_id plan_id = do
  created_event_key ← gateway_event_canonical_key plan_id "GATEWAY_DECISION_CREATED"
  constructed (
      authority_refs s envelope_id authority_decision_id
      ++ chain_lock s "execution_requests"
        ∷ canonical_lock s "execution_requests" plan_id
        ∷ chain_lock s "gateway_decisions"
        ∷ canonical_lock s "gateway_decisions" plan_id
        ∷ chain_lock s "gateway_decision_events"
        ∷ canonical_lock s "gateway_decision_events" created_event_key
        ∷ [])

unfoldable pub simulation_locks : Scope → String → String → Result (List LockRef)
simulation_locks s plan_id authority_decision_id = do
  simulation_event_key ← gateway_event_canonical_key plan_id "SIMULATION_RECORDED"
  constructed (
      canonical_lock s "execution_requests" plan_id
      ∷ canonical_lock s "gateway_decisions" plan_id
      ∷ canonical_lock s "authority_decisions" authority_decision_id
      ∷ chain_lock s "shadow_execution_receipts"
      ∷ canonical_lock s "shadow_execution_receipts" plan_id
      ∷ chain_lock s "gateway_decision_events"
      ∷ canonical_lock s "gateway_decision_events" simulation_event_key
      ∷ [])

unfoldable pub outcome_locks : Scope → String → String → Result (List LockRef)
outcome_locks s plan_id shadow_receipt_id = constructed (
    canonical_lock s "execution_requests" plan_id
    ∷ canonical_lock s "gateway_decisions" plan_id
    ∷ canonical_lock s "shadow_execution_receipts" plan_id
    ∷ chain_lock s "shadow_outcomes"
    ∷ canonical_lock s "shadow_outcomes" shadow_receipt_id
    ∷ [])

unfoldable pub backfill_locks : Scope → String → Result (List LockRef)
backfill_locks s plan_id = do
  created_event_key ← gateway_event_canonical_key plan_id "GATEWAY_DECISION_CREATED"
  simulation_event_key ← gateway_event_canonical_key plan_id "SIMULATION_RECORDED"
  constructed (
      canonical_lock s "gateway_decisions" plan_id
      ∷ canonical_lock s "shadow_execution_receipts" plan_id
      ∷ chain_lock s "gateway_decision_events"
      ∷ canonical_lock s "gateway_decision_events" created_event_key
      ∷ canonical_lock s "gateway_decision_events" simulation_event_key
      ∷ [])

unfoldable pub replay_snapshot_locks : Scope → String → Result (List LockRef)
replay_snapshot_locks s plan_id = constructed (
    chain_lock s "decision_envelopes"
    ∷ chain_lock s "authority_decisions"
    ∷ chain_lock s "execution_requests"
    ∷ chain_lock s "gateway_decisions"
    ∷ chain_lock s "gateway_decision_events"
    ∷ chain_lock s "shadow_execution_receipts"
    ∷ chain_lock s "shadow_outcomes"
    ∷ chain_lock s "replay_reports"
    ∷ canonical_lock s "execution_requests" plan_id
    ∷ [])

unfoldable pub comparison_snapshot_locks : Scope → Result (List LockRef)
comparison_snapshot_locks s =
    constructed (chain_lock s "replay_reports" ∷ chain_lock s "historical_comparisons" ∷ [])

unfoldable pub replay_locks : Scope → String → String → Result (List LockRef)
replay_locks s plan_id manifest_hash = constructed (
    canonical_lock s "execution_requests" plan_id
    ∷ chain_lock s "replay_reports"
    ∷ canonical_lock s "replay_reports" manifest_hash
    ∷ [])

unfoldable pub comparison_locks : Scope → String → String → String → Result (List LockRef)
comparison_locks s baseline_manifest_hash candidate_manifest_hash comparison_key = constructed (
    canonical_lock s "replay_reports" baseline_manifest_hash
    ∷ canonical_lock s "replay_reports" candidate_manifest_hash
    ∷ chain_lock s "historical_comparisons"
    ∷ canonical_lock s "historical_comparisons" comparison_key
    ∷ [])
