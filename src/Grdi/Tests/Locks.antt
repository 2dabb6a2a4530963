-- ===== src/Grdi/Tests/Locks.antt =====
-- The locks of the GRDI transactions, and of a sample transaction.
use phigraph.Prelude.{◌↔◌, ◌≡◌, refl, true, some, List, [], ◌∷◌, All, ◌↔◌}
use phigraph.Python.Errors.{Result, ok, err}
use phigraph.Transactions.Collections.{gateway_event_canonical_key}
use phigraph.Prelude.Precedes.{Precedes}
use phigraph.Transactions.Locks.{
  chain, canonical, LockRef, LockRef, post_init, normalize_lock_refs, build_lock_context,
  require_write_locks,
}
use phigraph.Prelude.Sort.{Occurs}
use phigraph.Transactions.Locks.Ordered.{
  ComesBefore, in_collection, by_kind, normalize_lock_refs-Precedes,
}
use phigraph.Transactions.Locks.Context.{
  Declares, IsChainOf, IsCanonicalOf, require_write_locks_iff,
}
use phigraph.ScopedLedger.Tests.Samples.{locks}
use phigraph.Grdi.LedgerOps.{Scope, constructed, execution_plan_locks, simulation_locks}
use phigraph.Grdi.LedgerOps.Admits.{
  Admits, event_key, execution_plan_locks-Admits, simulation_locks-Admits,
}

abbrev scope : Scope
scope = record { tenant_id = "t"; project_id = "p" }

abbrev refs_of : Result (List LockRef) → List LockRef
refs_of (ok refs) = refs
refs_of (err e) = []

abbrev plan_locks : List LockRef
plan_locks = refs_of (execution_plan_locks scope "de_1" "ad_1" "ep_1")

plan_locks_constructed : execution_plan_locks scope "de_1" "ad_1" "ep_1" ≡ ok plan_locks
unfolding execution_plan_locks constructed post_init gateway_event_canonical_key
plan_locks_constructed = refl

execution_plan_locks-Admits_example : All (Admits plan_locks) (
    ("execution_requests", "ep_1")
    ∷ ("gateway_decisions", "ep_1")
    ∷ ("gateway_decision_events", event_key "ep_1" "GATEWAY_DECISION_CREATED")
    ∷ [])
execution_plan_locks-Admits_example =
    execution_plan_locks-Admits scope "de_1" "ad_1" "ep_1" plan_locks plan_locks_constructed

abbrev simulation_refs : List LockRef
simulation_refs = refs_of (simulation_locks scope "ep_1" "ad_1")

simulation_locks_constructed : simulation_locks scope "ep_1" "ad_1" ≡ ok simulation_refs
unfolding simulation_locks constructed post_init gateway_event_canonical_key
simulation_locks_constructed = refl

simulation_locks-Admits_example : All (Admits simulation_refs) (
    ("shadow_execution_receipts", "ep_1")
    ∷ ("gateway_decision_events", event_key "ep_1" "SIMULATION_RECORDED")
    ∷ [])
simulation_locks-Admits_example =
    simulation_locks-Admits scope "ep_1" "ad_1" simulation_refs simulation_locks_constructed

abbrev chain_lock : LockRef
chain_lock = record {
  tenant_id = "tenant";
  project_id = "project";
  collection = "decision_envelopes";
  kind = chain;
  canonical_key = "";
}

abbrev envelope_lock : LockRef
envelope_lock = record chain_lock { kind = canonical; canonical_key = "e1" }

normalize_lock_refs-Precedes_example :
    Precedes chain_lock envelope_lock
      (normalize_lock_refs (envelope_lock ∷ chain_lock ∷ envelope_lock ∷ []))
    ↔ (Occurs chain_lock (envelope_lock ∷ chain_lock ∷ envelope_lock ∷ [])
        × Occurs envelope_lock (envelope_lock ∷ chain_lock ∷ envelope_lock ∷ [])
        × ComesBefore chain_lock envelope_lock)
normalize_lock_refs-Precedes_example =
    normalize_lock_refs-Precedes (envelope_lock ∷ chain_lock ∷ envelope_lock ∷ []) chain_lock
      envelope_lock

chain_lock_first : ComesBefore chain_lock envelope_lock
chain_lock_first = in_collection refl refl refl (by_kind refl refl)

require_write_locks_iff_example :
    (require_write_locks
        (some (build_lock_context (normalize_lock_refs locks)))
        "decision_envelopes"
        "e1"
        true
      ≡ ok tt)
    ↔ ((true ≡ true → Declares (IsChainOf "decision_envelopes") locks)
        × Declares (IsCanonicalOf "decision_envelopes" "e1") locks)
require_write_locks_iff_example = require_write_locks_iff locks "decision_envelopes" "e1" true
