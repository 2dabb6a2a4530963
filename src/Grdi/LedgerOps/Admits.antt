-- ===== src/Grdi/LedgerOps/Admits.antt =====
-- The locks of each transaction admit the writes that the service makes in it
-- (src/phigraph/grdi/service.py), whatever order they are taken in.
use Prim.Native.String.{◌++◌ as text_append}
use phigraph.Prelude.{String, ◌≡◌, refl, ap, ◌∙◌, some, List, [], ◌∷◌, All, inl, inr}
use phigraph.Prelude.Sort.{Occurs}
use phigraph.Python.Errors.{ok, >>-eq-ok, >>=-eq-ok}
use phigraph.Transactions.Collections.{is_chain_linked_collection, gateway_event_canonical_key}
use phigraph.Transactions.Locks.{
  LockRef, post_init, normalize_lock_refs, build_lock_context, require_write_locks,
}
use phigraph.Transactions.Locks.Context.{require_write_locks_iff}
use phigraph.Grdi.LedgerOps.{
  Scope, canonical_lock, chain_lock, constructed, envelope_locks, authority_locks,
  execution_plan_locks, simulation_locks, outcome_locks, backfill_locks,
}

-- The transaction with these references may write under the collection and the key.
abbrev pub Admits : List LockRef → String × String → Type 0
Admits refs (collection, key) =
    require_write_locks (some (build_lock_context (normalize_lock_refs refs))) collection key
      (is_chain_linked_collection collection)
    ≡ ok tt

ok-inj : {A : Type 0} {a b : A} → ok a ≡ ok b → a ≡ b
ok-inj h = cc

constructed-eq-ok : (raw refs : List LockRef) → constructed raw ≡ ok refs → raw ≡ refs
unfolding constructed
constructed-eq-ok [] refs h = ok-inj h
constructed-eq-ok (ref ∷ raw) refs h =
    let (checked, more) = >>-eq-ok (post_init ref) _ h in
    let (rest, built, whole) = >>=-eq-ok (constructed raw) (λ rest. ok (ref ∷ rest)) more in
    ap (λ xs. ref ∷ xs) (constructed-eq-ok raw rest built) ∙ ok-inj whole

abbrev pub event_key : String → String → String
event_key plan_id event_type = text_append plan_id (text_append ":" event_type)

-- A write is admitted where both of its locks are among the references.
declared :
    (s : Scope) (refs : List LockRef) (collection key : String)
    → Occurs (chain_lock s collection) refs
    → Occurs (canonical_lock s collection key) refs
    → Admits refs (collection, key)
declared s refs collection key c k = (require_write_locks_iff refs collection key _).1 (
  λ need. (chain_lock s collection, c, (refl, refl)),
  (canonical_lock s collection key, k, (refl, refl, refl)),
)

-- The transaction of an envelope may write it.
pub envelope_locks-Admits :
    (s : Scope) (envelope_id : String) (refs : List LockRef)
    → envelope_locks s envelope_id ≡ ok refs
    → All (Admits refs) (("decision_envelopes", envelope_id) ∷ [])
unfolding envelope_locks
envelope_locks-Admits s envelope_id refs h =
    rw⁻¹ (constructed-eq-ok _ refs h)
      (declared s _ "decision_envelopes" _ (inl refl) (inr (inl refl)), tt)

-- The transaction of an authority decision may write it.
pub authority_locks-Admits :
    (s : Scope) (envelope_id authority_decision_id : String) (refs : List LockRef)
    → authority_locks s envelope_id authority_decision_id ≡ ok refs
    → All (Admits refs) (("authority_decisions", authority_decision_id) ∷ [])
unfolding authority_locks
authority_locks-Admits s envelope_id authority_decision_id refs h =
    rw⁻¹ (constructed-eq-ok _ refs h)
      (declared s _ "authority_decisions" _ (inr (inr (inl refl))) (inr (inr (inr (inl refl)))), tt)

-- The transaction of a plan, once its locks are constructed, may write the execution request, the
-- gateway decision and the event of its creation.
pub execution_plan_locks-Admits :
    (s : Scope) (envelope_id authority_decision_id plan_id : String) (refs : List LockRef)
    → execution_plan_locks s envelope_id authority_decision_id plan_id ≡ ok refs
    → All (Admits refs) (
        ("execution_requests", plan_id)
        ∷ ("gateway_decisions", plan_id)
        ∷ ("gateway_decision_events", (event_key plan_id "GATEWAY_DECISION_CREATED"))
        ∷ [])
unfolding execution_plan_locks gateway_event_canonical_key
execution_plan_locks-Admits s envelope_id authority_decision_id plan_id refs h =
    rw⁻¹ (constructed-eq-ok _ refs h) (
      declared s _ "execution_requests" _ (inr (inr (inr (inr (inl refl)))))
          (inr (inr (inr (inr (inr (inl refl)))))),
      (
        declared s _ "gateway_decisions" _ (inr (inr (inr (inr (inr (inr (inl refl)))))))
            (inr (inr (inr (inr (inr (inr (inr (inl refl)))))))),
        (
          declared s _ "gateway_decision_events" _
              (inr (inr (inr (inr (inr (inr (inr (inr (inl refl)))))))))
              (inr (inr (inr (inr (inr (inr (inr (inr (inr (inl refl)))))))))),
          tt,
        ),
      ),
    )

-- The transaction of a simulation, once its locks are constructed, may write the shadow receipt
-- and the event of the simulation.
pub simulation_locks-Admits :
    (s : Scope) (plan_id authority_decision_id : String) (refs : List LockRef)
    → simulation_locks s plan_id authority_decision_id ≡ ok refs
    → All (Admits refs) (
        ("shadow_execution_receipts", plan_id)
        ∷ ("gateway_decision_events", (event_key plan_id "SIMULATION_RECORDED"))
        ∷ [])
unfolding simulation_locks gateway_event_canonical_key
simulation_locks-Admits s plan_id authority_decision_id refs h = rw⁻¹ (constructed-eq-ok _ refs h) (
  declared s _ "shadow_execution_receipts" _ (inr (inr (inr (inl refl))))
      (inr (inr (inr (inr (inl refl))))),
  (
    declared s _ "gateway_decision_events" _ (inr (inr (inr (inr (inr (inl refl))))))
        (inr (inr (inr (inr (inr (inr (inl refl))))))),
    tt,
  ),
)

-- The transaction of an outcome may write it under the receipt's id.
pub outcome_locks-Admits :
    (s : Scope) (plan_id shadow_receipt_id : String) (refs : List LockRef)
    → outcome_locks s plan_id shadow_receipt_id ≡ ok refs
    → All (Admits refs) (("shadow_outcomes", shadow_receipt_id) ∷ [])
unfolding outcome_locks
outcome_locks-Admits s plan_id shadow_receipt_id refs h = rw⁻¹ (constructed-eq-ok _ refs h) (
  declared s _ "shadow_outcomes" _ (inr (inr (inr (inl refl)))) (inr (inr (inr (inr (inl refl))))),
  tt,
)

-- The transaction of a backfill, once its locks are constructed, may write both gateway events.
pub backfill_locks-Admits :
    (s : Scope) (plan_id : String) (refs : List LockRef)
    → backfill_locks s plan_id ≡ ok refs
    → All (Admits refs) (
        ("gateway_decision_events", (event_key plan_id "GATEWAY_DECISION_CREATED"))
        ∷ ("gateway_decision_events", (event_key plan_id "SIMULATION_RECORDED"))
        ∷ [])
unfolding backfill_locks gateway_event_canonical_key
backfill_locks-Admits s plan_id refs h = rw⁻¹ (constructed-eq-ok _ refs h) (
  declared s _ "gateway_decision_events" _ (inr (inr (inl refl))) (inr (inr (inr (inl refl)))),
  (
    declared s _ "gateway_decision_events" _ (inr (inr (inl refl)))
        (inr (inr (inr (inr (inl refl))))),
    tt,
  ),
)
