-- ===== src/Grdi/ExecutionGateway/Eligible.antt =====
-- What makes a plan eligible, and what a simulation says of it.
use phigraph.Prelude.{
  String, ◌≡◌, refl, sym, ap, ◌∙◌, Bool, true, false, not, ◌||◌, Option, none, some, List, [], ◌∷◌,
  arith, ◌==◌, eq_iff, not-eq_false, All, ◌↔◌,
}
use phigraph.Python.Errors.{Error, Result, ok, err}
use phigraph.Grdi.Models.{
  Host, VerificationState, ExecutabilityState, ExecutionState, verified, not_verified,
  AuthorizationState, authorized, not_authorized, requires_approval, not_executable, executable,
  not_executed, executed, GatewayEligibilityState, eligible_for_shadow, blocked, DecisionEnvelope,
  AuthorityDecision, ExecutionRequest, GatewayDecision, ShadowExecutionReceipt, action_hash,
}
use phigraph.Grdi.Receipts.{ReceiptSigner, verify, verify-sign}
use phigraph.Grdi.ExecutionGateway.{
  reasons_of, conditions, eligibility_of, evaluate, normalized_plan, simulate, simulate_eligible,
  when_eligible, is_eligible, is_requires_approval, is_not_authorized, is_verified,
  is_not_executable, is_not_executed,
}

-- The plan, the envelope and the authority decision belong together, in the caller's scope; the
-- envelope is verified and authorized; the planned action is the one that was proposed, by hash.
pub record IsPlannable (host : Host) (envelope : DecisionEnvelope) (authority : AuthorityDecision)
    (request : ExecutionRequest) (tenant_id project_id : String) : Type 0 where
  pub tenant : tenant_id ≡ envelope.tenant_id
  pub project : project_id ≡ envelope.project_id
  pub request_tenant : request.tenant_id ≡ tenant_id
  pub request_project : request.project_id ≡ project_id
  pub of_envelope : authority.envelope_id ≡ envelope.envelope_id
  pub for_envelope : request.envelope_id ≡ envelope.envelope_id
  pub by_authority : request.authority_decision_id ≡ authority.authority_decision_id
  pub authorization : authority.authorization_state ≡ authorized
  pub verification : authority.verification_state ≡ verified
  pub executability : authority.executability_state ≡ not_executable
  pub execution : authority.execution_state ≡ not_executed
  pub proposed : request.action_hash ≡ action_hash host envelope.proposed_action
  pub requested : action_hash host request.requested_action ≡ request.action_hash

true≢false : true ≡ false → ⊥
true≢false h = cc

blocked≢eligible : blocked ≡ eligible_for_shadow → ⊥
blocked≢eligible h = cc

err≢ok : {A : Type 0} {x : Error} {a : A} → err x ≡ ok a → ⊥
err≢ok h = cc

ok-inj : {A : Type 0} {a b : A} → ok a ≡ ok b → a ≡ b
ok-inj h = cc

eligible-reasons_of :
    (cs : List (Bool × String))
    → (eligibility_of (reasons_of cs) ≡ eligible_for_shadow) ↔ All (λ c. c.0 ≡ false) cs
unfolding reasons_of
eligible-reasons_of [] = (λ h. tt, λ h. refl)
eligible-reasons_of ((true, reason) ∷ rest) =
    (λ h. absurd (blocked≢eligible h), λ h. absurd (true≢false h.0))
eligible-reasons_of ((false, reason) ∷ rest) =
    let more = eligible-reasons_of rest in (λ h. (refl, more.0 h), λ h. more.1 h.1)

apart-false : (a b : String) → not (a == b) ≡ false → a ≡ b
apart-false a b h = (eq_iff a b).0 (not-eq_false (a == b) h)

apart_refl : (a b : String) → a ≡ b → not (a == b) ≡ false
apart_refl a b h = rw ((eq_iff a b).1 h) refl

neither : (a b c d : String) → (not (a == b) || not (c == d)) ≡ false → (a ≡ b) × (c ≡ d)
neither a b c d h = (apart-false a b (ground arith), apart-false c d (ground arith))

is_authorized :
    (a : AuthorizationState)
    → is_requires_approval a ≡ false
    → is_not_authorized a ≡ false
    → a ≡ authorized
is_authorized authorized h k = refl
is_authorized not_authorized h k = absurd (true≢false k)
is_authorized requires_approval h k = absurd (true≢false h)

verified_only : (v : VerificationState) → not (is_verified v) ≡ false → v ≡ verified
verified_only verified h = refl
verified_only not_verified h = absurd (true≢false h)

never_executable : (x : ExecutabilityState) → not (is_not_executable x) ≡ false → x ≡ not_executable
never_executable not_executable h = refl
never_executable executable h = absurd (true≢false h)

never_executed : (x : ExecutionState) → not (is_not_executed x) ≡ false → x ≡ not_executed
never_executed not_executed h = refl
never_executed executed h = absurd (true≢false h)

module _ (host : Host) (envelope : DecisionEnvelope) (authority : AuthorityDecision)
    (request : ExecutionRequest) where
  -- The gateway calls a plan eligible for shadow execution exactly when plan, envelope and authority
  -- decision belong together in the caller's scope, the decision is a verified authorization that
  -- executes nothing, and the planned action is the proposed one by its hash.
  pub evaluate_eligible_iff :
      (new_id now tenant_id project_id : String)
      → ((evaluate host new_id now envelope authority request tenant_id project_id).eligibility
          ≡ eligible_for_shadow)
        ↔ IsPlannable host envelope authority request tenant_id project_id
  unfolding evaluate
  evaluate_eligible_iff new_id now tenant_id project_id =
      let flags =
        eligible-reasons_of (conditions host envelope authority request tenant_id project_id) in
      (
        λ h.
            let (
              scope,
              (asked, (of_it, (for_it, (by_it, (ra, (na, (nv, (ne, (nx, (ph, (rh, rest))))))))))),
            ) =
              flags.0 h in
            record {
              tenant = (neither _ _ _ _ scope).0;
              project = (neither _ _ _ _ scope).1;
              request_tenant = (neither _ _ _ _ asked).0;
              request_project = (neither _ _ _ _ asked).1;
              of_envelope = apart-false _ _ of_it;
              for_envelope = apart-false _ _ for_it;
              by_authority = apart-false _ _ by_it;
              authorization = is_authorized _ ra na;
              verification = verified_only _ nv;
              executability = never_executable _ ne;
              execution = never_executed _ nx;
              proposed = apart-false _ _ ph;
              requested = apart-false _ _ rh;
            },
        λ p. flags.1 (
          rw (apart_refl _ _ p.tenant, apart_refl _ _ p.project) refl,
          (
            rw (apart_refl _ _ p.request_tenant, apart_refl _ _ p.request_project) refl,
            (
              apart_refl _ _ p.of_envelope,
              (
                apart_refl _ _ p.for_envelope,
                (
                  apart_refl _ _ p.by_authority,
                  (
                    rw p.authorization refl,
                    (
                      rw p.authorization refl,
                      (
                        rw p.verification refl,
                        (
                          rw p.executability refl,
                          (
                            rw p.execution refl,
                            (apart_refl _ _ p.proposed, (apart_refl _ _ p.requested, (tt))),
                          ),
                        ),
                      ),
                    ),
                  ),
                ),
              ),
            ),
          ),
        ),
      )

  when_eligible-ok :
      {A : Type 0} (b : Bool) (r : Result A) (a : A)
      → when_eligible b r ≡ ok a
      → (b ≡ true) × (r ≡ ok a)
  when_eligible-ok true r a h = (refl, h)
  when_eligible-ok false r a h = absurd (err≢ok h)

  eligible_only : (g : GatewayEligibilityState) → is_eligible g ≡ true → g ≡ eligible_for_shadow
  eligible_only eligible_for_shadow h = refl
  eligible_only blocked h = absurd (true≢false (sym h))

  -- A simulation that returns was of an eligible plan, and its receipt says that nothing was
  -- executed, that there were no side effects and no connector was invoked, and carries a plan that
  -- verifies with the configured signer, where the comparison of two equal digests holds.
  pub simulate-verify :
      (o : Option ReceiptSigner) (new_id now : String) (gateway : GatewayDecision)
      (receipt : ShadowExecutionReceipt)
      → ((key text : String)
          → host.compare_digest (host.hmac key text) (host.hmac key text) ≡ ok true)
      → simulate host o new_id now envelope authority request gateway ≡ ok receipt
      → (gateway.eligibility ≡ eligible_for_shadow)
        × (receipt.executed ≡ false)
        × (receipt.external_side_effects ≡ false)
        × (receipt.connector_invoked ≡ false)
        × ((signer : ReceiptSigner) × (o ≡ some signer)
            × (verify host signer receipt.normalized_plan ≡ ok true))
  unfolding simulate simulate_eligible
  simulate-verify none new_id now gateway receipt equal h =
      absurd (err≢ok (when_eligible-ok (is_eligible gateway.eligibility) _ receipt h).1)
  simulate-verify (some signer) new_id now gateway receipt equal h =
      let (eligible, made) = when_eligible-ok (is_eligible gateway.eligibility) _ receipt h in
      let same = ok-inj made in
      (
        eligible_only gateway.eligibility eligible,
        sym (ap (λ x. x.executed) same),
        sym (ap (λ x. x.external_side_effects) same),
        sym (ap (λ x. x.connector_invoked) same),
        (
          signer,
          refl,
          ap (λ x. verify host signer x.normalized_plan) (sym same)
              ∙ verify-sign host signer (normalized_plan envelope authority request gateway) equal,
        ),
      )
