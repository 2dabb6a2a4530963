-- ===== src/Grdi/ExecutionGateway.antt =====
-- `ExecutionGateway` of src/phigraph/grdi/execution_gateway.py.
pub mod Eligible
use phigraph.Prelude.{String, Bool, true, false, not, ◌||◌, Option, none, some, List, [], ◌∷◌, ◌==◌}
use phigraph.Python.Values.{Json, bool, str, arr, obj, Items, nil, cons, Fields, end, field}
use phigraph.Python.Errors.{Result, ok, err, value_error}
use phigraph.Grdi.Models.{
  Host, VerificationState, verified, not_verified, AuthorizationState, authorized, not_authorized,
  requires_approval, ExecutabilityState, executable, not_executable, ExecutionState, executed,
  not_executed, GatewayEligibilityState, eligible_for_shadow, blocked, not_simulated,
  DecisionEnvelope, AuthorityDecision, ExecutionRequest, GatewayDecision, ShadowExecutionReceipt,
  grdi_version, action_hash,
}
use phigraph.Grdi.Receipts.{ReceiptSigner, sign}

-- The reasons whose condition holds, in order.
unfoldable pub reasons_of : List (Bool × String) → List String
reasons_of [] = []
reasons_of ((true, reason) ∷ rest) = reason ∷ reasons_of rest
reasons_of ((false, reason) ∷ rest) = reasons_of rest

abbrev pub is_requires_approval : AuthorizationState → Bool
is_requires_approval requires_approval = true
is_requires_approval _ = false

abbrev pub is_not_authorized : AuthorizationState → Bool
is_not_authorized not_authorized = true
is_not_authorized _ = false

abbrev pub is_verified : VerificationState → Bool
is_verified verified = true
is_verified not_verified = false

abbrev pub is_not_executable : ExecutabilityState → Bool
is_not_executable not_executable = true
is_not_executable executable = false

abbrev pub is_not_executed : ExecutionState → Bool
is_not_executed not_executed = true
is_not_executed executed = false

-- The conditions of `evaluate`. There are three authorization states, so that the last branch on
-- them is never taken.
abbrev pub conditions :
    Host
    → DecisionEnvelope
    → AuthorityDecision
    → ExecutionRequest
    → String
    → String
    → List (Bool × String)
conditions host envelope authority request tenant_id project_id =
    (
      not (tenant_id == envelope.tenant_id) || not (project_id == envelope.project_id),
      "scope_mismatch",
    )
    ∷ (
      not (request.tenant_id == tenant_id) || not (request.project_id == project_id),
      "request_scope_mismatch",
    )
    ∷ (not (authority.envelope_id == envelope.envelope_id), "envelope_authority_mismatch")
    ∷ (not (request.envelope_id == envelope.envelope_id), "request_envelope_mismatch")
    ∷ (
      not (request.authority_decision_id == authority.authority_decision_id),
      "request_authority_mismatch",
    )
    ∷ (is_requires_approval authority.authorization_state, "authority_requires_approval")
    ∷ (is_not_authorized authority.authorization_state, "authority_not_authorized")
    ∷ (not (is_verified authority.verification_state), "authority_not_verified")
    ∷ (not (is_not_executable authority.executability_state), "unexpected_executability_state")
    ∷ (not (is_not_executed authority.execution_state), "unexpected_execution_state")
    ∷ (
      not (request.action_hash == action_hash host envelope.proposed_action),
      "action_hash_mismatch",
    )
    ∷ (
      not (action_hash host request.requested_action == request.action_hash),
      "requested_action_hash_inconsistent",
    )
    ∷ []

abbrev pub eligibility_of : List String → GatewayEligibilityState
eligibility_of [] = eligible_for_shadow
eligibility_of (r ∷ rs) = blocked

-- `evaluate`, with the id and the time of the decision that it creates.
unfoldable pub evaluate :
    Host
    → String
    → String
    → DecisionEnvelope
    → AuthorityDecision
    → ExecutionRequest
    → String
    → String
    → GatewayDecision
evaluate host new_id now envelope authority request tenant_id project_id =
    let reasons = reasons_of (conditions host envelope authority request tenant_id project_id) in
    record {
      gateway_decision_id = new_id;
      plan_id = request.plan_id;
      envelope_id = envelope.envelope_id;
      authority_decision_id = authority.authority_decision_id;
      eligibility = eligibility_of reasons;
      reasons = reasons;
      policy_id = "PHIGRAPH_GRDI_SHADOW_GATEWAY_V1";
      policy_version = "1.0.0";
      simulation_state = not_simulated;
      execution_state = not_executed;
      decided_at = now;
      version = grdi_version;
    }

abbrev pub texts : List String → Items
texts [] = nil
texts (s ∷ rest) = cons (str s) (texts rest)

-- The plan that `simulate` signs.
abbrev pub normalized_plan :
    DecisionEnvelope → AuthorityDecision → ExecutionRequest → GatewayDecision → Fields
normalized_plan envelope authority request gateway = field "plan_id" (str request.plan_id) (
    field "envelope_id" (str envelope.envelope_id) (
      field "authority_decision_id" (str authority.authority_decision_id) (
        field "requested_action" (obj request.requested_action) (
          field "action_hash" (str request.action_hash) (
            field "expected_effects" (arr (texts request.expected_effects)) (
              field "rollback_strategy" (obj request.rollback_strategy) (
                field "tenant_id" (str request.tenant_id) (
                  field "project_id" (str request.project_id) (
                    field "gateway_eligibility" (str "ELIGIBLE_FOR_SHADOW") (
                      field "executed" (bool false) (
                        field "external_side_effects" (bool false) (
                          field "connector_invoked" (bool false) (
                            field "simulation_state" (str "SIMULATED") (
                              field "execution_state" (str "NOT_EXECUTED") (
                                field "policy_id" (str gateway.policy_id) (
                                  field "policy_version" (str gateway.policy_version)
                                    end))))))))))))))))

-- `simulate` for a decision that is eligible.
simulate_eligible :
    Host
    → Option ReceiptSigner
    → String
    → String
    → DecisionEnvelope
    → AuthorityDecision
    → ExecutionRequest
    → GatewayDecision
    → Result ShadowExecutionReceipt
simulate_eligible host none new_id now envelope authority request gateway =
    err (value_error "receipt_signer_not_configured")
simulate_eligible host (some signer) new_id now envelope authority request gateway = ok (record {
  receipt_id = new_id;
  plan_id = request.plan_id;
  executed = false;
  external_side_effects = false;
  connector_invoked = false;
  normalized_plan = sign host signer (normalized_plan envelope authority request gateway);
  simulated_at = now;
  version = grdi_version;
})

abbrev pub is_eligible : GatewayEligibilityState → Bool
is_eligible eligible_for_shadow = true
is_eligible blocked = false

abbrev pub when_eligible : {A : Type 0} → Bool → Result A → Result A
when_eligible true r = r
when_eligible false r = err (value_error "plan_not_eligible_for_shadow")

-- `simulate`, with the id and the time of the receipt that it creates.
unfoldable pub simulate :
    Host
    → Option ReceiptSigner
    → String
    → String
    → DecisionEnvelope
    → AuthorityDecision
    → ExecutionRequest
    → GatewayDecision
    → Result ShadowExecutionReceipt
unfolding simulate_eligible
simulate host signer new_id now envelope authority request gateway =
    when_eligible (is_eligible gateway.eligibility)
      (simulate_eligible host signer new_id now envelope authority request gateway)
