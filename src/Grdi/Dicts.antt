-- ===== src/Grdi/Dicts.antt =====
-- The rows that `to_dict` makes of the records of src/phigraph/grdi/models.py. A tuple is a list of
-- the row, and a state its `value`.
use phigraph.Prelude.{String, List, [], ◌∷◌}
use phigraph.Python.Values.{Items, nil, cons, str, bool, arr, obj, Fields, end, field}
use phigraph.EvidenceLedger.Models.{texts}
use phigraph.Grdi.Models.{
  VerificationState, AuthorizationState, ExecutabilityState, ExecutionState,
  GatewayEligibilityState, ShadowSimulationState, verified, not_verified, authorized,
  not_authorized, requires_approval, executable, not_executable, executed, not_executed,
  eligible_for_shadow, blocked, not_simulated, simulated, Approval, DecisionEnvelope,
  AuthorityDecision, ExecutionRequest, GatewayDecision, ShadowExecutionReceipt,
}

abbrev pub verification_value : VerificationState → String
verification_value verified = "VERIFIED"
verification_value not_verified = "NOT_VERIFIED"

abbrev pub authorization_value : AuthorizationState → String
authorization_value authorized = "AUTHORIZED"
authorization_value not_authorized = "NOT_AUTHORIZED"
authorization_value requires_approval = "REQUIRES_APPROVAL"

abbrev pub executability_value : ExecutabilityState → String
executability_value executable = "EXECUTABLE"
executability_value not_executable = "NOT_EXECUTABLE"

abbrev pub execution_value : ExecutionState → String
execution_value executed = "EXECUTED"
execution_value not_executed = "NOT_EXECUTED"

abbrev pub eligibility_value : GatewayEligibilityState → String
eligibility_value eligible_for_shadow = "ELIGIBLE_FOR_SHADOW"
eligibility_value blocked = "BLOCKED"

abbrev pub simulation_value : ShadowSimulationState → String
simulation_value not_simulated = "NOT_SIMULATED"
simulation_value simulated = "SIMULATED"

-- `asdict(a)`
abbrev pub approval_to_dict : Approval → Fields
approval_to_dict a = field "approver" (str a.approver) (
    field "role" (str a.role) (
      field "approved" (bool a.approved)
        (field "approved_at" (str a.approved_at) (field "rationale" (str a.rationale) end))))

abbrev pub approvals_to_dicts : List Approval → Items
approvals_to_dicts [] = nil
approvals_to_dicts (a ∷ rest) = cons (obj (approval_to_dict a)) (approvals_to_dicts rest)

unfoldable pub envelope_to_dict : DecisionEnvelope → Fields
envelope_to_dict e = field "envelope_id" (str e.envelope_id) (
    field "tenant_id" (str e.tenant_id) (
      field "project_id" (str e.project_id) (
        field "domain" (str e.domain) (
          field "decision_type" (str e.decision_type) (
            field "subject" (str e.subject) (
              field "proposed_by" (str e.proposed_by) (
                field "proposed_action" (obj e.proposed_action) (
                  field "hav_receipt" (obj e.hav_receipt) (
                    field "required_authority" (str e.required_authority) (
                      field "risk_level" (str e.risk_level) (
                        field "graph_context" (obj e.graph_context) (
                          field "claim_ids" (arr (texts e.claim_ids)) (
                            field "evidence_ids" (arr (texts e.evidence_ids)) (
                              field "verification_state"
                                (str (verification_value e.verification_state))
                                (field "authorization_state"
                                  (str (authorization_value e.authorization_state))
                                  (field "executability_state"
                                    (str (executability_value e.executability_state))
                                    (field "execution_state"
                                      (str (execution_value e.execution_state))
                                      (field "created_at" (str e.created_at)
                                        (field "version" (str e.version) end)))))))))))))))))))

unfoldable pub authority_decision_to_dict : AuthorityDecision → Fields
authority_decision_to_dict a = field "authority_decision_id" (str a.authority_decision_id) (
    field "envelope_id" (str a.envelope_id) (
      field "authority_subject" (str a.authority_subject) (
        field "authority_role" (str a.authority_role) (
          field "verification_state" (str (verification_value a.verification_state)) (
            field "authorization_state" (str (authorization_value a.authorization_state)) (
              field "executability_state" (str (executability_value a.executability_state)) (
                field "execution_state" (str (execution_value a.execution_state)) (
                  field "policy_id" (str a.policy_id) (
                    field "policy_version" (str a.policy_version) (
                      field "reasons" (arr (texts a.reasons)) (
                        field "approvals" (arr (approvals_to_dicts a.approvals)) (
                          field "decided_at" (str a.decided_at)
                            (field "version" (str a.version) end)))))))))))))

unfoldable pub request_to_dict : ExecutionRequest → Fields
request_to_dict r = field "plan_id" (str r.plan_id) (
    field "envelope_id" (str r.envelope_id) (
      field "authority_decision_id" (str r.authority_decision_id) (
        field "tenant_id" (str r.tenant_id) (
          field "project_id" (str r.project_id) (
            field "requested_by" (str r.requested_by) (
              field "requested_action" (obj r.requested_action) (
                field "action_hash" (str r.action_hash) (
                  field "expected_effects" (arr (texts r.expected_effects)) (
                    field "rollback_strategy" (obj r.rollback_strategy) (
                      field "created_at" (str r.created_at)
                        (field "version" (str r.version) end)))))))))))

unfoldable pub gateway_decision_to_dict : GatewayDecision → Fields
gateway_decision_to_dict g = field "gateway_decision_id" (str g.gateway_decision_id) (
    field "plan_id" (str g.plan_id) (
      field "envelope_id" (str g.envelope_id) (
        field "authority_decision_id" (str g.authority_decision_id) (
          field "eligibility" (str (eligibility_value g.eligibility)) (
            field "reasons" (arr (texts g.reasons)) (
              field "policy_id" (str g.policy_id) (
                field "policy_version" (str g.policy_version) (
                  field "simulation_state" (str (simulation_value g.simulation_state)) (
                    field "execution_state" (str (execution_value g.execution_state)) (
                      field "decided_at" (str g.decided_at)
                        (field "version" (str g.version) end)))))))))))

unfoldable pub receipt_to_dict : ShadowExecutionReceipt → Fields
receipt_to_dict s = field "receipt_id" (str s.receipt_id) (
    field "plan_id" (str s.plan_id) (
      field "executed" (bool s.executed) (
        field "external_side_effects" (bool s.external_side_effects) (
          field "connector_invoked" (bool s.connector_invoked) (
            field "normalized_plan" (obj s.normalized_plan)
              (field "simulated_at" (str s.simulated_at) (field "version" (str s.version) end)))))))
