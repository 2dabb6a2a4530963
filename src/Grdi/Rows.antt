-- ===== src/Grdi/Rows.antt =====
-- The records that the service reads back from rows (src/phigraph/grdi/service.py,
-- `_execution_request_from_row` and its like).
pub mod RoundTrip
use phigraph.Prelude.{String, false, [], ◌∷◌}
use phigraph.Python.Values.{bool, str, obj, Fields, end, get}
use phigraph.Grdi.Models.{
  Host, GatewayDecision, ExecutionRequest, ShadowExecutionReceipt, grdi_version, check_request,
  DecisionEnvelope, check_envelope,
}
use phigraph.Grdi.Arguments.{
  Made, made, ◌>>=◌, ◌>>◌, clean, tuple_of, item, eligibility_of, simulation_of, execution_of,
  verification_of, authorization_of, executability_of, known_arguments, required, defaulted, a_text,
  a_bool, a_dict, required_text, checked,
}

-- `_gateway_from_row`; `now` is what `utc_now()` gives.
unfoldable pub gateway_from_row : String → Fields → Made GatewayDecision
gateway_from_row now row = do
  let d = clean row
  reasons ← tuple_of (get "reasons" d)
  eligibility ← item "eligibility" (get "eligibility" d) >>= eligibility_of
  simulation_state ← item "simulation_state" (get "simulation_state" d) >>= simulation_of
  execution_state ← item "execution_state" (get "execution_state" d) >>= execution_of
  known_arguments
      ("gateway_decision_id" ∷ "plan_id" ∷ "envelope_id" ∷ "authority_decision_id" ∷ "eligibility"
        ∷ "reasons" ∷ "policy_id" ∷ "policy_version" ∷ "simulation_state" ∷ "execution_state"
        ∷ "decided_at" ∷ "version" ∷ [])
      d
  gateway_decision_id ← required_text "gateway_decision_id" d
  plan_id ← required_text "plan_id" d
  envelope_id ← required_text "envelope_id" d
  authority_decision_id ← required_text "authority_decision_id" d
  policy_id ← defaulted (str "") (get "policy_id" d) >>= a_text
  policy_version ← defaulted (str "") (get "policy_version" d) >>= a_text
  decided_at ← defaulted (str now) (get "decided_at" d) >>= a_text
  version ← defaulted (str grdi_version) (get "version" d) >>= a_text
  made (record {
    gateway_decision_id = gateway_decision_id;
    plan_id = plan_id;
    envelope_id = envelope_id;
    authority_decision_id = authority_decision_id;
    eligibility = eligibility;
    reasons = reasons;
    policy_id = policy_id;
    policy_version = policy_version;
    simulation_state = simulation_state;
    execution_state = execution_state;
    decided_at = decided_at;
    version = version;
  })

-- `_execution_request_from_row`; `now` is what `utc_now()` gives.
unfoldable pub execution_request_from_row : Host → String → Fields → Made ExecutionRequest
execution_request_from_row host now row = do
  let d = clean row
  expected_effects ← tuple_of (get "expected_effects" d)
  known_arguments
      ("plan_id" ∷ "envelope_id" ∷ "authority_decision_id" ∷ "tenant_id" ∷ "project_id"
        ∷ "requested_by" ∷ "requested_action" ∷ "action_hash" ∷ "expected_effects"
        ∷ "rollback_strategy" ∷ "created_at" ∷ "version" ∷ [])
      d
  plan_id ← required_text "plan_id" d
  envelope_id ← required_text "envelope_id" d
  authority_decision_id ← required_text "authority_decision_id" d
  tenant_id ← required_text "tenant_id" d
  project_id ← required_text "project_id" d
  requested_by ← required_text "requested_by" d
  requested_action ← required (get "requested_action" d) >>= a_dict
  action_hash ← required_text "action_hash" d
  rollback_strategy ← defaulted (obj end) (get "rollback_strategy" d) >>= a_dict
  created_at ← defaulted (str now) (get "created_at" d) >>= a_text
  version ← defaulted (str grdi_version) (get "version" d) >>= a_text
  let request : ExecutionRequest = (record {
    plan_id = plan_id;
    envelope_id = envelope_id;
    authority_decision_id = authority_decision_id;
    tenant_id = tenant_id;
    project_id = project_id;
    requested_by = requested_by;
    requested_action = requested_action;
    action_hash = action_hash;
    expected_effects = expected_effects;
    rollback_strategy = rollback_strategy;
    created_at = created_at;
    version = version;
  })
  checked (check_request host request) request

-- `_shadow_receipt_from_row`; `now` is what `utc_now()` gives.
unfoldable pub shadow_receipt_from_row : String → Fields → Made ShadowExecutionReceipt
shadow_receipt_from_row now row = do
  let d = clean row
  known_arguments
      ("receipt_id" ∷ "plan_id" ∷ "executed" ∷ "external_side_effects" ∷ "connector_invoked"
        ∷ "normalized_plan" ∷ "simulated_at" ∷ "version" ∷ [])
      d
  receipt_id ← required_text "receipt_id" d
  plan_id ← required_text "plan_id" d
  was_executed ← defaulted (bool false) (get "executed" d) >>= a_bool
  external_side_effects ← defaulted (bool false) (get "external_side_effects" d) >>= a_bool
  connector_invoked ← defaulted (bool false) (get "connector_invoked" d) >>= a_bool
  normalized_plan ← defaulted (obj end) (get "normalized_plan" d) >>= a_dict
  simulated_at ← defaulted (str now) (get "simulated_at" d) >>= a_text
  version ← defaulted (str grdi_version) (get "version" d) >>= a_text
  made (record {
    receipt_id = receipt_id;
    plan_id = plan_id;
    executed = was_executed;
    external_side_effects = external_side_effects;
    connector_invoked = connector_invoked;
    normalized_plan = normalized_plan;
    simulated_at = simulated_at;
    version = version;
  })

-- `_envelope_from_row`
unfoldable pub envelope_from_row : Host → String → Fields → Made DecisionEnvelope
envelope_from_row host now row = do
  let d = clean row
  claim_ids ← tuple_of (get "claim_ids" d)
  evidence_ids ← tuple_of (get "evidence_ids" d)
  verification_state ← item "verification_state" (get "verification_state" d) >>= verification_of
  authorization_state ←
      item "authorization_state" (get "authorization_state" d) >>= authorization_of
  executability_state ←
      item "executability_state" (get "executability_state" d) >>= executability_of
  execution_state ← item "execution_state" (get "execution_state" d) >>= execution_of
  known_arguments
      ("envelope_id" ∷ "tenant_id" ∷ "project_id" ∷ "domain" ∷ "decision_type" ∷ "subject"
        ∷ "proposed_by" ∷ "proposed_action" ∷ "hav_receipt" ∷ "required_authority" ∷ "risk_level"
        ∷ "graph_context" ∷ "claim_ids" ∷ "evidence_ids" ∷ "verification_state"
        ∷ "authorization_state" ∷ "executability_state" ∷ "execution_state" ∷ "created_at"
        ∷ "version" ∷ [])
      d
  envelope_id ← required_text "envelope_id" d
  tenant_id ← required_text "tenant_id" d
  project_id ← required_text "project_id" d
  domain ← required_text "domain" d
  decision_type ← required_text "decision_type" d
  subject ← required_text "subject" d
  proposed_by ← required_text "proposed_by" d
  proposed_action ← required (get "proposed_action" d) >>= a_dict
  hav_receipt ← required (get "hav_receipt" d) >>= a_dict
  required_authority ← defaulted (str "verifier") (get "required_authority" d) >>= a_text
  risk_level ← defaulted (str "medium") (get "risk_level" d) >>= a_text
  graph_context ← defaulted (obj end) (get "graph_context" d) >>= a_dict
  created_at ← defaulted (str now) (get "created_at" d) >>= a_text
  version ← defaulted (str grdi_version) (get "version" d) >>= a_text
  let envelope : DecisionEnvelope = (record {
    envelope_id = envelope_id;
    tenant_id = tenant_id;
    project_id = project_id;
    domain = domain;
    decision_type = decision_type;
    subject = subject;
    proposed_by = proposed_by;
    proposed_action = proposed_action;
    hav_receipt = hav_receipt;
    required_authority = required_authority;
    risk_level = risk_level;
    graph_context = graph_context;
    claim_ids = claim_ids;
    evidence_ids = evidence_ids;
    verification_state = verification_state;
    authorization_state = authorization_state;
    executability_state = executability_state;
    execution_state = execution_state;
    created_at = created_at;
    version = version;
  })
  checked (check_envelope host envelope) envelope
