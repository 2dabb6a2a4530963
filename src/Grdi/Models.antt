-- ===== src/Grdi/Models.antt =====
-- The records of src/phigraph/grdi/models.py that the authority engine and the gateway read and
-- make, with the checks of their construction.
use phigraph.Prelude.{String, Bool, true, false, not, ◌||◌, List, [], ◌∷◌, ◌==◌, contains}
use phigraph.Python.{Runtime}
use phigraph.Python.Values.{Fields, end, field, obj}
use phigraph.Python.Errors.{Result, value_error, raise_if, ◌>>◌}

-- What the code takes from outside, besides the Runtime: `s.strip()`, `hmac.new(key, text,
-- hashlib.sha256).hexdigest()` and `hmac.compare_digest`, which raises where a text is not ASCII.
pub record Host : Type 0 where
  pub runtime : Runtime
  pub strip : String → String
  pub hmac : String → String → String
  pub compare_digest : String → String → Result Bool

pub data VerificationState : Type 0 where
  verified not_verified : VerificationState

pub data AuthorizationState : Type 0 where
  authorized not_authorized requires_approval : AuthorizationState

pub data ExecutabilityState : Type 0 where
  executable not_executable : ExecutabilityState

pub data ExecutionState : Type 0 where
  executed not_executed : ExecutionState

pub data GatewayEligibilityState : Type 0 where
  eligible_for_shadow blocked : GatewayEligibilityState

pub data ShadowSimulationState : Type 0 where
  not_simulated simulated : ShadowSimulationState

pub record Approval : Type 0 where
  pub approver : String
  pub role : String
  pub approved : Bool
  pub approved_at : String
  pub rationale : String

pub record DecisionEnvelope : Type 0 where
  pub envelope_id : String
  pub tenant_id : String
  pub project_id : String
  pub domain : String
  pub decision_type : String
  pub subject : String
  pub proposed_by : String
  pub proposed_action : Fields
  pub hav_receipt : Fields
  pub required_authority : String
  pub risk_level : String
  pub graph_context : Fields
  pub claim_ids : List String
  pub evidence_ids : List String
  pub verification_state : VerificationState
  pub authorization_state : AuthorizationState
  pub executability_state : ExecutabilityState
  pub execution_state : ExecutionState
  pub created_at : String
  pub version : String

pub record AuthorityDecision : Type 0 where
  pub authority_decision_id : String
  pub envelope_id : String
  pub authority_subject : String
  pub authority_role : String
  pub verification_state : VerificationState
  pub authorization_state : AuthorizationState
  pub executability_state : ExecutabilityState
  pub execution_state : ExecutionState
  pub policy_id : String
  pub policy_version : String
  pub reasons : List String
  pub approvals : List Approval
  pub decided_at : String
  pub version : String

pub record ExecutionRequest : Type 0 where
  pub plan_id : String
  pub envelope_id : String
  pub authority_decision_id : String
  pub tenant_id : String
  pub project_id : String
  pub requested_by : String
  pub requested_action : Fields
  pub action_hash : String
  pub expected_effects : List String
  pub rollback_strategy : Fields
  pub created_at : String
  pub version : String

pub record GatewayDecision : Type 0 where
  pub gateway_decision_id : String
  pub plan_id : String
  pub envelope_id : String
  pub authority_decision_id : String
  pub eligibility : GatewayEligibilityState
  pub reasons : List String
  pub policy_id : String
  pub policy_version : String
  pub simulation_state : ShadowSimulationState
  pub execution_state : ExecutionState
  pub decided_at : String
  pub version : String

pub record ShadowExecutionReceipt : Type 0 where
  pub receipt_id : String
  pub plan_id : String
  pub executed : Bool
  pub external_side_effects : Bool
  pub connector_invoked : Bool
  pub normalized_plan : Fields
  pub simulated_at : String
  pub version : String

-- `GRDI_VERSION`
abbrev pub grdi_version : String
grdi_version = "0.5.0"

-- `action_hash`, through `EvidenceLedger.hash_payload`
unfoldable pub action_hash : Host → Fields → String
action_hash host action = host.runtime.sha256 (host.runtime.dumps (obj action))

-- `not d`
abbrev pub is_empty_dict : Fields → Bool
is_empty_dict end = true
is_empty_dict (field k v d) = false

-- Some text is blank.
unfoldable pub any_blank : Host → List String → Bool
any_blank host [] = false
any_blank host (s ∷ rest) = host.strip s == "" || any_blank host rest

-- `DecisionEnvelope.__post_init__`
unfoldable pub check_envelope : Host → DecisionEnvelope → Result (Unit {0})
unfolding any_blank
check_envelope host e = do
  raise_if
      (any_blank host
        (e.tenant_id ∷ e.project_id ∷ e.domain ∷ e.decision_type ∷ e.subject ∷ e.proposed_by ∷ []))
      (value_error "missing_required_fields")
  raise_if (is_empty_dict e.proposed_action) (value_error "proposed_action_required")
  raise_if (is_empty_dict e.hav_receipt) (value_error "hav_receipt_required")
  raise_if (not (contains ("low" ∷ "medium" ∷ "high" ∷ "critical" ∷ []) e.risk_level))
      (value_error "invalid_risk_level")

-- `ExecutionRequest.__post_init__`
unfoldable pub check_request : Host → ExecutionRequest → Result (Unit {0})
unfolding any_blank
check_request host r = do
  raise_if
      (any_blank host (
        r.envelope_id ∷ r.authority_decision_id ∷ r.tenant_id ∷ r.project_id ∷ r.requested_by ∷ []))
      (value_error "missing_required_fields")
  raise_if (is_empty_dict r.requested_action) (value_error "requested_action_required")
  raise_if (not (action_hash host r.requested_action == r.action_hash))
      (value_error "requested_action_hash_mismatch")
