-- ===== src/Grdi/Rows/RoundTrip.antt =====
-- What the service reads back of the rows that it has written (src/phigraph/grdi/service.py).
use phigraph.Prelude.{◌≡◌, refl, String, List, [], ◌∷◌}
use phigraph.Python.Values.{Json, str, get, put, without}
use phigraph.Python.Errors.{ok}
use phigraph.EvidenceLedger.Models.{texts}
use phigraph.Grdi.Models.{
  Host, GatewayDecision, ExecutionRequest, ShadowExecutionReceipt, GatewayEligibilityState,
  eligible_for_shadow, blocked, ShadowSimulationState, not_simulated, simulated, ExecutionState,
  executed, not_executed, check_request, DecisionEnvelope, check_envelope, VerificationState,
  verified, not_verified, AuthorizationState, authorized, not_authorized, requires_approval,
  ExecutabilityState, executable, not_executable,
}
use phigraph.Grdi.Dicts.{
  envelope_to_dict, verification_value, authorization_value, executability_value, eligibility_value,
  simulation_value, execution_value, gateway_decision_to_dict, request_to_dict, receipt_to_dict,
}
use phigraph.Grdi.Arguments.{
  made, texts_of, verification_of, authorization_of, executability_of, eligibility_of,
  simulation_of, execution_of,
}
use phigraph.Grdi.Rows.{
  gateway_from_row, execution_request_from_row, shadow_receipt_from_row, envelope_from_row,
}

texts_of-texts : (ss : List String) → texts_of (texts ss) ≡ made ss
unfolding texts
texts_of-texts [] = refl
texts_of-texts (s ∷ ss) = rw (texts_of-texts ss) refl

eligibility_of-value :
    (s : GatewayEligibilityState) → eligibility_of (str (eligibility_value s)) ≡ made s
eligibility_of-value eligible_for_shadow = refl
eligibility_of-value blocked = refl

simulation_of-value :
    (s : ShadowSimulationState) → simulation_of (str (simulation_value s)) ≡ made s
simulation_of-value not_simulated = refl
simulation_of-value simulated = refl

execution_of-value : (s : ExecutionState) → execution_of (str (execution_value s)) ≡ made s
execution_of-value executed = refl
execution_of-value not_executed = refl

verification_of-value :
    (s : VerificationState) → verification_of (str (verification_value s)) ≡ made s
verification_of-value verified = refl
verification_of-value not_verified = refl

authorization_of-value :
    (s : AuthorizationState) → authorization_of (str (authorization_value s)) ≡ made s
authorization_of-value authorized = refl
authorization_of-value not_authorized = refl
authorization_of-value requires_approval = refl

executability_of-value :
    (s : ExecutabilityState) → executability_of (str (executability_value s)) ≡ made s
executability_of-value executable = refl
executability_of-value not_executable = refl

-- A gateway decision is read back from its row as it was, whatever chain entry and scope the
-- ledger has put on the row, and whenever it is read.
pub gateway_from_row-to_dict :
    (now : String) (chain scope : Json) (g : GatewayDecision)
    → gateway_from_row now (put "scope" scope (put "_chain" chain (gateway_decision_to_dict g)))
      ≡ made g
unfolding gateway_from_row gateway_decision_to_dict put get without
gateway_from_row-to_dict now chain scope g = rw (texts_of-texts g.reasons) (
    rw (eligibility_of-value g.eligibility) (
      rw (simulation_of-value g.simulation_state) (rw (execution_of-value g.execution_state) refl)))

-- An execution request that its construction accepts is read back from its row as it was.
pub request_from_row-to_dict :
    (host : Host) (now : String) (chain scope : Json) (r : ExecutionRequest)
    → check_request host r ≡ ok tt
    → execution_request_from_row host now
        (put "scope" scope (put "_chain" chain (request_to_dict r)))
      ≡ made r
unfolding execution_request_from_row request_to_dict put get without
request_from_row-to_dict host now chain scope r h =
    rw (texts_of-texts r.expected_effects) (rw h refl)

-- A shadow receipt is read back from its row as it was.
pub receipt_from_row-to_dict :
    (now : String) (chain scope : Json) (s : ShadowExecutionReceipt)
    → shadow_receipt_from_row now (put "scope" scope (put "_chain" chain (receipt_to_dict s)))
      ≡ made s
unfolding shadow_receipt_from_row receipt_to_dict put get without
receipt_from_row-to_dict now chain scope s = refl

-- An envelope that its construction accepts is read back from its row as it was.
pub envelope_from_row-to_dict :
    (host : Host) (now : String) (chain scope : Json) (e : DecisionEnvelope)
    → check_envelope host e ≡ ok tt
    → envelope_from_row host now (put "scope" scope (put "_chain" chain (envelope_to_dict e)))
      ≡ made e
unfolding envelope_from_row envelope_to_dict put get without
envelope_from_row-to_dict host now chain scope e h = rw (texts_of-texts e.claim_ids) (
    rw (texts_of-texts e.evidence_ids) (
      rw (verification_of-value e.verification_state) (
        rw (authorization_of-value e.authorization_state) (
          rw (executability_of-value e.executability_state)
            (rw (execution_of-value e.execution_state) (rw h refl))))))
