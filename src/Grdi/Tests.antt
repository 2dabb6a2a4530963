-- ===== src/Grdi/Tests.antt =====
-- Runs of the authority engine, the gateway and the outcome ledger.
mod Locks
mod Plans
use phigraph.Prelude.{
  map, ◌≢◌, String, ◌≡◌, refl, true, false, some, List, [], ◌∷◌, All, ◌↔◌, ◌==◌, eq_iff,
}
use phigraph.Prelude.Sort.{IsSorted}
use phigraph.Prelude.Sets.{IsDistinct, HaveSame}
use phigraph.Python.Values.{str, obj, Fields, end, field, get, put, without}
use phigraph.Python.Errors.{Result, ok, err}
use phigraph.Transactions.Collections.{gateway_event_canonical_key, str_value}
use phigraph.Transactions.Locks.{
  LockRef, post_init, lock_order, lock_key, normalize_lock_refs, build_lock_context,
  require_write_locks,
}
use phigraph.Transactions.Locks.Normal.{normalize_lock_refs-IsSorted, normalize_lock_refs_same}
use phigraph.Transactions.Locks.Context.{
  Declares, IsChainOf, IsCanonicalOf, require_write_locks_iff,
}
use phigraph.ScopedLedger.Tests.Samples.{runtime, locks, show_json}
use phigraph.Grdi.LedgerOps.{Scope, constructed, execution_plan_locks, simulation_locks}
use phigraph.Grdi.LedgerOps.Admits.{
  Admits, event_key, execution_plan_locks-Admits, simulation_locks-Admits,
}
use phigraph.Grdi.Models.{
  Host, verified, not_verified, authorized, not_authorized, not_executable, not_executed,
  eligible_for_shadow, DecisionEnvelope, AuthorityDecision, ExecutionRequest, GatewayDecision,
  ShadowExecutionReceipt, action_hash,
}
use phigraph.Grdi.OutcomeLedger.{
  EffectAssessment, matched, ShadowOutcomeState, aggregate_outcome_state,
}
use phigraph.Grdi.OutcomeLedger.Consistent.{aggregate_outcome_state-consistent}
use phigraph.Grdi.Receipts.{ReceiptSigner, sign, canonical, verify, verify-sign}
use phigraph.Grdi.Authority.{
  verification_of, judge_receipt, judged, text_verdict, authorize_verified, authorize, evaluate,
  decision,
}
use phigraph.Grdi.Authority.FailClosed.{HasValidReceipt, IsEntitled, evaluate-authorized}
use phigraph.Grdi.ExecutionGateway as Gateway
use phigraph.Grdi.ExecutionGateway.{simulate, reasons_of}
use phigraph.Grdi.ExecutionGateway.Eligible.{IsPlannable, evaluate_eligible_iff, simulate-verify}

abbrev host : Host
host = record {
  runtime = runtime;
  strip = λ s. s;
  hmac = λ key text. text;
  compare_digest = λ a b. ok (a == b);
}

abbrev signer : ReceiptSigner
signer = record { key = "secret"; key_id = "k1" }

abbrev receipt : Fields
receipt = sign host signer (
    field "verdict" (str "PASS") (
      field "governance" (obj (field "tenant_id" (str "t") (field "project_id" (str "p") end)))
        end))

abbrev envelope : DecisionEnvelope
envelope = record {
  envelope_id = "de_1";
  tenant_id = "t";
  project_id = "p";
  domain = "d";
  decision_type = "dt";
  subject = "s";
  proposed_by = "alice";
  proposed_action = field "do" (str "x") end;
  hav_receipt = receipt;
  required_authority = "verifier";
  risk_level = "medium";
  graph_context = end;
  claim_ids = [];
  evidence_ids = [];
  verification_state = not_verified;
  authorization_state = not_authorized;
  executability_state = not_executable;
  execution_state = not_executed;
  created_at = "now";
  version = "0.5.0";
}

abbrev approved : AuthorityDecision
approved =
    decision "ad_1" "now" envelope "bob" "verifier" []
      (record { reasons = []; verification = verified; authorization = authorized })

bob_is_authorized :
    evaluate host (some signer) "ad_1" "now" envelope "bob" "verifier" [] ≡ ok approved
unfolding evaluate verification_of judge_receipt judged text_verdict authorize_verified authorize
    verify sign canonical get put without str_value show_json
bob_is_authorized = refl

evaluate-authorized_example :
    HasValidReceipt host (some signer) envelope
    × IsEntitled envelope "bob" "verifier" []
    × (approved.executability_state ≡ not_executable)
    × (approved.execution_state ≡ not_executed)
evaluate-authorized_example =
    evaluate-authorized host envelope (some signer) "ad_1" "now" "bob" "verifier" [] approved
      bob_is_authorized refl

abbrev plan : ExecutionRequest
plan = record {
  plan_id = "ep_1";
  envelope_id = "de_1";
  authority_decision_id = "ad_1";
  tenant_id = "t";
  project_id = "p";
  requested_by = "bob";
  requested_action = field "do" (str "x") end;
  action_hash = action_hash host (field "do" (str "x") end);
  expected_effects = "done" ∷ [];
  rollback_strategy = end;
  created_at = "now";
  version = "0.5.0";
}

evaluate_eligible_iff_example :
    ((Gateway.evaluate host "gd_1" "now" envelope approved plan "t" "p").eligibility
      ≡ eligible_for_shadow)
    ↔ IsPlannable host envelope approved plan "t" "p"
evaluate_eligible_iff_example =
    evaluate_eligible_iff host envelope approved plan "gd_1" "now" "t" "p"

plan-IsPlannable : IsPlannable host envelope approved plan "t" "p"
plan-IsPlannable = record {
  tenant = refl;
  project = refl;
  request_tenant = refl;
  request_project = refl;
  of_envelope = refl;
  for_envelope = refl;
  by_authority = refl;
  authorization = refl;
  verification = refl;
  executability = refl;
  execution = refl;
  proposed = refl;
  requested = refl;
}

abbrev gateway : GatewayDecision
gateway = Gateway.evaluate host "gd_1" "now" envelope approved plan "t" "p"

digests_equal :
    (key text : String) → host.compare_digest (host.hmac key text) (host.hmac key text) ≡ ok true
digests_equal key text = rw ((eq_iff text text).1 refl) refl

abbrev shadow : ShadowExecutionReceipt
shadow = record {
  receipt_id = "sr_1";
  plan_id = "ep_1";
  executed = false;
  external_side_effects = false;
  connector_invoked = false;
  normalized_plan = sign host signer (Gateway.normalized_plan envelope approved plan gateway);
  simulated_at = "now";
  version = "0.5.0";
}

plan_is_simulated :
    simulate host (some signer) "sr_1" "now" envelope approved plan gateway ≡ ok shadow
unfolding simulate Gateway.evaluate reasons_of
plan_is_simulated = rw (evaluate_eligible_iff_example.1 plan-IsPlannable) refl

simulate-verify_example :
    (gateway.eligibility ≡ eligible_for_shadow)
    × (shadow.executed ≡ false)
    × (shadow.external_side_effects ≡ false)
    × (shadow.connector_invoked ≡ false)
    × ((s : ReceiptSigner) × (some signer ≡ some s)
        × (verify host s shadow.normalized_plan ≡ ok true))
simulate-verify_example =
    simulate-verify host envelope approved plan (some signer) "sr_1" "now" gateway shadow
      digests_equal plan_is_simulated

verify-sign_example :
    verify host signer (sign host signer (field "verdict" (str "PASS") end)) ≡ ok true
verify-sign_example = verify-sign host signer (field "verdict" (str "PASS") end) digests_equal

abbrev assessment : EffectAssessment
assessment = record {
  expected_effect = "done";
  simulated_observation = "seen";
  state = matched;
  evidence_refs = [];
  rationale = "";
}

abbrev effects : List String
effects = "done" ∷ []

outcome_is_consistent :
    aggregate_outcome_state effects (assessment ∷ []) ≡ ShadowOutcomeState.consistent
unfolding aggregate_outcome_state
outcome_is_consistent = refl

aggregate_outcome_state-consistent_example :
    (effects ≢ [])
    × IsDistinct (map (λ a. a.expected_effect) (assessment ∷ []))
    × HaveSame (map (λ a. a.expected_effect) (assessment ∷ [])) effects
    × All (λ a. a.state ≡ matched) (assessment ∷ [])
aggregate_outcome_state-consistent_example =
    aggregate_outcome_state-consistent effects (assessment ∷ []) outcome_is_consistent
