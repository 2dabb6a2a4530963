-- ===== src/Grdi/Authority.antt =====
-- `AuthorityEngine` of src/phigraph/grdi/authority.py.
pub mod FailClosed
use Prim.Native.String.{◌++◌ as text_append}
use phigraph.Prelude.{
  String, Bool, true, false, not, ◌&&◌, ◌||◌, Option, none, some, List, [], ◌∷◌, ◌++◌, ◌==◌,
  contains, if◌then◌else◌,
}
use phigraph.Python.Values.{Json, str, arr, obj, Fields, get, eq_opt_str}
use phigraph.Python.Errors.{Result, ok, err, type_error, ◌>>=◌}
use phigraph.Grdi.Models.{
  Host, VerificationState, verified, not_verified, AuthorizationState, authorized, not_authorized,
  requires_approval, not_executable, not_executed, Approval, DecisionEnvelope, AuthorityDecision,
  grdi_version,
}
use phigraph.Grdi.Receipts.{ReceiptSigner, verify, dict_at}

-- The three local variables of `evaluate`.
pub record Progress : Type 0 where
  pub reasons : List String
  pub verification : VerificationState
  pub authorization : AuthorizationState

abbrev pub refused : List String → Progress
refused reasons = record {
  reasons = reasons;
  verification = not_verified;
  authorization = not_authorized;
}

abbrev pub reason_if : Bool → String → List String
reason_if true reason = reason ∷ []
reason_if false reason = []

abbrev pub is_nil {ℓ} : {A : Type ℓ} → List A → Bool
is_nil [] = true
is_nil (x ∷ xs) = false

-- The branches on a verdict that is a text.
unfoldable pub text_verdict : List String → String → Progress
text_verdict reasons verdict =
    if verdict == "PASS" && is_nil reasons
    then record { reasons = reasons; verification = verified; authorization = not_authorized }
    else if verdict == "WARN" || verdict == "HUMAN_REVIEW"
    then record {
      reasons = reasons ++ text_append "hav_verdict_requires_review:" verdict ∷ [];
      verification = not_verified;
      authorization = requires_approval;
    }
    else if verdict == "REJECT" || verdict == "SOURCE_UNAVAILABLE"
    then refused (reasons ++ text_append "hav_verdict_blocks:" verdict ∷ [])
    else refused (reasons ++ "unsupported_hav_verdict" ∷ [])

-- A verdict that has no hash cannot be looked up in a set.
unfoldable pub judged : List String → Option Json → Result Progress
judged reasons (some (str verdict)) = ok (text_verdict reasons verdict)
judged reasons (some (arr _)) = err (type_error "unhashable type")
judged reasons (some (obj _)) = err (type_error "unhashable type")
judged reasons _ = ok (refused (reasons ++ "unsupported_hav_verdict" ∷ []))

abbrev pub scope_reasons : DecisionEnvelope → Fields → List String
scope_reasons envelope governance =
    reason_if (not (eq_opt_str (get "tenant_id" governance) (some envelope.tenant_id)))
      "hav_receipt_tenant_mismatch"
    ++ reason_if (not (eq_opt_str (get "project_id" governance) (some envelope.project_id)))
        "hav_receipt_project_mismatch"

unfoldable pub judge_receipt : DecisionEnvelope → Bool → Result Progress
judge_receipt envelope false = ok (refused ("invalid_hav_receipt_signature" ∷ []))
judge_receipt envelope true = do
  governance ← dict_at "governance" envelope.hav_receipt
  judged (scope_reasons envelope governance) (get "verdict" envelope.hav_receipt)

-- The first block: is the receipt of the envelope valid, in its scope, and a pass?
unfoldable pub verification_of : Host → Option ReceiptSigner → DecisionEnvelope → Result Progress
verification_of host none envelope = ok (refused ("receipt_signer_not_configured" ∷ []))
verification_of host (some signer) envelope = do
  valid ← verify host signer envelope.hav_receipt
  judge_receipt envelope valid

abbrev pub any_rejected : List Approval → Bool
any_rejected [] = false
any_rejected (a ∷ rest) = not a.approved || any_rejected rest

abbrev pub any_by : String → List Approval → Bool
any_by proposer [] = false
any_by proposer (a ∷ rest) = a.approver == proposer || any_by proposer rest

abbrev pub blocked_by : Progress → String → Progress
blocked_by p reason = record p { reasons = p.reasons ++ reason ∷ [] }

-- The second block, for an envelope that is verified.
unfoldable pub authorize : DecisionEnvelope → String → String → List Approval → Progress → Progress
authorize envelope subject role approvals p =
    if subject == envelope.proposed_by
    then blocked_by p "self_authorization_forbidden"
    else if not (role == envelope.required_authority || role == "admin")
    then blocked_by p "required_authority_missing"
    else if any_rejected approvals
    then blocked_by p "approval_rejected"
    else if contains ("high" ∷ "critical" ∷ []) envelope.risk_level && is_nil approvals
    then record {
      reasons = p.reasons ++ "human_approval_required" ∷ [];
      verification = p.verification;
      authorization = requires_approval;
    }
    else if any_by envelope.proposed_by approvals
    then blocked_by p "proposer_approval_forbidden"
    else record { reasons = p.reasons; verification = p.verification; authorization = authorized }

unfoldable pub authorize_verified :
    DecisionEnvelope → String → String → List Approval → VerificationState → Progress → Progress
authorize_verified envelope subject role approvals verified p =
    authorize envelope subject role approvals p
authorize_verified envelope subject role approvals not_verified p = p

abbrev pub decision :
    String
    → String
    → DecisionEnvelope
    → String
    → String
    → List Approval
    → Progress
    → AuthorityDecision
decision new_id now envelope subject role approvals p = record {
  authority_decision_id = new_id;
  envelope_id = envelope.envelope_id;
  authority_subject = subject;
  authority_role = role;
  verification_state = p.verification;
  authorization_state = p.authorization;
  executability_state = not_executable;
  execution_state = not_executed;
  policy_id = "PHIGRAPH_GRDI_AUTHORITY_V1";
  policy_version = "1.0.0";
  reasons = p.reasons;
  approvals = approvals;
  decided_at = now;
  version = grdi_version;
}

-- `evaluate`, with the id and the time of the decision that it creates.
unfoldable pub evaluate :
    Host
    → Option ReceiptSigner
    → String
    → String
    → DecisionEnvelope
    → String
    → String
    → List Approval
    → Result AuthorityDecision
evaluate host signer new_id now envelope subject role approvals = do
  p ← verification_of host signer envelope
  ok (
      decision new_id now envelope subject role approvals
        (authorize_verified envelope subject role approvals p.verification p))
