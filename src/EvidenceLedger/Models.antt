-- ===== src/EvidenceLedger/Models.antt =====
-- The records of src/phigraph/core_v3/models.py, and the rows that `to_dict` makes of them. The
-- ids and times that `create` takes from outside are arguments of the constructors.
use phigraph.Prelude.{String, Bool, Option, List, [], ◌∷◌}
use phigraph.Python.Values.{
  Json, str, bool, arr, obj, Items, nil, cons, Fields, end, field, of_opt_str,
}

pub data ClaimStatus : Type 0 where
  proposed unverified partially_verified verified refuted superseded : ClaimStatus

pub data EvidenceStatus : Type 0 where
  registered valid_evidence invalid_evidence expired : EvidenceStatus

pub data DecisionEffect : Type 0 where
  allow warn require_approval block : DecisionEffect

pub data RuntimeMode : Type 0 where
  replay shadow copilot guarded_auto : RuntimeMode

abbrev pub claim_status_value : ClaimStatus → String
claim_status_value proposed = "proposed"
claim_status_value unverified = "unverified"
claim_status_value partially_verified = "partially_verified"
claim_status_value verified = "verified"
claim_status_value refuted = "refuted"
claim_status_value superseded = "superseded"

abbrev pub evidence_status_value : EvidenceStatus → String
evidence_status_value registered = "registered"
evidence_status_value valid_evidence = "valid"
evidence_status_value invalid_evidence = "invalid"
evidence_status_value expired = "expired"

abbrev pub effect_value : DecisionEffect → String
effect_value allow = "allow"
effect_value warn = "warn"
effect_value require_approval = "require_approval"
effect_value block = "block"

-- A list of texts as a JSON list.
unfoldable pub texts : List String → Items
texts [] = nil
texts (s ∷ ss) = cons (str s) (texts ss)

pub record Evidence : Type 0 where
  pub evidence_id : String
  pub kind : String
  pub source : String
  pub payload : Fields
  pub status : EvidenceStatus
  pub content_hash : Option String
  pub observed_at : String
  pub metadata : Fields

-- `confidence` is `None` or a number.
pub record Claim : Type 0 where
  pub claim_id : String
  pub statement : String
  pub claim_type : String
  pub subject : String
  pub issuer : String
  pub status : ClaimStatus
  pub confidence : Json
  pub evidence_ids : List String
  pub created_at : String
  pub supersedes : Option String
  pub metadata : Fields

pub record Verification : Type 0 where
  pub verification_id : String
  pub claim_id : String
  pub verifier : String
  pub method : String
  pub verdict : ClaimStatus
  pub evidence_ids : List String
  pub rationale : String
  pub verified_at : String
  pub metadata : Fields

pub record ActionProposal : Type 0 where
  pub action_id : String
  pub action_type : String
  pub target : String
  pub proposed_by : String
  pub parameters : Fields
  pub rationale_claim_ids : List String
  pub reversible : Bool
  pub risk_level : String
  pub created_at : String

pub record PolicyDecision : Type 0 where
  pub decision_id : String
  pub action_id : String
  pub effect : DecisionEffect
  pub policy_ids : List String
  pub reasons : List String
  pub required_approvals : List String
  pub decided_at : String

pub record Outcome : Type 0 where
  pub outcome_id : String
  pub action_id : String
  pub status : String
  pub executed : Bool
  pub observed_effects : Fields
  pub evidence_ids : List String
  pub observed_at : String

unfoldable pub evidence_to_dict : Evidence → Fields
evidence_to_dict e = field "evidence_id" (str e.evidence_id) (
    field "kind" (str e.kind) (
      field "source" (str e.source) (
        field "payload" (obj e.payload) (
          field "status" (str (evidence_status_value e.status)) (
            field "content_hash" (of_opt_str e.content_hash)
              (field "observed_at" (str e.observed_at) (field "metadata" (obj e.metadata) end)))))))

unfoldable pub claim_to_dict : Claim → Fields
claim_to_dict c = field "claim_id" (str c.claim_id) (
    field "statement" (str c.statement) (
      field "claim_type" (str c.claim_type) (
        field "subject" (str c.subject) (
          field "issuer" (str c.issuer) (
            field "status" (str (claim_status_value c.status)) (
              field "confidence" c.confidence (
                field "evidence_ids" (arr (texts c.evidence_ids)) (
                  field "created_at" (str c.created_at) (
                    field "supersedes" (of_opt_str c.supersedes)
                      (field "metadata" (obj c.metadata) end))))))))))

unfoldable pub verification_to_dict : Verification → Fields
verification_to_dict v = field "verification_id" (str v.verification_id) (
    field "claim_id" (str v.claim_id) (
      field "verifier" (str v.verifier) (
        field "method" (str v.method) (
          field "result" (str (claim_status_value v.verdict)) (
            field "evidence_ids" (arr (texts v.evidence_ids)) (
              field "rationale" (str v.rationale) (
                field "verified_at" (str v.verified_at)
                  (field "metadata" (obj v.metadata) end))))))))

unfoldable pub action_to_dict : ActionProposal → Fields
action_to_dict a = field "action_id" (str a.action_id) (
    field "action_type" (str a.action_type) (
      field "target" (str a.target) (
        field "proposed_by" (str a.proposed_by) (
          field "parameters" (obj a.parameters) (
            field "rationale_claim_ids" (arr (texts a.rationale_claim_ids)) (
              field "reversible" (bool a.reversible) (
                field "risk_level" (str a.risk_level)
                  (field "created_at" (str a.created_at) end))))))))

unfoldable pub policy_decision_to_dict : PolicyDecision → Fields
policy_decision_to_dict d = field "decision_id" (str d.decision_id) (
    field "action_id" (str d.action_id) (
      field "effect" (str (effect_value d.effect)) (
        field "policy_ids" (arr (texts d.policy_ids)) (
          field "reasons" (arr (texts d.reasons)) (
            field "required_approvals" (arr (texts d.required_approvals))
              (field "decided_at" (str d.decided_at) end))))))

unfoldable pub outcome_to_dict : Outcome → Fields
outcome_to_dict o = field "outcome_id" (str o.outcome_id) (
    field "action_id" (str o.action_id) (
      field "status" (str o.status) (
        field "executed" (bool o.executed) (
          field "observed_effects" (obj o.observed_effects) (
            field "evidence_ids" (arr (texts o.evidence_ids))
              (field "observed_at" (str o.observed_at) end))))))
