-- ===== src/Policy/Tests.antt =====
-- The policy engine on concrete rules.
use phigraph.Prelude.{◌≡◌, refl, true, [], ◌∷◌, filter}
use phigraph.Python.Values.{end}
use phigraph.EvidenceLedger.Models.{ActionProposal, allow, require_approval, shadow, copilot}
use phigraph.Policy.{PolicyRule, is_matching, rules_or_default, evaluate}
use phigraph.Policy.Decides.{called_for, evaluate-effect}

abbrev action : ActionProposal
action = record {
  action_id = "a1";
  action_type = "restart";
  target = "server";
  proposed_by = "agent";
  parameters = end;
  rationale_claim_ids = [];
  reversible = true;
  risk_level = "low";
  created_at = "t0";
}

abbrev rule : PolicyRule
rule = record {
  policy_id = "p1";
  action_types = "restart" ∷ [];
  max_risk = "medium";
  allowed_modes = copilot ∷ [];
  require_reversible = true;
  required_approvals = "lead" ∷ [];
}

unapproved : (evaluate (rule ∷ []) "d1" "t1" action copilot []).effect ≡ require_approval
unfolding evaluate
unapproved = refl

by_default : (evaluate [] "d1" "t1" action shadow []).effect ≡ allow
unfolding evaluate
by_default = refl

evaluate-effect_example :
    (evaluate (rule ∷ []) "d1" "t1" action copilot ("lead" ∷ [])).effect
    ≡ called_for
        (filter (is_matching action) (rules_or_default (rule ∷ [])))
        action
        copilot
        ("lead" ∷ [])
evaluate-effect_example = evaluate-effect (rule ∷ []) "d1" "t1" action copilot ("lead" ∷ [])
