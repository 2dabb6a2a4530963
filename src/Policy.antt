-- ===== src/Policy.antt =====
-- src/phigraph/core_v3/policy.py: the policy engine.
pub mod Decides
mod Tests
use phigraph.Prelude.{
  ℕ, String, Bool, true, false, not, ◌&&◌, ◌||◌, Option, none, some, List, [], ◌∷◌, ◌++◌, map, ◌==◌,
  ltb, filter, contains, if◌then◌else◌,
}
use phigraph.Prelude.Order.{str_order}
use phigraph.Prelude.Sort.{insert_by, sort_by}
use Prim.Native.String.{◌++◌ as text_append}
use phigraph.Python.Values.{Fields}
use phigraph.EvidenceLedger.Models.{
  ActionProposal, PolicyDecision, DecisionEffect, allow, require_approval, block, RuntimeMode,
  replay, shadow, copilot, guarded_auto,
}
use phigraph.EvidenceLedger.Verifications.{unique, is_empty}

pub record PolicyRule : Type 0 where
  pub policy_id : String
  pub action_types : List String
  pub max_risk : String
  pub allowed_modes : List RuntimeMode
  pub require_reversible : Bool
  pub required_approvals : List String

abbrev pub same_mode : RuntimeMode → RuntimeMode → Bool
same_mode replay replay = true
same_mode shadow shadow = true
same_mode copilot copilot = true
same_mode guarded_auto guarded_auto = true
same_mode _ _ = false

-- `mode in modes`
abbrev pub has_mode : List RuntimeMode → RuntimeMode → Bool
has_mode [] mode = false
has_mode (m ∷ modes) mode = same_mode m mode || has_mode modes mode

-- `_RISK.get(level, 99)` of an action, and `_RISK.get(level, -1)` of a rule: the levels one
-- higher, so that an unknown level of a rule is the 0 below them all.
abbrev pub risk_level_of : String → ℕ → ℕ
risk_level_of level unknown =
    if level == "low"
    then 1
    else (if level == "medium"
        then 2
        else (if level == "high" then 3 else (if level == "critical" then 4 else unknown)))

abbrev pub exceeds_risk : ActionProposal → PolicyRule → Bool
exceeds_risk action rule =
    ltb (risk_level_of (rule.max_risk) 0) (risk_level_of (action.risk_level) 100)

-- `self.rules`
abbrev pub default_rule : PolicyRule
default_rule = record {
  policy_id = "core-shadow-default";
  action_types = "*" ∷ [];
  max_risk = "medium";
  allowed_modes = replay ∷ shadow ∷ [];
  require_reversible = false;
  required_approvals = [];
}

abbrev pub rules_or_default : List PolicyRule → List PolicyRule
rules_or_default [] = default_rule ∷ []
rules_or_default (rule ∷ rules) = rule ∷ rules

abbrev pub is_matching : ActionProposal → PolicyRule → Bool
is_matching action rule =
    contains (rule.action_types) "*" || contains (rule.action_types) (action.action_type)

-- The reasons that one rule adds, in their order.
abbrev pub reason_if : Bool → String → PolicyRule → List String
reason_if false text rule = []
reason_if true text rule = text_append text (rule.policy_id) ∷ []

abbrev pub rule_reasons : ActionProposal → RuntimeMode → PolicyRule → List String
rule_reasons action mode rule =
    reason_if (not (has_mode (rule.allowed_modes) mode)) "mode_not_allowed:" rule
    ++ (reason_if (exceeds_risk action rule) "risk_exceeds_limit:" rule
        ++ reason_if (rule.require_reversible && not (action.reversible)) "reversibility_required:"
            rule)

-- The loop over the matching rules: its `reasons` and its `required`.
unfoldable pub all_reasons : ActionProposal → RuntimeMode → List PolicyRule → List String
all_reasons action mode [] = []
all_reasons action mode (rule ∷ rules) =
    rule_reasons action mode rule ++ all_reasons action mode rules

unfoldable pub all_required : List PolicyRule → List String
all_required [] = []
all_required (rule ∷ rules) = rule.required_approvals ++ all_required rules

-- `sorted(...)` of a set
abbrev pub sorted_set : List String → List String
sorted_set names = sort_by str_order (λ s. s) (unique names)

-- `sorted(required - set(approvals))`
unfoldable pub missing_approvals : List String → List String → List String
unfolding unique
missing_approvals required approvals =
    sorted_set (filter (λ role. not (contains approvals role)) required)

abbrev pub is_simulation : RuntimeMode → Bool
is_simulation replay = true
is_simulation shadow = true
is_simulation _ = false

-- The effect and the reasons, from the violations and the missing approvals.
abbrev pub judged : List String → List String → RuntimeMode → DecisionEffect × List String
judged (r ∷ reasons) missing mode = (block, r ∷ reasons)
judged [] (m ∷ missing) mode =
    (require_approval, map (text_append "missing_approval:") (m ∷ missing))
judged [] [] mode = (allow, if is_simulation mode then "simulation_only" ∷ [] else [])

abbrev pub decided :
    String
    → String
    → ActionProposal
    → DecisionEffect × List String
    → List String
    → List String
    → PolicyDecision
decided decision_id decided_at action (effect, reasons) policy_ids required = record {
  decision_id = decision_id;
  action_id = action.action_id;
  effect = effect;
  policy_ids = policy_ids;
  reasons = reasons;
  required_approvals = required;
  decided_at = decided_at;
}

-- The decision on the matching rules.
unfoldable pub evaluate_matching :
    String → String → ActionProposal → RuntimeMode → List String → List PolicyRule → PolicyDecision
unfolding all_reasons all_required missing_approvals unique
evaluate_matching decision_id decided_at action mode approvals [] =
    decided decision_id decided_at action (block, "no_matching_policy" ∷ []) ("implicit-deny" ∷ [])
      []
evaluate_matching decision_id decided_at action mode approvals (rule ∷ rules) =
    let matching = rule ∷ rules in
    let required = all_required matching in
    decided decision_id decided_at action
      (judged (all_reasons action mode matching) (missing_approvals required approvals) mode)
      (map (λ (r : PolicyRule). r.policy_id) matching) (sorted_set required)

-- `PolicyEngine(rules).evaluate(action, mode=mode, approvals=approvals)`, with the id and the time
-- that `PolicyDecision.create` takes.
unfoldable pub evaluate :
    List PolicyRule → String → String → ActionProposal → RuntimeMode → List String → PolicyDecision
unfolding evaluate_matching
evaluate rules decision_id decided_at action mode approvals =
    evaluate_matching decision_id decided_at action mode approvals
      (filter (is_matching action) (rules_or_default rules))
