-- ===== src/Policy/Decides.antt =====
-- What the policy engine (src/phigraph/core_v3/policy.py) decides.
use phigraph.Prelude.{
  String, ◌≡◌, refl, ◌∙◌, Bool, true, false, not, ◌&&◌, List, [], ◌∷◌, ◌++◌, inl, inr, arith,
  filter, contains, Bool-cases, if◌then◌else◌,
}
use phigraph.Prelude.Order.{str_order}
use phigraph.Prelude.Sort.{insert_by, sort_by}
use phigraph.EvidenceLedger.Models.{
  ActionProposal, DecisionEffect, allow, require_approval, block, RuntimeMode,
}
use phigraph.EvidenceLedger.Verifications.{unique, is_empty}
use phigraph.Policy.{
  PolicyRule, has_mode, exceeds_risk, rules_or_default, is_matching, reason_if, all_reasons,
  all_required, missing_approvals, judged, evaluate_matching, evaluate,
}

-- Whether all elements pass the test.
abbrev pub every : {A : Type 0} → (A → Bool) → List A → Bool
every p [] = true
every p (x ∷ xs) = p x && every p xs

-- The rule lets the action pass in the mode.
abbrev pub is_satisfied : ActionProposal → RuntimeMode → PolicyRule → Bool
is_satisfied action mode rule =
    has_mode (rule.allowed_modes) mode
    && (not (exceeds_risk action rule) && not (rule.require_reversible && not (action.reversible)))

-- The approvals that the rule requires are given.
abbrev pub is_approved : List String → PolicyRule → Bool
is_approved approvals rule = every (contains approvals) (rule.required_approvals)

is_empty-append : (xs ys : List String) → is_empty (xs ++ ys) ≡ (is_empty xs && is_empty ys)
is_empty-append [] ys = refl
is_empty-append (x ∷ xs) ys = refl

is_empty-reason_if :
    (b : Bool) (text : String) (rule : PolicyRule) → is_empty (reason_if b text rule) ≡ not b
is_empty-reason_if true text rule = refl
is_empty-reason_if false text rule = refl

double_negation : (b : Bool) → not (not b) ≡ b
double_negation true = refl
double_negation false = refl

-- There is a reason against the action exactly if a rule is not satisfied.
is_empty-all_reasons :
    (action : ActionProposal) (mode : RuntimeMode) (rules : List PolicyRule)
    → is_empty (all_reasons action mode rules) ≡ every (is_satisfied action mode) rules
unfolding all_reasons
is_empty-all_reasons action mode [] = refl
is_empty-all_reasons action mode (rule ∷ rules) =
    rw
      (
        is_empty-append,
        is_empty-append,
        is_empty-append,
        is_empty-reason_if,
        is_empty-reason_if,
        is_empty-reason_if,
        double_negation,
        is_empty-all_reasons action mode rules,
      )
      refl

is_empty-insert_by :
    (x : String) (xs : List String) → is_empty (insert_by str_order (λ s. s) x xs) ≡ false
is_empty-insert_by x [] = refl
is_empty-insert_by x (y ∷ ys) = elim (Bool-cases (str_order.le x y)) [
  | inl before ↦ rw before refl
  | inr after ↦ rw after refl
]

is_empty-sort_by : (xs : List String) → is_empty (sort_by str_order (λ s. s) xs) ≡ is_empty xs
is_empty-sort_by [] = refl
is_empty-sort_by (x ∷ xs) = is_empty-insert_by x (sort_by str_order (λ s. s) xs)

is_empty_if :
    (s : String) (xs : List String) → is_empty (if contains xs s then xs else s ∷ xs) ≡ false
is_empty_if s [] = refl
is_empty_if s (x ∷ xs) = elim (Bool-cases (contains (x ∷ xs) s)) [
  | inl there ↦ rw there refl
  | inr new ↦ rw new refl
]

is_empty-unique : (xs : List String) → is_empty (unique xs) ≡ is_empty xs
unfolding unique
is_empty-unique [] = refl
is_empty-unique (s ∷ ss) = is_empty_if s (unique ss)

is_empty-filter :
    (approvals xs : List String)
    → is_empty (filter (λ role. not (contains approvals role)) xs) ≡ every (contains approvals) xs
is_empty-filter approvals [] = refl
is_empty-filter approvals (x ∷ xs) = elim (Bool-cases (contains approvals x)) [
  | inl given ↦ rw given (is_empty-filter approvals xs)
  | inr missing ↦ rw missing refl
]

every-append :
    (p : String → Bool) (xs ys : List String) → every p (xs ++ ys) ≡ (every p xs && every p ys)
every-append p [] ys = refl
every-append p (x ∷ xs) ys = ground (arith, every-append p xs ys)

every-all_required :
    (approvals : List String) (rules : List PolicyRule)
    → every (contains approvals) (all_required rules) ≡ every (is_approved approvals) rules
unfolding all_required
every-all_required approvals [] = refl
every-all_required approvals (rule ∷ rules) =
    rw (every-append, every-all_required approvals rules) refl

-- An approval is missing exactly if a rule is not approved.
is_empty-missing_approvals :
    (approvals : List String) (rules : List PolicyRule)
    → is_empty (missing_approvals (all_required rules) approvals)
      ≡ every (is_approved approvals) rules
unfolding missing_approvals
is_empty-missing_approvals approvals rules =
    is_empty-sort_by (unique (filter (λ role. not (contains approvals role)) (all_required rules)))
    ∙ is_empty-unique (filter (λ role. not (contains approvals role)) (all_required rules))
    ∙ is_empty-filter approvals (all_required rules)
    ∙ every-all_required approvals rules

-- The effect that the rules which match call for.
abbrev pub called_for :
    List PolicyRule → ActionProposal → RuntimeMode → List String → DecisionEffect
called_for [] action mode approvals = block
called_for (rule ∷ rules) action mode approvals =
    if every (is_satisfied action mode) (rule ∷ rules)
    then (if every (is_approved approvals) (rule ∷ rules) then allow else require_approval)
    else block

judged-effect :
    (reasons missing : List String) (mode : RuntimeMode)
    → (judged reasons missing mode).0
      ≡ (if is_empty reasons then (if is_empty missing then allow else require_approval) else block)
judged-effect (r ∷ reasons) missing mode = refl
judged-effect [] (m ∷ missing) mode = refl
judged-effect [] [] mode = refl

evaluate_matching-effect :
    (decision_id decided_at : String) (action : ActionProposal) (mode : RuntimeMode)
    (approvals : List String) (matching : List PolicyRule)
    → (evaluate_matching decision_id decided_at action mode approvals matching).effect
      ≡ called_for matching action mode approvals
unfolding evaluate_matching
evaluate_matching-effect decision_id decided_at action mode approvals [] = refl
evaluate_matching-effect decision_id decided_at action mode approvals (rule ∷ rules) =
    judged-effect (all_reasons action mode (rule ∷ rules))
      (missing_approvals (all_required (rule ∷ rules)) approvals) mode
    ∙ rw (is_empty-all_reasons, is_empty-missing_approvals) refl

-- An action is blocked if no rule matches it or a matching rule is not satisfied by its mode, its
-- risk or its reversibility; else an approval is required if a matching rule's approval is
-- missing; else it is allowed.
pub evaluate-effect :
    (rules : List PolicyRule) (decision_id decided_at : String) (action : ActionProposal)
    (mode : RuntimeMode) (approvals : List String)
    → (evaluate rules decision_id decided_at action mode approvals).effect
      ≡ called_for (filter (is_matching action) (rules_or_default rules)) action mode approvals
unfolding evaluate
evaluate-effect rules decision_id decided_at action mode approvals =
    evaluate_matching-effect decision_id decided_at action mode approvals
      (filter (is_matching action) (rules_or_default rules))
