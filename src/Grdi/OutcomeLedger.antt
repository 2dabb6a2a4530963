-- ===== src/Grdi/OutcomeLedger.antt =====
-- The shadow outcome of a plan (src/phigraph/grdi/outcome_ledger.py), with the states of
-- src/phigraph/grdi/models.py that it computes with.
pub mod Consistent
use phigraph.Prelude.{
  String, Bool, true, false, not, ◌&&◌, ◌||◌, List, [], ◌∷◌, map, ◌==◌, eqb, length, contains,
  if◌then◌else◌,
}
use phigraph.Python.Errors.{Result, ok, err, value_error}
use phigraph.Grdi.Models.{Host}

pub data EffectAssessmentState : Type 0 where
  matched deviated not_evaluated : EffectAssessmentState

pub data ShadowOutcomeState : Type 0 where
  consistent deviated not_evaluated : ShadowOutcomeState

pub record EffectAssessment : Type 0 where
  pub expected_effect : String
  pub simulated_observation : String
  pub state : EffectAssessmentState
  pub evidence_refs : List String
  pub rationale : String

-- `set(xs)`
abbrev pub text_set : List String → List String
text_set [] = []
text_set (x ∷ xs) = let rest = text_set xs in if contains xs x then rest else x ∷ rest

-- Every element of the first list is in the second.
abbrev pub all_in : List String → List String → Bool
all_in [] ys = true
all_in (x ∷ xs) ys = contains ys x && all_in xs ys

-- `set(xs) == set(ys)`
abbrev pub same_set : List String → List String → Bool
same_set xs ys = all_in xs ys && all_in ys xs

-- The loop of `validate_effect_assessments`; `seen` are the effects before.
validate_from : Host → List String → List EffectAssessment → Result (Unit {0})
validate_from host seen [] = ok tt
validate_from host seen (a ∷ rest) =
    let effect = host.strip a.expected_effect in
    let more = validate_from host (effect ∷ seen) rest in
    if effect == ""
    then err (value_error "expected_effect_required")
    else if host.strip a.simulated_observation == ""
    then err (value_error "simulated_observation_required")
    else if contains seen effect
    then err (value_error "duplicate_expected_effect")
    else more

unfoldable pub validate_effect_assessments : Host → List EffectAssessment → Result (Unit {0})
unfolding validate_from
validate_effect_assessments host assessments = validate_from host [] assessments

abbrev pub matches : EffectAssessmentState → Bool
matches matched = true
matches _ = false

abbrev pub is_matched : EffectAssessment → Bool
is_matched a = matches a.state

abbrev pub deviates : EffectAssessmentState → Bool
deviates EffectAssessmentState.deviated = true
deviates _ = false

abbrev pub is_deviated : EffectAssessment → Bool
is_deviated a = deviates a.state

abbrev pub lacks : EffectAssessmentState → Bool
lacks EffectAssessmentState.not_evaluated = true
lacks _ = false

abbrev pub is_unevaluated : EffectAssessment → Bool
is_unevaluated a = lacks a.state

-- `any(p(x) for x in xs)` and `all(p(x) for x in xs)`
abbrev pub any_of : (EffectAssessment → Bool) → List EffectAssessment → Bool
any_of p [] = false
any_of p (a ∷ rest) = p a || any_of p rest

abbrev pub all_of : (EffectAssessment → Bool) → List EffectAssessment → Bool
all_of p [] = true
all_of p (a ∷ rest) = p a && all_of p rest

abbrev pub is_no_effect : List String → Bool
is_no_effect [] = true
is_no_effect (x ∷ xs) = false

unfoldable pub aggregate_outcome_state : List String → List EffectAssessment → ShadowOutcomeState
aggregate_outcome_state expected_effects assessments =
    let effects = map (λ a. a.expected_effect) assessments in
    if is_no_effect expected_effects
    then ShadowOutcomeState.not_evaluated
    else if not (eqb (length effects) (length (text_set effects)))
    then ShadowOutcomeState.not_evaluated
    else if not (same_set effects expected_effects)
    then ShadowOutcomeState.not_evaluated
    else if any_of is_unevaluated assessments
    then ShadowOutcomeState.not_evaluated
    else if any_of is_deviated assessments
    then ShadowOutcomeState.deviated
    else if all_of is_matched assessments
    then ShadowOutcomeState.consistent
    else ShadowOutcomeState.not_evaluated
