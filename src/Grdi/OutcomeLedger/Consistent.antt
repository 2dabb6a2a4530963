-- ===== src/Grdi/OutcomeLedger/Consistent.antt =====
-- When an outcome is consistent.
use phigraph.Prelude.{
  String, ◌≡◌, ◌≢◌, ◌≤◌, refl, sym, ap, Bool, true, false, List, [], ◌∷◌, map, arith, ◌==◌, eq_iff,
  eqb, eqb_iff, and-true, ◌+◌, length, All, contains, ◌↔◌, inl, inr, Bool-cases,
}
use phigraph.Prelude.Sort.{Occurs}
use phigraph.Prelude.Sets.{IsDistinct, HaveSame}
use phigraph.Grdi.OutcomeLedger.{
  EffectAssessmentState, ShadowOutcomeState, EffectAssessment, text_set, all_in, same_set, matches,
  is_matched, all_of, is_no_effect, aggregate_outcome_state,
}

contains_iff : (x : String) (xs : List String) → (contains xs x ≡ true) ↔ Occurs x xs
contains_iff x [] = (λ h. cc, λ h. elim h [ ])
contains_iff x (y ∷ ys) =
    let rest = contains_iff x ys in
    (
      λ h. elim (Bool-cases (y == x)) [
        | inl same ↦ inl (sym ((eq_iff y x).0 same))
        | inr other ↦ inr (rest.0 (ground arith))
      ],
      λ h. elim h [
        | inl e ↦ let same : y == x ≡ true = (eq_iff y x).1 (sym e) in ground arith
        | inr later ↦ let found = rest.1 later in ground arith
      ],
    )

length-text_set : (xs : List String) → length (text_set xs) ≤ length xs
length-text_set [] = omega arith
length-text_set (x ∷ xs) = let rest = length-text_set xs in ground arith

true≢false : {b : Bool} → b ≡ true → b ≡ false → ⊥
true≢false h k = cc

-- A list has as many elements as its set only if none stands twice.
full-IsDistinct : (xs : List String) → length xs ≡ length (text_set xs) → IsDistinct xs
full-IsDistinct [] h = tt
full-IsDistinct (x ∷ xs) h = elim (Bool-cases (contains xs x)) [
  | inl twice ↦
      let fewer : length xs + 1 ≡ length (text_set xs) = ground arith in
      let bound = length-text_set xs in let no : ⊥ = omega arith in absurd no
  | inr once ↦ (λ h'. true≢false ((contains_iff x xs).1 h') once, full-IsDistinct xs (ground arith))
]

all_in-Occurs :
    (xs ys : List String) → all_in xs ys ≡ true → (a : String) → Occurs a xs → Occurs a ys
all_in-Occurs [] ys h a o = elim o [ ]
all_in-Occurs (x ∷ xs) ys h a (inl e) = rw e ((contains_iff x ys).0 (and-true _ _ h).0)
all_in-Occurs (x ∷ xs) ys h a (inr later) = all_in-Occurs xs ys (and-true _ _ h).1 a later

matches-matched : (x : EffectAssessmentState) → matches x ≡ true → x ≡ EffectAssessmentState.matched
matches-matched EffectAssessmentState.matched h = refl
matches-matched EffectAssessmentState.deviated h = absurd (true≢false h refl)
matches-matched EffectAssessmentState.not_evaluated h = absurd (true≢false h refl)

all_matched :
    (xs : List EffectAssessment)
    → all_of is_matched xs ≡ true
    → All (λ a. a.state ≡ EffectAssessmentState.matched) xs
all_matched [] h = tt
all_matched (a ∷ xs) h =
    (matches-matched a.state (and-true _ _ h).0, all_matched xs (and-true _ _ h).1)

-- An outcome is consistent only if effects were expected, the assessments are of each of them,
-- of nothing else and of none twice, and every one matched.
pub aggregate_outcome_state-consistent :
    (expected : List String) (assessments : List EffectAssessment)
    → aggregate_outcome_state expected assessments ≡ ShadowOutcomeState.consistent
    → (expected ≢ [])
      × IsDistinct (map (λ a. a.expected_effect) assessments)
      × HaveSame (map (λ a. a.expected_effect) assessments) expected
      × All (λ a. a.state ≡ EffectAssessmentState.matched) assessments
unfolding aggregate_outcome_state
aggregate_outcome_state-consistent expected assessments h =
    let effects = map (λ a. a.expected_effect) assessments in
    let some_expected : is_no_effect expected ≡ false = ground arith in
    let full : eqb (length effects) (length (text_set effects)) ≡ true = ground arith in
    let same : same_set effects expected ≡ true = ground arith in
    let all : all_of is_matched assessments ≡ true = ground arith in
    let (there, back) = and-true _ _ same in
    (
      λ none. true≢false (ap is_no_effect none) some_expected,
      full-IsDistinct effects ((eqb_iff _ _).0 full),
      λ a. (all_in-Occurs effects expected there a, all_in-Occurs expected effects back a),
      all_matched assessments all,
    )
