-- ===== src/Grdi/Authority/FailClosed.antt =====
-- What an authorization rests on: the engine fails closed.
use phigraph.Prelude.{
  String, ◌≡◌, ◌≢◌, refl, sym, ap, ◌∙◌, Bool, true, false, ◌&&◌, ◌||◌, Option, none, some, List, [],
  ◌∷◌, arith, ◌==◌, eq_iff, contains, Bool-cases, and-true, ◌↔◌, ◌⊎◌, inl, inr,
}
use phigraph.Python.Values.{
  Json, null, bool, num, other_num, str, arr, obj, Fields, get, eq_opt_str,
}
use phigraph.Python.Errors.{Error, ok, err, >>=-eq-ok}
use phigraph.Grdi.Models.{
  Host, VerificationState, verified, not_verified, authorized, not_authorized, not_executable,
  not_executed, Approval, DecisionEnvelope, AuthorityDecision,
}
use phigraph.Grdi.Receipts.{ReceiptSigner, verify, dict_at}
use phigraph.Grdi.Authority.{
  Progress, refused, is_nil, text_verdict, judged, scope_reasons, judge_receipt, verification_of,
  any_rejected, any_by, authorize, authorize_verified, evaluate,
}

-- The receipt verifies with a configured signer, names the envelope's scope, and says PASS.
pub record HasValidReceipt (host : Host) (o : Option ReceiptSigner) (envelope : DecisionEnvelope)
    : Type 0 where
  pub signer : ReceiptSigner
  pub configured : o ≡ some signer
  pub genuine : verify host signer envelope.hav_receipt ≡ ok true
  pub governance : Fields
  pub governed : dict_at "governance" envelope.hav_receipt ≡ ok governance
  pub tenant : eq_opt_str (get "tenant_id" governance) (some envelope.tenant_id) ≡ true
  pub project : eq_opt_str (get "project_id" governance) (some envelope.project_id) ≡ true
  pub pass : get "verdict" envelope.hav_receipt ≡ some (str "PASS")

-- The subject is not the proposer and has the required role or the role admin, no approval is
-- rejected or the proposer's own, and there is one where the risk is high or critical.
pub record IsEntitled (envelope : DecisionEnvelope) (subject role : String)
    (approvals : List Approval) : Type 0 where
  pub independent : subject ≢ envelope.proposed_by
  pub competent : (role ≡ envelope.required_authority) ⊎ (role ≡ "admin")
  pub unrejected : any_rejected approvals ≡ false
  pub approved :
      contains ("high" ∷ "critical" ∷ []) envelope.risk_level ≡ true → is_nil approvals ≡ false
  pub disinterested : any_by envelope.proposed_by approvals ≡ false

verified≢not : not_verified ≡ verified → ⊥
verified≢not h = cc

not≢authorized : not_authorized ≡ authorized → ⊥
not≢authorized h = cc

err≢ok : {A : Type 0} {x : Error} {a : A} → err x ≡ ok a → ⊥
err≢ok h = cc

ok-inj : {A : Type 0} {a b : A} → ok a ≡ ok b → a ≡ b
ok-inj h = cc

true≢false : {b : Bool} → b ≡ true → b ≡ false → ⊥
true≢false h k = cc

or_iff : (a b : Bool) → ((a || b) ≡ true) ↔ ((a ≡ true) ⊎ (b ≡ true))
or_iff a b = ground arith

text_verdict-verified :
    (reasons : List String) (verdict : String)
    → (text_verdict reasons verdict).verification ≡ verified
    → (verdict ≡ "PASS") × (is_nil reasons ≡ true)
unfolding text_verdict
text_verdict-verified reasons verdict h =
    let both : verdict == "PASS" && is_nil reasons ≡ true = ground arith in
    let (pass, none_yet) = and-true _ _ both in ((eq_iff verdict "PASS").0 pass, none_yet)

authorize-authorized :
    (envelope : DecisionEnvelope) (subject role : String) (approvals : List Approval) (p : Progress)
    → p.authorization ≢ authorized
    → (authorize envelope subject role approvals p).authorization ≡ authorized
    → IsEntitled envelope subject role approvals
unfolding authorize
authorize-authorized envelope subject role approvals p fresh h =
    let other : subject == envelope.proposed_by ≡ false = ground arith in
    let role_fits : (role == envelope.required_authority || role == "admin") ≡ true =
      ground arith in
    record {
      independent = λ same. true≢false ((eq_iff subject envelope.proposed_by).1 same) other;
      competent = elim ((or_iff _ _).0 role_fits) [
        | inl own ↦ inl ((eq_iff role envelope.required_authority).0 own)
        | inr admin ↦ inr ((eq_iff role "admin").0 admin)
      ];
      unrejected = ground arith;
      approved = λ high. ground arith;
      disinterested = ground arith;
    }

-- What a verdict that ends in VERIFIED was, and that there was no reason against it.
judged-verified :
    (reasons : List String) (v : Option Json) (p : Progress)
    → judged reasons v ≡ ok p
    → p.verification ≡ verified
    → (v ≡ some (str "PASS")) × (is_nil reasons ≡ true)
unfolding judged
judged-verified reasons (some (str verdict)) p h k =
    let (pass, clear) =
      text_verdict-verified reasons verdict (ap (λ q. q.verification) (ok-inj h) ∙ k) in
    (ap (λ s. some (str s)) pass, clear)
judged-verified reasons (some (arr _)) p h k = cc
judged-verified reasons (some (obj _)) p h k = cc
judged-verified reasons none p h k = absurd (verified≢not (ap (λ q. q.verification) (ok-inj h) ∙ k))
judged-verified reasons (some null) p h k =
    absurd (verified≢not (ap (λ q. q.verification) (ok-inj h) ∙ k))
judged-verified reasons (some (bool _)) p h k =
    absurd (verified≢not (ap (λ q. q.verification) (ok-inj h) ∙ k))
judged-verified reasons (some (num _)) p h k =
    absurd (verified≢not (ap (λ q. q.verification) (ok-inj h) ∙ k))
judged-verified reasons (some (other_num _)) p h k =
    absurd (verified≢not (ap (λ q. q.verification) (ok-inj h) ∙ k))

refused_unauthorized :
    (p : Progress) (reasons : List String)
    → ok (refused reasons) ≡ ok p
    → p.authorization ≢ authorized
refused_unauthorized p reasons h k = not≢authorized (ap (λ q. q.authorization) (ok-inj h) ∙ k)

text_verdict_unauthorized :
    (reasons : List String) (verdict : String)
    → (text_verdict reasons verdict).authorization ≢ authorized
unfolding text_verdict
text_verdict_unauthorized reasons verdict h = ground arith

judged_unauthorized :
    (reasons : List String) (v : Option Json) (p : Progress)
    → judged reasons v ≡ ok p
    → p.authorization ≢ authorized
unfolding judged
judged_unauthorized reasons (some (str verdict)) p h =
    λ k. text_verdict_unauthorized reasons verdict (ap (λ q. q.authorization) (ok-inj h) ∙ k)
judged_unauthorized reasons (some (arr _)) p h = absurd (err≢ok h)
judged_unauthorized reasons (some (obj _)) p h = absurd (err≢ok h)
judged_unauthorized reasons none p h = refused_unauthorized p _ h
judged_unauthorized reasons (some null) p h = refused_unauthorized p _ h
judged_unauthorized reasons (some (bool _)) p h = refused_unauthorized p _ h
judged_unauthorized reasons (some (num _)) p h = refused_unauthorized p _ h
judged_unauthorized reasons (some (other_num _)) p h = refused_unauthorized p _ h

module _ (host : Host) (envelope : DecisionEnvelope) where
  verification_of-verified :
      (o : Option ReceiptSigner) (p : Progress)
      → verification_of host o envelope ≡ ok p
      → p.verification ≡ verified
      → HasValidReceipt host o envelope
  unfolding verification_of judge_receipt
  verification_of-verified none p h k =
      absurd (verified≢not (ap (λ q. q.verification) (ok-inj h) ∙ k))
  verification_of-verified (some signer) p h k =
      let (valid, checked, judge) =
        >>=-eq-ok (verify host signer envelope.hav_receipt) (judge_receipt envelope) h in
      elim (Bool-cases valid) [
        | inr bad ↦ absurd (verified≢not (ap (λ q. q.verification) (ok-inj (rw bad at judge)) ∙ k))
        | inl good ↦
            let (governance, governed, rest) =
              >>=-eq-ok (dict_at "governance" envelope.hav_receipt)
                (λ g. judged (scope_reasons envelope g) (get "verdict" envelope.hav_receipt))
                (rw good at judge) in
            let (pass, clear) = judged-verified (scope_reasons envelope governance) _ p rest k in
            record {
              signer = signer;
              configured = refl;
              genuine = checked ∙ ap ok good;
              governance = governance;
              governed = governed;
              tenant = ground arith;
              project = ground arith;
              pass = pass;
            }
      ]

  authorize_verified-authorized :
      (subject role : String) (approvals : List Approval) (v : VerificationState) (p : Progress)
      → p.authorization ≢ authorized
      → (authorize_verified envelope subject role approvals v p).authorization ≡ authorized
      → (v ≡ verified) × IsEntitled envelope subject role approvals
  unfolding authorize_verified
  authorize_verified-authorized subject role approvals verified p fresh h =
      (refl, authorize-authorized envelope subject role approvals p fresh h)
  authorize_verified-authorized subject role approvals not_verified p fresh h = absurd (fresh h)

  -- The first block authorizes nothing.
  verification_of_unauthorized :
      (o : Option ReceiptSigner) (p : Progress)
      → verification_of host o envelope ≡ ok p
      → p.authorization ≢ authorized
  unfolding verification_of judge_receipt
  verification_of_unauthorized none p h = refused_unauthorized p _ h
  verification_of_unauthorized (some signer) p h =
      let (valid, checked, judge) =
        >>=-eq-ok (verify host signer envelope.hav_receipt) (judge_receipt envelope) h in
      elim (Bool-cases valid) [
        | inr bad ↦ refused_unauthorized p _ (rw bad at judge)
        | inl good ↦
            let (governance, governed, rest) =
              >>=-eq-ok (dict_at "governance" envelope.hav_receipt)
                (λ g. judged (scope_reasons envelope g) (get "verdict" envelope.hav_receipt))
                (rw good at judge) in
            judged_unauthorized _ _ p rest
      ]

  -- An authorization is given only to an envelope whose receipt verifies with the configured
  -- signer, is in the envelope's scope and says PASS, and to a subject who is not its proposer and
  -- has the role that the envelope requires or the role admin, with no approval rejected or by the
  -- proposer, and with an approval where the risk is high or critical. Even then the decision says
  -- that nothing is executable or executed.
  pub evaluate-authorized :
      (o : Option ReceiptSigner) (new_id now subject role : String) (approvals : List Approval)
      (d : AuthorityDecision)
      → evaluate host o new_id now envelope subject role approvals ≡ ok d
      → d.authorization_state ≡ authorized
      → HasValidReceipt host o envelope
        × IsEntitled envelope subject role approvals
        × (d.executability_state ≡ not_executable)
        × (d.execution_state ≡ not_executed)
  unfolding evaluate
  evaluate-authorized o new_id now subject role approvals d h k =
      let (p, judged_p, made) = >>=-eq-ok (verification_of host o envelope) _ h in
      let (v, entitled) =
        authorize_verified-authorized subject role approvals p.verification p
          (verification_of_unauthorized o p judged_p)
          (ap (λ x. x.authorization_state) (ok-inj made) ∙ k) in
      (
        verification_of-verified o p judged_p v,
        entitled,
        sym (ap (λ x. x.executability_state) (ok-inj made)),
        sym (ap (λ x. x.execution_state) (ok-inj made)),
      )
