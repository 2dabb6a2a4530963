-- ===== src/EvidenceLedger/Runs.antt =====
-- Calls of the evidence ledger (src/phigraph/core_v3/ledger.py) one after another.
use phigraph.Prelude.{
  ℕ, ◌+◌, ◌≤◌, String, ◌≡◌, refl, sym, ap, ◌∙◌, true, Option, List, [], ◌∷◌, contains, arith,
}
use phigraph.Prelude.Sets.{Occurs-contains}
use phigraph.Python.{Runtime}
use phigraph.Python.Values.{Fields}
use phigraph.Python.Errors.{Error, Result, ok, err}
use phigraph.Python.Dict.{Dict}
use phigraph.EvidenceLedger.Models.{
  Evidence, Claim, Verification, ActionProposal, PolicyDecision, Outcome,
}
use phigraph.EvidenceLedger.Chain.{
  Payload, collections, read_all, append_row, append, saved, ChainReport, valid, verify_chain,
  repair_chain,
}
use phigraph.EvidenceLedger.Registers.{
  EvidenceLedger, CallScope, returned, register_evidence, register_claim, register_action,
  record_policy_decision, record_outcome,
}
use phigraph.EvidenceLedger.Verifications.{record_verification}
use phigraph.EvidenceLedger.Extensions.{
  register_scoped_record, register_scoped_record_once, update_scoped_record,
}
use phigraph.EvidenceLedger.Validity.{total}
use phigraph.EvidenceLedger.Kept.{IsValid, verify_chain-IsValid, IsValid-verify_chain}
use phigraph.EvidenceLedger.Writes.{
  Keeps, unchanged, append-Keeps, returned-file, register_scoped_record-Keeps, register_once-Keeps,
  appended, IsValid-chained, rechained-Keeps, total-read_all,
}
use phigraph.EvidenceLedger.Updates.{update_record-Keeps, record_verification-Keeps}

-- A public call that writes the ledger.
pub data Call : Type 0 where
  evidence_call : Evidence → CallScope → Call
  claim_call : Claim → CallScope → Call
  verification_call : Verification → CallScope → Call
  action_call : ActionProposal → CallScope → Call
  policy_call : PolicyDecision → CallScope → Call
  outcome_call : Outcome → CallScope → Call
  register_call once_call update_call : String → Fields → String → CallScope → Call
  repair_call : Call

-- The file that a call leaves, whether it returns or raises.
unfoldable pub perform : EvidenceLedger → Call → Payload → Payload
perform ledger (evidence_call e s) file = (register_evidence ledger e s file).1
perform ledger (claim_call c s) file = (register_claim ledger c s file).1
perform ledger (verification_call v s) file = (record_verification ledger v s file).1
perform ledger (action_call a s) file = (register_action ledger a s file).1
perform ledger (policy_call d s) file = (record_policy_decision ledger d s file).1
perform ledger (outcome_call o s) file = (record_outcome ledger o s file).1
perform ledger (register_call c row key s) file =
    (register_scoped_record (ledger.runtime) c row key s file).1
perform ledger (once_call c row key s) file =
    (register_scoped_record_once (ledger.runtime) c row key s file).1
perform ledger (update_call c row key s) file =
    (update_scoped_record (ledger.runtime) c row key s file).1
perform ledger repair_call file = (repair_chain (ledger.runtime) file).1

unfoldable pub run_calls : EvidenceLedger → List Call → Payload → Payload
unfolding perform
run_calls ledger [] file = file
run_calls ledger (call ∷ calls) file = run_calls ledger calls (perform ledger call file)

-- A registration in one of the collections.
registered-Keeps :
    {A : Type 0} (ledger : EvidenceLedger) (c : String) (row : Fields) (key : String) (a : A)
    (file : Payload)
    → contains collections c ≡ true
    → IsValid (ledger.runtime) file
    → Keeps (ledger.runtime) file (returned a (append (ledger.runtime) c row key file)).1
registered-Keeps ledger c row key a file o h =
    rw returned-file
      (append-Keeps (ledger.runtime) c row key file (Occurs-contains c collections o) h)

perform-Keeps :
    (ledger : EvidenceLedger) (call : Call) (file : Payload)
    → IsValid (ledger.runtime) file
    → Keeps (ledger.runtime) file (perform ledger call file)
unfolding perform register_evidence register_claim register_action record_policy_decision
    record_outcome repair_chain
perform-Keeps ledger (evidence_call e s) file h =
    registered-Keeps ledger "evidence" _ "evidence_id" _ file refl h
perform-Keeps ledger (claim_call c s) file h =
    registered-Keeps ledger "claims" _ "claim_id" _ file refl h
perform-Keeps ledger (verification_call v s) file h = record_verification-Keeps ledger v s file h
perform-Keeps ledger (action_call a s) file h =
    registered-Keeps ledger "actions" _ "action_id" _ file refl h
perform-Keeps ledger (policy_call d s) file h =
    registered-Keeps ledger "policy_decisions" _ "decision_id" _ file refl h
perform-Keeps ledger (outcome_call o s) file h =
    registered-Keeps ledger "outcomes" _ "outcome_id" _ file refl h
perform-Keeps ledger (register_call c row key s) file h =
    register_scoped_record-Keeps (ledger.runtime) c row key s file h
perform-Keeps ledger (once_call c row key s) file h =
    register_once-Keeps (ledger.runtime) c row key s file h
perform-Keeps ledger (update_call c row key s) file h =
    update_record-Keeps (ledger.runtime) c row key s file h
perform-Keeps ledger repair_call file h =
    rechained-Keeps (ledger.runtime) file _ (omega (arith, total-read_all file))

run_calls-Keeps :
    (ledger : EvidenceLedger) (calls : List Call) (file : Payload)
    → IsValid (ledger.runtime) file
    → Keeps (ledger.runtime) file (run_calls ledger calls file)
unfolding run_calls
run_calls-Keeps ledger [] file h = unchanged (ledger.runtime) file h
run_calls-Keeps ledger (call ∷ calls) file h =
    let one = perform-Keeps ledger call file h in
    let rest = run_calls-Keeps ledger calls (perform ledger call file) (one.0) in
    (rest.0, omega (arith, one.1, rest.1))

-- The number that a valid report states is the number of rows.
report-total :
    (runtime : Runtime) (file : Payload) (n : ℕ) (heads : Dict (Option String))
    → verify_chain runtime file ≡ ok (valid n heads)
    → n ≡ total collections file
report-total runtime file n heads h =
    let report = verify_chain-IsValid runtime file (IsValid-verify_chain runtime file n heads h) in
    valid-inj (sym h ∙ report.1)
  where
    valid-inj :
        {m k : ℕ} {d e : Dict (Option String)}
        → ◌≡◌ {A = Result ChainReport} (ok (valid m d)) (ok (valid k e))
        → m ≡ k
    valid-inj e = cc

-- From a ledger that `verify_chain` reports as valid, any sequence of registrations, verifications,
-- updates and repairs, whether they return or raise, ends in a ledger that it reports as valid,
-- with at least as many rows.
pub run_calls-valid :
    (ledger : EvidenceLedger) (calls : List Call) (file : Payload) (n : ℕ)
    (heads : Dict (Option String))
    → verify_chain (ledger.runtime) file ≡ ok (valid n heads)
    → (m : ℕ) × (heads' : Dict (Option String)) × (n ≤ m)
      × (verify_chain (ledger.runtime) (run_calls ledger calls file) ≡ ok (valid m heads'))
run_calls-valid ledger calls file n heads h =
    let kept =
      run_calls-Keeps ledger calls file (IsValid-verify_chain (ledger.runtime) file n heads h) in
    let report = verify_chain-IsValid (ledger.runtime) (run_calls ledger calls file) (kept.0) in
    (
      total collections (run_calls ledger calls file),
      report.0,
      omega (arith, report-total (ledger.runtime) file n heads h, kept.1),
      report.1,
    )

pub saved-ok :
    {A : Type 0} {a : A} (file : Payload) {file' : Payload} (r : Result (A × Payload))
    → saved file r ≡ (ok a, file')
    → r ≡ ok (a, file')
saved-ok file (err e) h = absurd (err-ok (ap (λ m. m.0) h))
  where
    err-ok : {B : Type 0} {b : B} {x : Error} → ◌≡◌ {A = Result B} (err x) (ok b) → ⊥
    err-ok k = cc
saved-ok file (ok (b, file'')) h = cc

-- An append that returns to a collection of a valid ledger leaves a valid ledger with one row more.
pub append-valid :
    (runtime : Runtime) (collection : String) (row stored : Fields) (key : String)
    (file file' : Payload) (n : ℕ) (heads : Dict (Option String))
    → contains collections collection ≡ true
    → verify_chain runtime file ≡ ok (valid n heads)
    → append runtime collection row key file ≡ (ok stored, file')
    → (heads' : Dict (Option String)) × (verify_chain runtime file' ≡ ok (valid (n + 1) heads'))
unfolding append
append-valid runtime collection row stored key file file' n heads o h e =
    let written =
      saved-ok file (append_row runtime collection row key (read_all collections file)) e in
    let step =
      appended runtime collection row key (read_all collections file) file' stored written in
    let kept =
      IsValid-chained runtime collection row file file' (step.0) stored
        (Occurs-contains collection collections o) (IsValid-verify_chain runtime file n heads h)
        (step.1) (step.2) in
    let report = verify_chain-IsValid runtime file' (kept.0) in
    let count : total collections file' ≡ n + 1 =
      omega (arith, kept.1, report-total runtime file n heads h) in
    (report.0, report.1 ∙ ap (λ m. ok (valid m (report.0))) count)
