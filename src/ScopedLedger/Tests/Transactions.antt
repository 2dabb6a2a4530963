-- ===== src/ScopedLedger/Tests/Transactions.antt =====
-- Transactions on an empty ledger, and its verification.
use phigraph.Prelude.{
  String, ◌≡◌, refl, true, some, none, ◌+◌, length, filter, nul_free, List, [], ◌∷◌,
}
use phigraph.Prelude.Order.{str_le}
use phigraph.Python.Errors.{ok, err, value_error}
use phigraph.Python.Dict.{lookup, insert, values}
use phigraph.Python.Values.{get, put}
use phigraph.Transactions.Collections.{
  extract_record_id, is_chain_linked_collection, validate_collection,
}
use phigraph.Transactions.Locks.{normalize_lock_refs, build_lock_context, require_write_locks}
use phigraph.ScopedLedger.Rows.{StoredRow, row_of, build_row, scoped_key, head_key}
use phigraph.ScopedLedger.Store.{
  StoreState, rebuild, row_of_item, item_of_row, read_json_state, write_json_state,
}
use phigraph.ScopedLedger.Append.{
  json_append, append_at, append_linked, append_standalone, store_linked, store_standalone,
  next_mutable_sequence, in_scope,
}
use phigraph.ScopedLedger.Cas.{json_cas, cas_at, apply_cas, check_expected, replaced}
use phigraph.ScopedLedger.Engine.{
  active_state, active_or, ensure_multiprocess_json_allowed, append_scoped, append_guards,
  compare_and_set_scoped, cas_guards, no_expectation, mutate, keep_state,
}
use phigraph.ScopedLedger.Session.{
  Script, return, raise, call, ScopedTransactionSession, session_append, session_cas, run_script,
  begin, run_scoped_transaction, transaction_guards, perform, finish,
}
use phigraph.ScopedLedger.Session.Atomic.{
  run_scoped_transaction_error, run_scoped_transaction_commits,
}
use phigraph.ScopedLedger.Verify.{Filter, VerifyReport, verify_json_state, is_standalone}
use phigraph.ScopedLedger.Verify.Accepts.{verify_json_state-accepts}
use phigraph.ScopedLedger.Verify.Counts.{is_verified}
use phigraph.ScopedLedger.Invariant.{IsWellFormed}
use phigraph.ScopedLedger.Invariant.Transactions.{AreNulFree, run_scoped_transaction-IsWellFormed}
use phigraph.ScopedLedger.Tests.Samples.{
  runtime, envelope, claim, closed_claim, locks, engine, empty-IsWellFormed,
}

-- An envelope, a claim, and the claim closed, where answers are not looked at.
abbrev three_writes : ScopedTransactionSession → Script String
three_writes session =
    call "t0" (session_append session "decision_envelopes" "e1" envelope) (λ first.
      call "t1" (session_append session "claims" "c1" claim) (λ second.
        call "t2" (session_cas session "claims" "c1" closed_claim (some 1) none)
          (λ third. return "done")))

-- The same, where the function raises at the end.
abbrev three_writes_and_raise : ScopedTransactionSession → Script String
three_writes_and_raise session =
    call "t0" (session_append session "decision_envelopes" "e1" envelope) (λ first.
      call "t1" (session_append session "claims" "c1" claim) (λ second.
        call "t2" (session_cas session "claims" "c1" closed_claim (some 1) none)
          (λ third. raise (value_error "at the end"))))

abbrev session : ScopedTransactionSession
session = record { tenant_id = "tenant"; project_id = "project" }

empty_file-IsWellFormed : IsWellFormed runtime (read_json_state engine.file)
unfolding read_json_state rebuild
empty_file-IsWellFormed = empty-IsWellFormed runtime

three_writes-AreNulFree : AreNulFree (three_writes session)
unfolding nul_free
three_writes-AreNulFree =
    ((refl, refl), λ first. ((refl, refl), λ second. ((refl, refl), λ third. tt)))

run_scoped_transaction-IsWellFormed_example :
    IsWellFormed runtime
      (read_json_state (run_scoped_transaction runtime session locks three_writes engine).1.file)
run_scoped_transaction-IsWellFormed_example =
    run_scoped_transaction-IsWellFormed runtime session locks three_writes engine
      three_writes-AreNulFree empty_file-IsWellFormed

three_writes-returns :
    (run_scoped_transaction runtime session locks three_writes engine).0 ≡ ok "done"
unfolding run_scoped_transaction transaction_guards ensure_multiprocess_json_allowed
three_writes-returns = refl

run_scoped_transaction_commits_example :
    ((run_script runtime (three_writes session) (begin locks engine)).0 ≡ ok "done")
    × (read_json_state (run_scoped_transaction runtime session locks three_writes engine).1.file
        ≡ active_state (run_script runtime (three_writes session) (begin locks engine)).1)
run_scoped_transaction_commits_example =
    run_scoped_transaction_commits runtime session locks three_writes engine "done"
      three_writes-AreNulFree empty_file-IsWellFormed three_writes-returns

three_writes-raises :
    (run_scoped_transaction runtime session locks three_writes_and_raise engine).0
    ≡ err (value_error "at the end")
unfolding run_scoped_transaction transaction_guards ensure_multiprocess_json_allowed
three_writes-raises = refl

run_scoped_transaction_error_example :
    (run_scoped_transaction runtime session locks three_writes_and_raise engine).1.file
    ≡ engine.file
run_scoped_transaction_error_example =
    run_scoped_transaction_error runtime session locks three_writes_and_raise engine
      (value_error "at the end") three_writes-raises

abbrev everything : Filter
everything = record { tenant_id = none; project_id = none; collection = none }

abbrev committed : StoreState
committed =
    read_json_state (run_scoped_transaction runtime session locks three_writes engine).1.file

verify_json_state-accepts_example :
    (report : VerifyReport) × (verify_json_state runtime everything committed ≡ ok report)
    × (report.valid ≡ true)
    × (report.checked
        ≡ length (filter (is_verified everything) (values committed.records))
          + length (filter (is_standalone everything) (values committed.records)))
verify_json_state-accepts_example =
    verify_json_state-accepts runtime committed run_scoped_transaction-IsWellFormed_example
      everything

abbrev kinds : List StoredRow → List String
kinds [] = []
kinds (row ∷ rows) = row.collection ∷ kinds rows

-- The transaction stored both records.
two_records_committed : kinds (values committed.records) ≡ ("decision_envelopes" ∷ "claims" ∷ [])
unfolding run_scoped_transaction transaction_guards ensure_multiprocess_json_allowed run_script
    begin finish perform append_scoped append_guards validate_collection require_write_locks
    normalize_lock_refs build_lock_context mutate keep_state active_state active_or
    compare_and_set_scoped cas_guards no_expectation is_chain_linked_collection read_json_state
    write_json_state rebuild row_of_item item_of_row json_append append_at append_linked
    append_standalone store_linked store_standalone next_mutable_sequence in_scope build_row row_of
    extract_record_id lookup insert get put json_cas cas_at apply_cas check_expected replaced
    scoped_key head_key str_le
two_records_committed = refl
