-- ===== src/ScopedLedger/Session.antt =====
-- `ScopedTransactionSession` and `run_scoped_transaction` of
-- src/phigraph/core_v3/scoped_ledger.py, over the JSON backend.
pub mod Atomic
use phigraph.Prelude.{ℕ, zero, suc, String, Bool, true, false, Option, none, some, List}
use phigraph.Prelude.Int.{ℤ}
use phigraph.Python.{Runtime}
use phigraph.Python.Values.{Fields}
use phigraph.Python.Errors.{
  Error, Result, ok, err, value_error, transaction_unavailable, raise_if, ◌>>◌,
}
use phigraph.Transactions.Collections.{
  cas, append, read, validate_collection, is_chain_linked_collection,
}
use phigraph.Transactions.Locks.{
  LockRef, LockContext, normalize_lock_refs, build_lock_context, require_write_locks,
}
use phigraph.ScopedLedger.Store.{StoreState, Document, read_json_state, write_json_state}
use phigraph.ScopedLedger.Append.{AppendRequest, ScopedRecordResult, json_append}
use phigraph.ScopedLedger.Cas.{CasRequest, CompareAndSetResult, json_cas}
use phigraph.ScopedLedger.Query.{get_row, list_scoped, admin_list_scoped}
use phigraph.ScopedLedger.Engine.{
  Engine, ThreadTransactionState, active_or, active_state, append_guards, append_scoped, cas_guards,
  compare_and_set_scoped, ensure_multiprocess_json_allowed, get_scoped, guarded, idle, keep_state,
  mutate, no_expectation,
}

-- A call that the function of a transaction makes.
pub data Call : Type 0 where
  append_call : AppendRequest → Fields → Call
  cas_call : CasRequest → Fields → Call
  get_call : String → String → String → String → Call
  list_call : String → String → String → ℤ → ℤ → Call
  admin_list_call : String → Option String → Option String → ℤ → ℤ → Call
  nested_transaction : Call

-- What the function of a transaction is given: its methods fix the scope.
pub record ScopedTransactionSession : Type 0 where
  pub tenant_id : String
  pub project_id : String

-- `session.append_scoped` and `session.append_scoped_once`
abbrev pub session_append : ScopedTransactionSession → String → String → Fields → Call
session_append session collection canonical_key r =
    append_call
      (record {
        tenant_id = session.tenant_id;
        project_id = session.project_id;
        collection = collection;
        canonical_key = canonical_key;
      })
      r

-- `session.get_scoped`
abbrev pub session_get : ScopedTransactionSession → String → String → Call
session_get session collection canonical_key =
    get_call session.tenant_id session.project_id collection canonical_key

-- `session.list_scoped`
abbrev pub session_list : ScopedTransactionSession → String → ℤ → ℤ → Call
session_list session collection limit offset =
    list_call session.tenant_id session.project_id collection limit offset

-- `session.compare_and_set_scoped`
abbrev pub session_cas :
    ScopedTransactionSession → String → String → Fields → Option ℕ → Option String → Call
session_cas session collection canonical_key r expected_version expected_payload_hash =
    cas_call
      (record {
        tenant_id = session.tenant_id;
        project_id = session.project_id;
        collection = collection;
        canonical_key = canonical_key;
        expected_version = expected_version;
        expected_payload_hash = expected_payload_hash;
      })
      r

pub data Answer : Type 0 where
  appended : ScopedRecordResult → Answer
  set : CompareAndSetResult → Answer
  got : Fields → Answer
  listed : List Fields → Answer

abbrev pub answer : {A : Type 0} → (A → Answer) → Result A → Result Answer
answer f (ok a) = ok (f a)
answer f (err e) = err e

unfoldable pub list_guarded : Result (List Fields) → Engine → Result (List Fields)
list_guarded (err x) e = err x
list_guarded (ok rows) e = ensure_multiprocess_json_allowed e >> ok rows

-- What `run_scoped_transaction` raises inside a transaction, before it changes anything.
abbrev pub nested_error : Bool → Error
nested_error true =
    transaction_unavailable "JSON backend does not support multiprocess transactional mode"
nested_error false = transaction_unavailable "nested scoped transactions are not supported"

unfoldable pub perform : Runtime → String → Call → Engine → Result Answer × Engine
unfolding list_guarded
perform runtime now (append_call q r) e =
    let (a, e') = append_scoped runtime now q r e in (answer appended a, e')
perform runtime now (cas_call q r) e =
    let (a, e') = compare_and_set_scoped runtime now q r e in (answer set a, e')
perform runtime now (get_call t p c k) e = (answer got (get_scoped t p c k e), e)
perform runtime now (list_call t p c limit offset) e =
    (answer listed (list_guarded (list_scoped t p c limit offset (active_state e)) e), e)
perform runtime now (admin_list_call c t p limit offset) e =
    (answer listed (list_guarded (admin_list_scoped c t p limit offset (active_state e)) e), e)
perform runtime now nested_transaction e = (err (nested_error e.multiprocess), e)

-- What the caller's function does with its session: it returns, raises, or makes a call and goes
-- on from the answer, an exception included, which it may catch. A call is made at a time.
pub data Script (A : Type 0) : Type 0 where
  return : A → Script A
  raise : Error → Script A
  call : String → Call → (Result Answer → Script A) → Script A

unfoldable pub run_script : {A : Type 0} → Runtime → Script A → Engine → Result A × Engine
run_script runtime (return a) e = (ok a, e)
run_script runtime (raise x) e = (err x, e)
run_script runtime (call now c rest) e =
    let (a, e') = perform runtime now c e in run_script runtime (rest a) e'

-- `try: ... self._write_json_state(tls.active_json_state) finally: ...`
unfoldable pub finish : {A : Type 0} → Result A → Engine → Engine
finish (ok _) e = record e { file = write_json_state (active_state e); tls = idle }
finish (err _) e = record e { tls = idle }

-- The engine as the function of a transaction sees it first.
unfoldable pub begin : List LockRef → Engine → Engine
begin lock_refs e =
    let ordered = normalize_lock_refs lock_refs in
    record e {
      tls = record {
        tx_depth = suc e.tls.tx_depth;
        active_json_state = some (read_json_state e.file);
        lock_context = some (build_lock_context ordered);
        lock_refs = some ordered;
      };
    }

-- `if tls.tx_depth:`
abbrev pub in_transaction : ℕ → Bool
in_transaction zero = false
in_transaction (suc _) = true

unfoldable pub transaction_guards : Engine → Result (Unit {0})
transaction_guards e = do
  ensure_multiprocess_json_allowed e
  raise_if (in_transaction e.tls.tx_depth)
      (transaction_unavailable "nested scoped transactions are not supported")

-- `run_scoped_transaction`
unfoldable pub run_scoped_transaction :
    {A : Type 0}
    → Runtime
    → ScopedTransactionSession
    → List LockRef
    → (ScopedTransactionSession → Script A)
    → Engine
    → Result A × Engine
unfolding transaction_guards begin finish run_script
run_scoped_transaction runtime session lock_refs fn e =
    guarded (transaction_guards e)
      (λ e'.
        let (r, after) = run_script runtime (fn session) (begin lock_refs e') in
        (r, finish r after))
      e
