-- ===== src/ScopedLedger/Engine.antt =====
-- The engine over the JSON backend (src/phigraph/core_v3/scoped_ledger.py): the guards of each
-- operation, and the state it works on inside and outside a transaction. One thread: the engine's
-- lock is held throughout an operation, and throughout a transaction.
use phigraph.Prelude.{ℕ, zero, suc, String, Bool, true, false, Option, none, some, List}
use phigraph.Python.{Runtime}
use phigraph.Python.Values.{Fields}
use phigraph.Python.Errors.{Result, ok, err, value_error, transaction_unavailable, raise_if, ◌>>◌}
use phigraph.Transactions.Collections.{
  cas, append, read, validate_collection, is_chain_linked_collection,
}
use phigraph.Transactions.Locks.{LockRef, LockContext, require_write_locks}
use phigraph.ScopedLedger.Store.{StoreState, Document, read_json_state, write_json_state}
use phigraph.ScopedLedger.Append.{AppendRequest, ScopedRecordResult, json_append}
use phigraph.ScopedLedger.Cas.{CasRequest, CompareAndSetResult, json_cas}
use phigraph.ScopedLedger.Query.{get_row}

-- `_ThreadTransactionState`
pub record ThreadTransactionState : Type 0 where
  pub tx_depth : ℕ
  pub active_json_state : Option StoreState
  pub lock_context : Option LockContext
  pub lock_refs : Option (List LockRef)

-- `ScopedLedgerEngine`: its mode, its file and the state of its thread.
pub record Engine : Type 0 where
  pub multiprocess : Bool
  pub file : Document
  pub tls : ThreadTransactionState

abbrev pub idle : ThreadTransactionState
idle = record { tx_depth = 0; active_json_state = none; lock_context = none; lock_refs = none }

-- `_ensure_multiprocess_json_allowed`
unfoldable pub ensure_multiprocess_json_allowed : Engine → Result (Unit {0})
ensure_multiprocess_json_allowed e =
    raise_if e.multiprocess
      (transaction_unavailable "JSON backend does not support multiprocess transactional mode")

unfoldable pub active_or : ℕ → Option StoreState → Document → StoreState
active_or (suc _) (some state) file = state
active_or (suc _) none file = read_json_state file
active_or zero active file = read_json_state file

-- `_active_state`
unfoldable pub active_state : Engine → StoreState
unfolding active_or
active_state e = active_or e.tls.tx_depth e.tls.active_json_state e.file

unfoldable pub keep_state : {A : Type 0} → ℕ → Result A → StoreState → Engine → Engine
keep_state (suc _) r state e = record e { tls = record (e.tls) { active_json_state = some state } }
keep_state zero (ok _) state e = record e { file = write_json_state state }
keep_state zero (err _) state e = e

-- One mutation of the active state: in a transaction it stays in memory, also when it raises;
-- outside it is written to the file when it succeeds.
unfoldable pub mutate :
    {A : Type 0} → (StoreState → Result A × StoreState) → Engine → Result A × Engine
unfolding keep_state active_state
mutate f e = let (r, state) = f (active_state e) in (r, keep_state e.tls.tx_depth r state e)

abbrev pub guarded :
    {A : Type 0} → Result (Unit {0}) → (Engine → Result A × Engine) → Engine → Result A × Engine
guarded (ok _) op e = op e
guarded (err x) op e = (err x, e)

unfoldable pub append_guards : AppendRequest → Engine → Result (Unit {0})
append_guards q e = do
  validate_collection append q.collection
  ensure_multiprocess_json_allowed e
  require_write_locks e.tls.lock_context q.collection q.canonical_key
      (is_chain_linked_collection q.collection)

-- `_append_scoped`
unfoldable pub append_scoped :
    Runtime → String → AppendRequest → Fields → Engine → Result ScopedRecordResult × Engine
unfolding append_guards
append_scoped runtime now q r e =
    guarded (append_guards q e)
      (mutate (json_append runtime now q (is_chain_linked_collection q.collection) r)) e

unfoldable pub no_expectation : Option ℕ → Option String → Bool
no_expectation none none = true
no_expectation _ _ = false

unfoldable pub cas_guards : CasRequest → Engine → Result (Unit {0})
unfolding no_expectation
cas_guards q e = do
  validate_collection cas q.collection
  raise_if (is_chain_linked_collection q.collection)
      (transaction_unavailable "CAS is not supported on chain-linked scoped collections")
  raise_if (no_expectation q.expected_version q.expected_payload_hash)
      (value_error "expected_version or expected_payload_hash is required")
  require_write_locks e.tls.lock_context q.collection q.canonical_key false
  ensure_multiprocess_json_allowed e

-- `_compare_and_set_scoped`
unfoldable pub compare_and_set_scoped :
    Runtime → String → CasRequest → Fields → Engine → Result CompareAndSetResult × Engine
unfolding cas_guards
compare_and_set_scoped runtime now q r e =
    guarded (cas_guards q e) (mutate (json_cas runtime now q r)) e

-- `_get_scoped`
unfoldable pub get_scoped : String → String → String → String → Engine → Result Fields
get_scoped tenant_id project_id collection canonical_key e = do
  validate_collection read collection
  ensure_multiprocess_json_allowed e
  get_row tenant_id project_id collection canonical_key (active_state e)
