-- ===== src/ScopedLedger/Invariant/Transactions.antt =====
-- A transaction, whatever its function does, leaves a well-formed file.
use phigraph.Prelude.{ℕ, zero, suc, String, ◌≡◌, refl, ◌∙◌, true, List, nul_free}
use phigraph.Python.{Runtime}
use phigraph.Python.Values.{end}
use phigraph.Python.Errors.{Result, ok, err, >>-eq-ok}
use phigraph.Transactions.Collections.{append, cas}
use phigraph.Transactions.Collections.Names.{validate_collection-contains}
use phigraph.Transactions.Locks.{LockRef}
use phigraph.ScopedLedger.Store.{StoreState, read_json_state}
use phigraph.ScopedLedger.Append.{AppendRequest}
use phigraph.ScopedLedger.Cas.{CasRequest}
use phigraph.ScopedLedger.Engine.{
  Engine, active_state, mutate, guarded, append_scoped, compare_and_set_scoped, append_guards,
  cas_guards, keep_state, active_or,
}
use phigraph.ScopedLedger.Session.{
  ScopedTransactionSession, Call, append_call, cas_call, nested_transaction, Answer, Script, return,
  raise, call, perform, run_script, begin, finish, run_scoped_transaction, transaction_guards,
}
use phigraph.ScopedLedger.Invariant.{IsWellFormed}
use phigraph.ScopedLedger.Invariant.OfAppend.{IsProper}
use phigraph.ScopedLedger.Invariant.OfCas.{IsProperCas, json_cas-IsWellFormed}
use phigraph.ScopedLedger.Invariant.Operations.{json_append-IsWellFormed}
use phigraph.ScopedLedger.Invariant.RoundTrip.{read_json_state-write_json_state}

-- The call names no tenant or project with a NUL in it.
abbrev pub IsNulFree : Call → Type 0
IsNulFree (append_call q r) = (nul_free q.tenant_id ≡ true) × (nul_free q.project_id ≡ true)
IsNulFree (cas_call q r) = (nul_free q.tenant_id ≡ true) × (nul_free q.project_id ≡ true)
IsNulFree _ = Unit

-- So does no call of the function, whatever the answers before it.
abbrev pub AreNulFree : {A : Type 0} → Script A → Type 0
AreNulFree (return a) = Unit
AreNulFree (raise e) = Unit
AreNulFree (call now c rest) = IsNulFree c × ((a : Result Answer) → AreNulFree (rest a))

append_guards-IsProper :
    (q : AppendRequest) (e : Engine)
    → IsNulFree (append_call q end)
    → append_guards q e ≡ ok tt
    → IsProper q
unfolding append_guards
append_guards-IsProper q e free h = record {
  tenant_free = free.0;
  project_free = free.1;
  known = validate_collection-contains append q.collection (>>-eq-ok _ _ h).0;
}

cas_guards-IsProperCas :
    (q : CasRequest) (e : Engine)
    → IsNulFree (cas_call q end)
    → cas_guards q e ≡ ok tt
    → IsProperCas q
unfolding cas_guards
cas_guards-IsProperCas q e free h = record {
  tenant_free = free.0;
  project_free = free.1;
  known = validate_collection-contains cas q.collection (>>-eq-ok _ _ h).0;
}

guarded_in_transaction :
    {A : Type 0} (g : Result (Unit {0})) (f : StoreState → Result A × StoreState) (e : Engine)
    (d : ℕ)
    → e.tls.tx_depth ≡ suc d
    → ((guarded g (mutate f) e).1.file ≡ e.file) × ((guarded g (mutate f) e).1.tls.tx_depth ≡ suc d)
unfolding mutate keep_state
guarded_in_transaction (ok _) f e d depth = (rw (depth, keep_state), rw (depth, keep_state))
guarded_in_transaction (err x) f e d depth = (refl, depth)

module _ (runtime : Runtime) where
  active_keep_state :
      {A : Type 0} (d : ℕ) (r : Result A) (state : StoreState) (e : Engine)
      → e.tls.tx_depth ≡ d
      → IsWellFormed runtime state
      → IsWellFormed runtime (active_state e)
      → IsWellFormed runtime (active_state (keep_state d r state e))
  unfolding keep_state active_state active_or
  active_keep_state (suc d) r state e depth h w = rw (depth, active_or) h
  active_keep_state zero (ok a) state e depth h w =
      rw (depth, active_or) (rw (read_json_state-write_json_state runtime state h) h)
  active_keep_state zero (err x) state e depth h w = w

  mutate-IsWellFormed :
      {A : Type 0} (f : StoreState → Result A × StoreState) (e : Engine)
      → ((state : StoreState) → IsWellFormed runtime state → IsWellFormed runtime (f state).1)
      → IsWellFormed runtime (active_state e)
      → IsWellFormed runtime (active_state (mutate f e).1)
  unfolding mutate
  mutate-IsWellFormed f e keep w =
      active_keep_state e.tls.tx_depth (f (active_state e)).0 (f (active_state e)).1 e refl
        (keep (active_state e) w) w

  guarded-IsWellFormed :
      {A : Type 0} (g : Result (Unit {0})) (op : Engine → Result A × Engine) (e : Engine)
      → (g ≡ ok tt → IsWellFormed runtime (active_state (op e).1))
      → IsWellFormed runtime (active_state e)
      → IsWellFormed runtime (active_state (guarded g op e).1)
  guarded-IsWellFormed (ok _) op e h w = h refl
  guarded-IsWellFormed (err x) op e h w = w

  -- Any call keeps the state that the engine works on well-formed, inside and outside a
  -- transaction.
  pub perform-IsWellFormed :
      (now : String) (c : Call) (e : Engine)
      → IsNulFree c
      → IsWellFormed runtime (active_state e)
      → IsWellFormed runtime (active_state (perform runtime now c e).1)
  unfolding perform append_scoped compare_and_set_scoped
  perform-IsWellFormed now (append_call q r) e free w =
      guarded-IsWellFormed (append_guards q e) _ e
        (λ admitted.
          mutate-IsWellFormed _ e
            (json_append-IsWellFormed runtime now q (append_guards-IsProper q e free admitted) r) w)
        w
  perform-IsWellFormed now (cas_call q r) e free w =
      guarded-IsWellFormed (cas_guards q e) _ e
        (λ admitted.
          mutate-IsWellFormed _ e
            (json_cas-IsWellFormed runtime now q (cas_guards-IsProperCas q e free admitted) r) w)
        w
  perform-IsWellFormed now nested_transaction e free w = w
  perform-IsWellFormed now _ e free w = w

  pub run_script-IsWellFormed :
      {A : Type 0} (fn : Script A) (e : Engine)
      → AreNulFree fn
      → IsWellFormed runtime (active_state e)
      → IsWellFormed runtime (active_state (run_script runtime fn e).1)
  unfolding run_script
  run_script-IsWellFormed (return a) e free w = w
  run_script-IsWellFormed (raise x) e free w = w
  run_script-IsWellFormed (call now c rest) e free w =
      let (a, e') = perform runtime now c e in
      run_script-IsWellFormed (rest a) e' (free.1 a) (perform-IsWellFormed now c e free.0 w)

  -- In a transaction no call touches the file.
  perform_in_transaction :
      (now : String) (c : Call) (e : Engine) (d : ℕ)
      → e.tls.tx_depth ≡ suc d
      → ((perform runtime now c e).1.file ≡ e.file)
        × ((perform runtime now c e).1.tls.tx_depth ≡ suc d)
  unfolding perform append_scoped compare_and_set_scoped
  perform_in_transaction now (append_call q r) e d depth =
      guarded_in_transaction (append_guards q e) _ e d depth
  perform_in_transaction now (cas_call q r) e d depth =
      guarded_in_transaction (cas_guards q e) _ e d depth
  perform_in_transaction now _ e d depth = (refl, depth)

  pub run_script_in_transaction :
      {A : Type 0} (fn : Script A) (e : Engine) (d : ℕ)
      → e.tls.tx_depth ≡ suc d
      → (run_script runtime fn e).1.file ≡ e.file
  unfolding run_script
  run_script_in_transaction (return a) e d depth = refl
  run_script_in_transaction (raise x) e d depth = refl
  run_script_in_transaction (call now c rest) e d depth =
      let (a, e') = perform runtime now c e in
      let (same, deep) = perform_in_transaction now c e d depth in
      run_script_in_transaction (rest a) e' d deep ∙ same

  finish-IsWellFormed :
      {A : Type 0} (r : Result A) (e : Engine)
      → IsWellFormed runtime (read_json_state e.file)
      → IsWellFormed runtime (active_state e)
      → IsWellFormed runtime (read_json_state (finish r e).file)
  unfolding finish
  finish-IsWellFormed (ok a) e file active =
      rw (read_json_state-write_json_state runtime (active_state e) active) active
  finish-IsWellFormed (err x) e file active = file

  guarded_file :
      {A : Type 0} (g : Result (Unit {0})) (op : Engine → Result A × Engine) (e : Engine)
      → IsWellFormed runtime (read_json_state (op e).1.file)
      → IsWellFormed runtime (read_json_state e.file)
      → IsWellFormed runtime (read_json_state (guarded g op e).1.file)
  guarded_file (ok _) op e h w = h
  guarded_file (err x) op e h w = w

  -- Whatever the function of a transaction does, catching exceptions included, the file is
  -- well-formed after the transaction if it was before, provided that the calls name no tenant or
  -- project with a NUL.
  pub run_scoped_transaction-IsWellFormed :
      {A : Type 0} (session : ScopedTransactionSession) (lock_refs : List LockRef)
      (fn : ScopedTransactionSession → Script A) (e : Engine)
      → AreNulFree (fn session)
      → IsWellFormed runtime (read_json_state e.file)
      → IsWellFormed runtime
          (read_json_state (run_scoped_transaction runtime session lock_refs fn e).1.file)
  unfolding run_scoped_transaction begin active_state active_or
  run_scoped_transaction-IsWellFormed session lock_refs fn e free w =
      guarded_file (transaction_guards e) _ e
        (finish-IsWellFormed (run_script runtime (fn session) (begin lock_refs e)).0
          (run_script runtime (fn session) (begin lock_refs e)).1
          (rw (run_script_in_transaction (fn session) (begin lock_refs e) e.tls.tx_depth refl) w)
          (run_script-IsWellFormed (fn session) (begin lock_refs e) free w))
        w
