-- ===== src/ScopedLedger/Session/Atomic.antt =====
-- A transaction is all or nothing: what its function raises leaves the file alone, what it commits
-- is what the file reads back as, and the thread is out of the transaction either way.
use phigraph.Prelude.{ℕ, zero, suc, ◌≡◌, refl, sym, ap, ◌∙◌, false, List}
use phigraph.Python.{Runtime}
use phigraph.Python.Errors.{Error, Result, ok, err, >>-eq-ok, raise_if-eq-ok}
use phigraph.Transactions.Locks.{LockRef}
use phigraph.ScopedLedger.Store.{read_json_state, write_json_state}
use phigraph.ScopedLedger.Engine.{Engine, active_state, active_or, guarded}
use phigraph.ScopedLedger.Session.{
  Script, ScopedTransactionSession, run_script, begin, finish, in_transaction, transaction_guards,
  run_scoped_transaction,
}
use phigraph.ScopedLedger.Invariant.{IsWellFormed}
use phigraph.ScopedLedger.Invariant.RoundTrip.{read_json_state-write_json_state}
use phigraph.ScopedLedger.Invariant.Transactions.{
  AreNulFree, run_script_in_transaction, run_script-IsWellFormed,
}

err≢ok : {A : Type 0} {x : Error} {a : A} → err x ≡ ok a → ⊥
err≢ok h = cc

not_in_transaction : (d : ℕ) → in_transaction d ≡ false → d ≡ 0
not_in_transaction zero h = refl
not_in_transaction (suc d) h = cc

finish_error :
    {A : Type 0} (r : Result A) (e : Engine) (x : Error) → r ≡ err x → (finish r e).file ≡ e.file
unfolding finish
finish_error (ok a) e x h = absurd (err≢ok (sym h))
finish_error (err y) e x h = refl

finish_ok :
    {A : Type 0} (r : Result A) (e : Engine) (a : A)
    → r ≡ ok a
    → (finish r e).file ≡ write_json_state (active_state e)
unfolding finish
finish_ok (ok b) e a h = refl
finish_ok (err x) e a h = absurd (err≢ok h)

finish_depth : {A : Type 0} (r : Result A) (e : Engine) → (finish r e).tls.tx_depth ≡ 0
unfolding finish
finish_depth (ok a) e = refl
finish_depth (err x) e = refl

module _ (runtime : Runtime) {A : Type 0} (session : ScopedTransactionSession)
    (lock_refs : List LockRef) (fn : ScopedTransactionSession → Script A) (e : Engine) where
  -- The engine and the result at the end of the function, before the commit.
  abbrev at_end : Result A × Engine
  at_end = run_script runtime (fn session) (begin lock_refs e)

  abbrev body : Engine → Result A × Engine
  body e' =
      let (r, after) = run_script runtime (fn session) (begin lock_refs e') in (r, finish r after)

  guarded_error :
      (g : Result (Unit {0})) (x : Error)
      → (guarded g body e).0 ≡ err x
      → (guarded g body e).1.file ≡ e.file
  unfolding begin
  guarded_error (ok _) x h =
      finish_error at_end.0 at_end.1 x h
      ∙ run_script_in_transaction runtime (fn session) (begin lock_refs e) e.tls.tx_depth refl
  guarded_error (err y) x h = refl

  -- A transaction that raises, in its guards or in its function after any number of calls, leaves
  -- the file as it was.
  pub run_scoped_transaction_error :
      (x : Error)
      → (run_scoped_transaction runtime session lock_refs fn e).0 ≡ err x
      → (run_scoped_transaction runtime session lock_refs fn e).1.file ≡ e.file
  unfolding run_scoped_transaction
  run_scoped_transaction_error x h = guarded_error (transaction_guards e) x h

  guarded_ok :
      (g : Result (Unit {0})) (a : A)
      → (guarded g body e).0 ≡ ok a
      → (at_end.0 ≡ ok a) × ((guarded g body e).1.file ≡ write_json_state (active_state at_end.1))
  guarded_ok (ok _) a h = (h, finish_ok at_end.0 at_end.1 a h)
  guarded_ok (err y) a h = absurd (err≢ok h)

  -- A transaction that returns, on a file that was well-formed, has run its function to its value,
  -- and the file reads back as the state that the function's last call left, provided that the
  -- calls name no tenant or project with a NUL.
  pub run_scoped_transaction_commits :
      (a : A)
      → AreNulFree (fn session)
      → IsWellFormed runtime (read_json_state e.file)
      → (run_scoped_transaction runtime session lock_refs fn e).0 ≡ ok a
      → ((run_script runtime (fn session) (begin lock_refs e)).0 ≡ ok a)
        × (read_json_state (run_scoped_transaction runtime session lock_refs fn e).1.file
            ≡ active_state (run_script runtime (fn session) (begin lock_refs e)).1)
  unfolding run_scoped_transaction begin active_state active_or
  run_scoped_transaction_commits a free w h =
      let (done, written) = guarded_ok (transaction_guards e) a h in
      let kept = run_script-IsWellFormed runtime (fn session) (begin lock_refs e) free w in
      (done, ap read_json_state written ∙ read_json_state-write_json_state runtime _ kept)

  guarded_depth :
      (g : Result (Unit {0}))
      → (g ≡ ok tt → e.tls.tx_depth ≡ 0)
      → (guarded g body e).1.tls.tx_depth ≡ e.tls.tx_depth
  guarded_depth (ok _) h = finish_depth at_end.0 at_end.1 ∙ sym (h refl)
  guarded_depth (err x) h = refl

  -- Whether it returns or raises, a transaction leaves the thread at the depth it found it at.
  pub run_scoped_transaction-tx_depth :
      (run_scoped_transaction runtime session lock_refs fn e).1.tls.tx_depth ≡ e.tls.tx_depth
  unfolding run_scoped_transaction transaction_guards
  run_scoped_transaction-tx_depth =
      guarded_depth (transaction_guards e)
        (λ h. not_in_transaction e.tls.tx_depth (raise_if-eq-ok _ _ (>>-eq-ok _ _ h).1))
