-- ===== src/Idempotency/Once.antt =====
-- A request that was answered is not executed again (src/phigraph/core_v3/idempotency.py).
use text.Mathlib.TextLemmas.{append_assoc}
use phigraph.Prelude.{
  String, ◌≡◌, refl, sym, ap, ◌∙◌, Option, none, some, List, [], ◌∷◌, inl, inr, ◌==◌, eq_iff,
  Bool-cases, Option-cases,
}
use phigraph.Python.Values.{Fields}
use phigraph.Python.Errors.{Error, Result, ok, err}
use phigraph.Python.Dict.{lookup, lookup-insert, lookup-insert_self}
use phigraph.Idempotency.{
  StoredResponse, Rows, reuse, executed, run, put_response, scoped_key, with_colon,
}

-- A colon moved from the project to the tenant makes the same key: two scopes share it.
pub scoped_key-shared :
    (operation tenant middle project external : String)
    → scoped_key operation (with_colon tenant middle) project external
      ≡ scoped_key operation tenant (with_colon middle project) external
unfolding scoped_key
scoped_key-shared operation tenant middle project external =
    rw (append_assoc, append_assoc, append_assoc, append_assoc) refl

-- Requests, each with its key, its hash and its operation.
abbrev pub Request {ℓ} : Type ℓ → Type ℓ
Request S = String × (String × (S → Result Fields × S))

module _ {ℓ} {S : Type ℓ} where
  unfoldable pub run_requests : List (Request S) → Rows → S → Rows × S
  run_requests [] rows s = (rows, s)
  run_requests ((key, (hash, operation)) ∷ requests) rows s =
      let (answer, after) = run key hash operation rows s in run_requests requests after.0 after.1

  executed-keeps :
      (key other hash : String) (rows : Rows) (result : Result Fields × S) (row : StoredResponse)
      → lookup other rows ≡ none
      → lookup key rows ≡ some row
      → lookup key (executed other hash rows result).1.0 ≡ some row
  unfolding put_response
  executed-keeps key other hash rows (err e, s) row new h = h
  executed-keeps key other hash rows (ok r, s) row new h = elim (Bool-cases (other == key)) [
    | inr differ ↦ rw (lookup-insert, differ) h
    | inl same ↦ absurd (none_some (sym (rw ((eq_iff other key).0 same) at new) ∙ h))
  ]
    where
      none_some : {x : StoredResponse} → ◌≡◌ {A = Option StoredResponse} none (some x) → ⊥
      none_some k = cc

  -- A stored response stays.
  run-keeps :
      (key other hash : String) (operation : S → Result Fields × S) (rows : Rows) (s : S)
      (row : StoredResponse)
      → lookup key rows ≡ some row
      → lookup key (run other hash operation rows s).1.0 ≡ some row
  unfolding run
  run-keeps key other hash operation rows s row h = elim (Option-cases (lookup other rows)) [
    | inr (there, is) ↦ rw is h
    | inl new ↦ rw new (executed-keeps key other hash rows (operation s) row new h)
  ]

  run_requests-keeps :
      (key : String) (requests : List (Request S)) (rows : Rows) (s : S) (row : StoredResponse)
      → lookup key rows ≡ some row
      → lookup key (run_requests requests rows s).0 ≡ some row
  unfolding run_requests
  run_requests-keeps key [] rows s row h = h
  run_requests-keeps key ((other, (hash, operation)) ∷ requests) rows s row h =
      run_requests-keeps key requests (run other hash operation rows s).1.0
        (run other hash operation rows s).1.1 row (run-keeps key other hash operation rows s row h)

  executed-stores :
      (key hash : String) (rows rows' : Rows) (result : Result Fields × S) (s' : S)
      (answer : Fields)
      → executed key hash rows result ≡ (ok answer, (rows', s'))
      → (row : StoredResponse) × (lookup key rows' ≡ some row) × (reuse row hash ≡ ok answer)
  unfolding put_response
  executed-stores key hash rows rows' (err e, s) s' answer h =
      absurd (raised (ap (λ (m : Result Fields × (Rows × S)). m.0) h))
    where
      raised : {x : Error} → ◌≡◌ {A = Result Fields} (err x) (ok answer) → ⊥
      raised k = cc
  executed-stores key hash rows rows' (ok r, s) s' answer h =
      let row : StoredResponse = record { request_hash = hash; response = r } in
      (
        row,
        rw (← ap (λ (m : Result Fields × (Rows × S)). m.1.0) h) (lookup-insert_self key row rows),
        rw ((eq_iff hash hash).1 refl) (ap (λ (m : Result Fields × (Rows × S)). m.0) h),
      )

  -- A request that was answered is stored with its hash and its answer.
  run-stores :
      (key hash : String) (operation : S → Result Fields × S) (rows rows' : Rows) (s s' : S)
      (answer : Fields)
      → run key hash operation rows s ≡ (ok answer, (rows', s'))
      → (row : StoredResponse) × (lookup key rows' ≡ some row) × (reuse row hash ≡ ok answer)
  unfolding run
  run-stores key hash operation rows rows' s s' answer h = elim (Option-cases (lookup key rows)) [
    | inr (there, is) ↦
        let e : (reuse there hash, (rows, s)) ≡ (ok answer, (rows', s')) = rw is at h in
        (
          there,
          rw (← ap (λ (m : Result Fields × (Rows × S)). m.1.0) e) is,
          ap (λ (m : Result Fields × (Rows × S)). m.0) e,
        )
    | inl new ↦ executed-stores key hash rows rows' (operation s) s' answer (rw new at h)
  ]

  -- Once a request was answered, then after any further requests the same key and hash get the same
  -- answer, whatever operation comes with them: it is not executed, and nothing is written.
  pub run_again :
      (key hash : String) (operation later : S → Result Fields × S) (requests : List (Request S))
      (rows rows' : Rows) (s s' : S) (answer : Fields)
      → run key hash operation rows s ≡ (ok answer, (rows', s'))
      → run key hash later (run_requests requests rows' s').0 (run_requests requests rows' s').1
        ≡ (ok answer, run_requests requests rows' s')
  unfolding run
  run_again key hash operation later requests rows rows' s s' answer h =
      let stored = run-stores key hash operation rows rows' s s' answer h in
      rw (run_requests-keeps key requests rows' s' (stored.0) (stored.1), stored.2) refl
