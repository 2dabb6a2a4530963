-- ===== src/ScopedLedger/Abstract/Refines.antt =====
-- The store of src/phigraph/core_v3/scoped_ledger.py implements the abstract ledger: any writes
-- give the same answers on both, and keep them in step.
use mathlib.Core.Path.{fun_ext, ap₂}
use phigraph.Prelude.{
  ℕ, ◌+◌, String, ◌≡◌, refl, ap, ◌∙◌, Bool, true, false, Option, none, some, List, [], ◌∷◌, inl,
  inr, ◌==◌, if◌then◌else◌, Bool-cases, Option-cases,
}
use phigraph.Python.{Runtime}
use phigraph.Python.Values.{Fields, without, without-put}
use phigraph.Python.Errors.{Result, ok, err, duplicate_canonical_key}
use phigraph.Python.Dict.{Dict, lookup, insert, lookup-insert}
use phigraph.Transactions.Collections.{extract_record_id}
use phigraph.ScopedLedger.Rows.{StoredRow, scoped_key, row_of, build_row}
use phigraph.ScopedLedger.Store.{StoreState}
use phigraph.ScopedLedger.Append.{
  AppendRequest, ScopedRecordResult, row_request, store_linked, store_standalone, append_linked,
  append_standalone, replay_existing, append_at, json_append,
}
use phigraph.ScopedLedger.Cas.{
  CasRequest, CompareAndSetResult, check_expected, replaced, apply_cas, cas_at, json_cas,
}
use phigraph.ScopedLedger.Abstract.{
  Entry, Ledger, update, entry_of_record, append_new, append_to, spec_append, cas_checked, spec_cas,
  Write, append_write, cas_write, spec_write, replay,
}

-- What a row is in the abstract ledger.
abbrev pub entry_of_row : StoredRow → Entry
entry_of_row row = record {
  content = without "_chain" row.payload;
  payload_hash = row.payload_hash;
  version = row.row_version;
  linked = row.chain_linked;
}

abbrev pub entry_of : Option StoredRow → Option Entry
entry_of none = none
entry_of (some row) = some (entry_of_row row)

abbrev pub view_records : Dict StoredRow → Ledger
view_records records key = entry_of (lookup key records)

-- The store as an abstract ledger.
abbrev pub view : StoreState → Ledger
view state = view_records state.records

abbrev pub created_of : Result ScopedRecordResult → Result Bool
created_of (err e) = err e
created_of (ok r) = ok r.created

abbrev pub updated_of : Result CompareAndSetResult → Result Bool
updated_of (err e) = err e
updated_of (ok r) = ok r.updated

entry_of_if :
    (b : Bool) (row : StoredRow) (o : Option StoredRow)
    → entry_of (if b then some row else o) ≡ (if b then some (entry_of_row row) else entry_of o)
entry_of_if true row o = refl
entry_of_if false row o = refl

view_records-insert :
    (key : String) (row : StoredRow) (records : Dict StoredRow)
    → view_records (insert key row records) ≡ update key (entry_of_row row) (view_records records)
view_records-insert key row records = fun_ext λ k.
    ap entry_of (lookup-insert key k row records) ∙ entry_of_if (key == k) row (lookup k records)

row_of-entry :
    (runtime : Runtime) (now : String) (q : AppendRequest) (prev : Option String) (n : ℕ)
    (linked : Bool) (r : Fields) (id : String)
    → entry_of_row (row_of runtime now (row_request q prev n linked) r linked id)
      ≡ entry_of_record runtime q.tenant_id q.project_id r 1 linked
unfolding row_of
row_of-entry runtime now q prev n linked r id = rw without-put refl

replaced-entry :
    (runtime : Runtime) (now : String) (q : CasRequest) (r : Fields) (row : StoredRow)
    → entry_of_row (replaced runtime now q r row)
      ≡ entry_of_record runtime q.tenant_id q.project_id r (row.row_version + 1) row.chain_linked
unfolding replaced
replaced-entry runtime now q r row = rw without-put refl

-- An answer and a store, and what they should be.
abbrev IsStep : Result Bool → StoreState → Result Bool × Ledger → Type 0
IsStep answer state expected = (answer ≡ expected.0) × (view state ≡ expected.1)

module _ (runtime : Runtime) (now : String) (q : AppendRequest) (r : Fields)
    (state : StoreState) where
  abbrev key : String
  key = scoped_key q.tenant_id q.project_id q.collection q.canonical_key

  abbrev entry : Bool → Entry
  entry linked = entry_of_record runtime q.tenant_id q.project_id r 1 linked

  -- A row that is inserted under the key.
  inserted :
      (prev : Option String) (n : ℕ) (linked : Bool) (id : String)
      → view_records
          (insert key (row_of runtime now (row_request q prev n linked) r linked id) state.records)
        ≡ update key (entry linked) (view state)
  inserted prev n linked id =
      view_records-insert key (row_of runtime now (row_request q prev n linked) r linked id)
        state.records
      ∙ ap (λ e. update key e (view state)) (row_of-entry runtime now q prev n linked r id)

  append_linked-refines :
      (id : Result String)
      → extract_record_id runtime q.collection r none ≡ id
      → IsStep
          (created_of (append_linked runtime now q r state).0)
          (append_linked runtime now q r state).1
          (append_new key (entry true) id (view state))
  unfolding append_linked store_linked build_row
  append_linked-refines (err e) h = rw h (refl, refl)
  append_linked-refines (ok id) h = rw h (refl, inserted _ _ true id)

  append_standalone-refines :
      (id : Result String)
      → extract_record_id runtime q.collection r none ≡ id
      → IsStep
          (created_of (append_standalone runtime now q r state).0)
          (append_standalone runtime now q r state).1
          (append_new key (entry false) id (view state))
  unfolding append_standalone store_standalone build_row
  append_standalone-refines (err e) h = rw h (refl, refl)
  append_standalone-refines (ok id) h = rw h (refl, inserted _ _ false id)

  replay_existing-refines :
      (row : StoredRow) (hash : String)
      → created_of (replay_existing hash row) ≡ (
          if row.payload_hash == hash
          then ok false
          else err (duplicate_canonical_key "Duplicate canonical key"))
  unfolding replay_existing
  replay_existing-refines row hash = elim (Bool-cases (row.payload_hash == hash)) [
    | inl same ↦ rw same refl
    | inr other ↦ rw other refl
  ]

  json_append-refines :
      (linked : Bool)
      → IsStep
          (created_of (json_append runtime now q linked r state).0)
          (json_append runtime now q linked r state).1
          (spec_append runtime q linked r (view state))
  unfolding json_append append_at spec_append
  json_append-refines linked = elim (Option-cases (lookup key state.records)) [
    | inr (row, there) ↦ rw there (replay_existing-refines row _, refl)
    | inl absent ↦ rw absent (new linked)
  ]
    where
      new :
          (linked : Bool)
          → IsStep
              (created_of (append_at runtime now q linked r state none).0)
              (append_at runtime now q linked r state none).1
              (append_to key
                (entry linked)
                (extract_record_id runtime q.collection r none)
                none
                (view state))
      new true = append_linked-refines (extract_record_id runtime q.collection r none) refl
      new false = append_standalone-refines (extract_record_id runtime q.collection r none) refl

module _ (runtime : Runtime) (now : String) (q : CasRequest) (r : Fields) (state : StoreState) where
  abbrev cas_key : String
  cas_key = scoped_key q.tenant_id q.project_id q.collection q.canonical_key

  apply_cas-refines :
      (row : StoredRow) (checked : Result (Unit {0}))
      → IsStep
          (updated_of (apply_cas runtime now q r row checked state).0)
          (apply_cas runtime now q r row checked state).1
          (cas_checked cas_key
            (entry_of_record runtime q.tenant_id q.project_id r
              (row.row_version + 1)
              row.chain_linked)
            checked
            (view state))
  unfolding apply_cas
  apply_cas-refines row (err e) = (refl, refl)
  apply_cas-refines row (ok _) = (
    refl,
    view_records-insert cas_key (replaced runtime now q r row) state.records
        ∙ ap (λ e. update cas_key e (view state)) (replaced-entry runtime now q r row),
  )

  json_cas-refines :
      IsStep
        (updated_of (json_cas runtime now q r state).0)
        (json_cas runtime now q r state).1
        (spec_cas runtime q r (view state))
  unfolding json_cas cas_at spec_cas check_expected
  json_cas-refines = elim (Option-cases (lookup cas_key state.records)) [
    | inl absent ↦ rw absent (refl, refl)
    | inr (row, there) ↦ rw there (apply_cas-refines row (check_expected q row))
  ]

-- A write on the store.
abbrev pub store_write : Runtime → String → Write → StoreState → Result Bool × StoreState
store_write runtime now (append_write q linked r) state = (
  created_of (json_append runtime now q linked r state).0,
  (json_append runtime now q linked r state).1,
)
store_write runtime now (cas_write q r) state =
    (updated_of (json_cas runtime now q r state).0, (json_cas runtime now q r state).1)

-- The answers of a sequence of writes, each at its time, and the store after it.
unfoldable pub run_writes :
    Runtime → List (String × Write) → StoreState → List (Result Bool) × StoreState
run_writes runtime [] state = ([], state)
run_writes runtime ((now, write) ∷ writes) state =
    let (answer, state') = store_write runtime now write state in
    let (answers, last) = run_writes runtime writes state' in (answer ∷ answers, last)

store_write-refines :
    (runtime : Runtime) (now : String) (write : Write) (state : StoreState)
    → IsStep
        (store_write runtime now write state).0
        (store_write runtime now write state).1
        (spec_write runtime write (view state))
store_write-refines runtime now (append_write q linked r) state =
    json_append-refines runtime now q r state linked
store_write-refines runtime now (cas_write q r) state = json_cas-refines runtime now q r state

abbrev pub writes_of : List (String × Write) → List Write
writes_of [] = []
writes_of ((now, write) ∷ writes) = write ∷ writes_of writes

-- Any sequence of appends and compare-and-sets, from any store, gives the answers that the abstract
-- ledger gives, exceptions included, and ends in a store that reads as the abstract ledger does
-- then. The times of the writes do not matter.
pub run_writes_refines :
    (runtime : Runtime) (writes : List (String × Write)) (state : StoreState)
    → ((run_writes runtime writes state).0 ≡ (replay runtime (writes_of writes) (view state)).0)
      × (view (run_writes runtime writes state).1
          ≡ (replay runtime (writes_of writes) (view state)).1)
unfolding run_writes replay
run_writes_refines runtime [] state = (refl, refl)
run_writes_refines runtime ((now, write) ∷ writes) state =
    let step = store_write-refines runtime now write state in
    let rest = run_writes_refines runtime writes (store_write runtime now write state).1 in
    (
      ap₂ ◌∷◌ step.0 (rest.0 ∙ ap (λ ledger. (replay runtime (writes_of writes) ledger).0) step.1),
      rest.1 ∙ ap (λ ledger. (replay runtime (writes_of writes) ledger).1) step.1,
    )
