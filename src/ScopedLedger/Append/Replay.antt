-- ===== src/ScopedLedger/Append/Replay.antt =====
-- What an append leaves behind: the record under its key, and a conflict for another payload.
use phigraph.Prelude.{
  ℕ, String, ◌≡◌, ◌≢◌, refl, sym, ap, ◌∙◌, Bool, true, false, Option, none, some, arith, ◌==◌,
  eq_iff, Bool-cases, inl, inr,
}
use phigraph.Python.{Runtime}
use phigraph.Python.Values.{Fields}
use phigraph.Python.Errors.{Error, Result, ok, err, duplicate_canonical_key, >>=-eq-ok}
use phigraph.Python.Dict.{lookup, lookup-insert_self}
use phigraph.Transactions.Collections.{extract_record_id}
use phigraph.Transactions.Hashes.{canonical_scoped_payload_hash}
use phigraph.ScopedLedger.Rows.{StoredRow, Head, scoped_key, with_scope, row_of, build_row}
use phigraph.ScopedLedger.Store.{StoreState}
use phigraph.ScopedLedger.Append.{
  AppendRequest, ScopedRecordResult, row_request, store_linked, store_standalone, append_linked,
  append_standalone, replay_existing, append_at, json_append,
}
use phigraph.ScopedLedger.Query.{get_row}

abbrev pub request_key : AppendRequest → String
request_key q = scoped_key q.tenant_id q.project_id q.collection q.canonical_key

err≢ok : {A : Type 0} {x : Error} {a : A} → err x ≡ ok a → ⊥
err≢ok h = cc

ok-injective : {A : Type 0} {a b : A} → ok a ≡ ok b → a ≡ b
ok-injective h = cc

abbrev payload_hash_of : StoredRow → String
payload_hash_of row = row.payload_hash

abbrev value_of : ScopedRecordResult → Fields
value_of res = res.value

replay_same :
    (row : StoredRow) (hash : String) (value : Fields)
    → row.payload_hash ≡ hash
    → row.payload ≡ value
    → replay_existing hash row ≡ ok (record { value = value; created = false })
unfolding replay_existing
replay_same row hash value h e =
    rw ((eq_iff row.payload_hash hash).1 h) (ap (λ v. ok (record { value = v; created = false })) e)

replay_other :
    (row : StoredRow) (hash : String)
    → row.payload_hash ≢ hash
    → replay_existing hash row ≡ err (duplicate_canonical_key "Duplicate canonical key")
unfolding replay_existing
replay_other row hash h = ground (arith, eq_iff row.payload_hash hash)

module _ (runtime : Runtime) (now : String) (q : AppendRequest) (linked : Bool) (r : Fields) where
  abbrev pub incoming_hash : String
  incoming_hash = canonical_scoped_payload_hash runtime (with_scope q.tenant_id q.project_id r)

  -- The row that is under the key after a successful append holds what was returned, and its
  -- payload hash is that of the record in its scope.
  abbrev pub Holds : Fields → StoreState → Type 0
  Holds value state =
      (row : StoredRow) × (lookup (request_key q) state.records ≡ some row)
      × (row.payload ≡ value)
      × (row.payload_hash ≡ incoming_hash)

  at_found :
      (later : String) (other : Fields) (state : StoreState) (row : StoredRow)
      → lookup (request_key q) state.records ≡ some row
      → json_append runtime later q linked other state ≡ (
        replay_existing
            (canonical_scoped_payload_hash runtime (with_scope q.tenant_id q.project_id other))
            row,
        state,
      )
  unfolding json_append append_at
  at_found later other state row found = rw found refl

  built_hash :
      (prev : Option String) (n : ℕ) (flag : Bool) (row : StoredRow)
      → build_row runtime now (row_request q prev n flag) r ≡ ok row
      → row.payload_hash ≡ incoming_hash
  unfolding build_row row_of
  built_hash prev n flag row e =
      let (id, found, built) = >>=-eq-ok (extract_record_id runtime q.collection r none) _ e in
      sym (ap payload_hash_of (ok-injective built))

  Holds-store_linked :
      (head : Head) (built : Result StoredRow) (state : StoreState) (res : ScopedRecordResult)
      → ((row : StoredRow) → built ≡ ok row → row.payload_hash ≡ incoming_hash)
      → (store_linked now q head built state).0 ≡ ok res
      → Holds res.value (store_linked now q head built state).1
  unfolding store_linked
  Holds-store_linked head (err x) state res h e = cc
  Holds-store_linked head (ok row) state res h e =
      (row, lookup-insert_self _ _ _, ap value_of (ok-injective e), h row refl)

  Holds-store_standalone :
      (built : Result StoredRow) (state : StoreState) (res : ScopedRecordResult)
      → ((row : StoredRow) → built ≡ ok row → row.payload_hash ≡ incoming_hash)
      → (store_standalone q built state).0 ≡ ok res
      → Holds res.value (store_standalone q built state).1
  unfolding store_standalone
  Holds-store_standalone (err x) state res h e = cc
  Holds-store_standalone (ok row) state res h e =
      (row, lookup-insert_self _ _ _, ap value_of (ok-injective e), h row refl)

  Holds-append_at :
      (flag : Bool) (state : StoreState) (found : Option StoredRow) (res : ScopedRecordResult)
      → lookup (request_key q) state.records ≡ found
      → (append_at runtime now q flag r state found).0 ≡ ok res
      → Holds res.value (append_at runtime now q flag r state found).1
  unfolding append_at append_linked append_standalone replay_existing
  Holds-append_at flag state (some row) res at_key e =
      elim (Bool-cases (row.payload_hash == incoming_hash)) [
        | inl same ↦ (row, at_key, ap value_of (ok-injective (rw same at e)), (eq_iff _ _).0 same)
        | inr other ↦ absurd (err≢ok (rw other at e))
      ]
  Holds-append_at true state none res at_key e =
      Holds-store_linked _ _ _ res (built_hash _ _ true) e
  Holds-append_at false state none res at_key e =
      Holds-store_standalone _ _ res (built_hash _ _ false) e

  pub Holds-json_append :
      (state : StoreState) (res : ScopedRecordResult)
      → (json_append runtime now q linked r state).0 ≡ ok res
      → Holds res.value (json_append runtime now q linked r state).1
  unfolding json_append
  Holds-json_append state res e = Holds-append_at linked state _ res refl e

  -- After a successful append the key reads back the record that was returned.
  pub get_row-json_append :
      (state : StoreState) (res : ScopedRecordResult)
      → (json_append runtime now q linked r state).0 ≡ ok res
      → get_row q.tenant_id q.project_id q.collection q.canonical_key
          (json_append runtime now q linked r state).1
        ≡ ok res.value
  unfolding get_row
  get_row-json_append state res e =
      let (row, found, payload, hash) = Holds-json_append state res e in rw found (ap ok payload)

  -- Where the row under the key holds the value, the append returns it as not created and changes
  -- nothing.
  pub json_append-Holds :
      (value : Fields) (later : String) (state : StoreState)
      → Holds value state
      → json_append runtime later q linked r state
        ≡ (ok (record { value = value; created = false }), state)
  json_append-Holds value later state (row, found, payload, hash) =
      at_found later r state row found ∙ ap (λ b. (b, state)) (replay_same row _ _ hash payload)

  -- After a successful append a record of another payload hash under the same key is refused, and
  -- changes nothing.
  pub json_append_conflict :
      (state : StoreState) (res : ScopedRecordResult) (later : String) (other : Fields)
      → (json_append runtime now q linked r state).0 ≡ ok res
      → incoming_hash
        ≢ canonical_scoped_payload_hash runtime (with_scope q.tenant_id q.project_id other)
      → let state' = (json_append runtime now q linked r state).1 in
        json_append runtime later q linked other state'
        ≡ (err (duplicate_canonical_key "Duplicate canonical key"), state')
  json_append_conflict state res later other e ne =
      let (row, found, payload, hash) = Holds-json_append state res e in
      at_found later other _ row found
      ∙ ap (λ b. (b, (json_append runtime now q linked r state).1))
          (replay_other row _ (λ same. ne (sym hash ∙ same)))
