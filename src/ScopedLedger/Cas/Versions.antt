-- ===== src/ScopedLedger/Cas/Versions.antt =====
-- Compare-and-set: what one that succeeds has found and leaves, and what one that raises changes.
use phigraph.Prelude.{
  Option-cases, inl, inr, String, ◌≡◌, refl, sym, ap, ◌∙◌, false, Option, none, some,
}
use phigraph.Python.{Runtime}
use phigraph.Python.Values.{Fields}
use phigraph.Python.Errors.{Error, Result, ok, err, raise_if, >>-eq-ok, raise_if-eq-ok}
use phigraph.Python.Dict.{lookup, lookup-insert_self}
use phigraph.ScopedLedger.Rows.{StoredRow, scoped_key}
use phigraph.ScopedLedger.Store.{StoreState}
use phigraph.ScopedLedger.Query.{get_row}
use phigraph.ScopedLedger.Cas.{
  CasRequest, CompareAndSetResult, check_expected, stale_version, stale_hash, replaced, apply_cas,
  cas_at, json_cas,
}

pub ok≢err : {A : Type 0} {x : Error} {a : A} → ok a ≡ err x → ⊥
ok≢err h = cc

abbrev pub cas_key : CasRequest → String
cas_key q = scoped_key q.tenant_id q.project_id q.collection q.canonical_key

abbrev result_value : Result CompareAndSetResult → Fields → Fields
result_value (ok res) d = res.value
result_value (err e) d = d

abbrev result_previous : Result CompareAndSetResult → Option Fields
result_previous (ok res) = res.previous
result_previous (err e) = none

check_passed :
    (q : CasRequest) (row : StoredRow)
    → check_expected q row ≡ ok tt
    → (row.chain_linked ≡ false)
      × (stale_version q.expected_version row.row_version ≡ false)
      × (stale_hash q.expected_payload_hash row.payload_hash ≡ false)
unfolding check_expected
check_passed q row h =
    let (linked, rest) = >>-eq-ok (raise_if row.chain_linked _) _ h in
    let (version, hash) =
      >>-eq-ok (raise_if (stale_version q.expected_version row.row_version) _) _ rest in
    (raise_if-eq-ok _ _ linked, raise_if-eq-ok _ _ version, raise_if-eq-ok _ _ hash)

module _ (runtime : Runtime) (now : String) (q : CasRequest) (r : Fields) (state : StoreState) where
  apply_cas_error :
      (row : StoredRow) (c : Result (Unit {0})) (e : Error)
      → (apply_cas runtime now q r row c state).0 ≡ err e
      → (apply_cas runtime now q r row c state).1 ≡ state
  unfolding apply_cas
  apply_cas_error row (err x) e h = refl
  apply_cas_error row (ok _) e h = absurd (ok≢err h)

  cas_at_error :
      (o : Option StoredRow) (e : Error)
      → (cas_at runtime now q r state o).0 ≡ err e
      → (cas_at runtime now q r state o).1 ≡ state
  unfolding cas_at
  cas_at_error none e h = refl
  cas_at_error (some row) e h = apply_cas_error row (check_expected q row) e h

  -- A compare-and-set that raises leaves the store as it was.
  pub json_cas_error :
      (e : Error)
      → (json_cas runtime now q r state).0 ≡ err e
      → (json_cas runtime now q r state).1 ≡ state
  unfolding json_cas
  json_cas_error e h = cas_at_error _ e h

  -- What a compare-and-set that succeeds has found, and what it leaves.
  pub record HasWon (res : CompareAndSetResult) : Type 0 where
    pub row : StoredRow
    pub at_key : lookup (cas_key q) state.records ≡ some row
    pub unlinked : row.chain_linked ≡ false
    pub version : stale_version q.expected_version row.row_version ≡ false
    pub hash : stale_hash q.expected_payload_hash row.payload_hash ≡ false
    pub value : (replaced runtime now q r row).payload ≡ res.value
    pub previous : some row.payload ≡ res.previous
    pub after :
        lookup (cas_key q) (json_cas runtime now q r state).1.records
        ≡ some (replaced runtime now q r row)

  apply_cas_won :
      (row : StoredRow) (c : Result (Unit {0})) (res : CompareAndSetResult)
      → (apply_cas runtime now q r row c state).0 ≡ ok res
      → (c ≡ ok tt)
        × ((replaced runtime now q r row).payload ≡ res.value)
        × (some row.payload ≡ res.previous)
        × (lookup (cas_key q) (apply_cas runtime now q r row c state).1.records
            ≡ some (replaced runtime now q r row))
  unfolding apply_cas
  apply_cas_won row (err x) res h = absurd (ok≢err (sym h))
  apply_cas_won row (ok _) res h =
      (refl, ap (λ x. result_value x res.value) h, ap result_previous h, lookup-insert_self _ _ _)

  pub cas_won :
      (res : CompareAndSetResult) → (json_cas runtime now q r state).0 ≡ ok res → HasWon res
  unfolding json_cas cas_at
  cas_won res h = elim (Option-cases (lookup (cas_key q) state.records)) [
    | inl missing ↦
        absurd (ok≢err (sym (sym (ap (λ o. (cas_at runtime now q r state o).0) missing) ∙ h)))
    | inr (row, found) ↦
        let step = ap (cas_at runtime now q r state) found in
        let (checked, value, previous, after) =
          apply_cas_won row (check_expected q row) res (sym (ap (λ x. x.0) step) ∙ h) in
        let (unlinked, version, hash) = check_passed q row checked in
        record {
          row = row;
          at_key = found;
          unlinked = unlinked;
          version = version;
          hash = hash;
          value = value;
          previous = previous;
          after = ap (λ x. lookup (cas_key q) x.1.records) step ∙ after;
        }
  ]

  -- A compare-and-set that succeeds hands back what the key held before as the previous record,
  -- and the key holds the returned record after it.
  pub json_cas-get_row :
      (res : CompareAndSetResult)
      → (json_cas runtime now q r state).0 ≡ ok res
      → (p : Fields) × (res.previous ≡ some p)
        × (get_row q.tenant_id q.project_id q.collection q.canonical_key state ≡ ok p)
        × (get_row q.tenant_id q.project_id q.collection q.canonical_key
              (json_cas runtime now q r state).1
            ≡ ok res.value)
  unfolding get_row
  json_cas-get_row res h =
      let won = cas_won res h in
      (won.row.payload, sym won.previous, rw won.at_key refl, rw won.after (ap ok won.value))
