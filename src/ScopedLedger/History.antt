-- ===== src/ScopedLedger/History.antt =====
-- What any later writes leave of a key: `_json_append` and `_json_cas` of
-- src/phigraph/core_v3/scoped_ledger.py in sequence.
use phigraph.Prelude.{
  subst, ℕ, ◌+◌, ◌<◌, String, ◌≡◌, ◌≢◌, refl, sym, ap, ◌∙◌, inl, inr, true, false, Option, some,
  List, [], ◌∷◌, arith, ◌==◌, eq_iff, Bool-cases,
}
use phigraph.Python.{Runtime}
use phigraph.Python.Values.{Fields}
use phigraph.Python.Errors.{ok, err, version_conflict}
use phigraph.Python.Dict.{lookup, lookup-insert}
use phigraph.ScopedLedger.Rows.{StoredRow}
use phigraph.ScopedLedger.Store.{StoreState}
use phigraph.ScopedLedger.Cas.{
  CasRequest, CompareAndSetResult, check_expected, stale_version, replaced, apply_cas, cas_at,
  json_cas,
}
use phigraph.ScopedLedger.Cas.Versions.{cas_key, cas_won}
use phigraph.ScopedLedger.Abstract.{Write, append_write, cas_write}
use phigraph.ScopedLedger.Abstract.Refines.{run_writes}
use phigraph.ScopedLedger.Changes.{append_keeps, json_cas-Inserts}

-- The key holds a row that is open to compare-and-set and past the version.
abbrev IsPast : ℕ → String → StoreState → Type 0
IsPast v key state =
    (row : StoredRow) × (lookup key state.records ≡ some row)
    × (row.chain_linked ≡ false)
    × (v < row.row_version)

-- The write is no compare-and-set of the key.
abbrev pub Spares : String → String × Write → Type 0
Spares key (now, append_write q linked r) = Unit
Spares key (now, cas_write q r) = cas_key q ≢ key

some-inj : {a b : StoredRow} → ◌≡◌ {A = Option StoredRow} (some a) (some b) → a ≡ b
some-inj e = cc

later_version : {v n m k : ℕ} → n ≡ m + 1 → m ≡ k → v < k → v < n
later_version e i p = omega arith

won_version : (v n : ℕ) → stale_version (some v) n ≡ false → v < n + 1
won_version v n fresh = ground arith

past_version : (v n : ℕ) → v < n → stale_version (some v) n ≡ true
past_version v n past = ground arith

module _ (runtime : Runtime) where
  cas-IsPast :
      (now : String) (q : CasRequest) (r : Fields) (v : ℕ) (key : String) (state : StoreState)
      → IsPast v key state
      → IsPast v key (json_cas runtime now q r state).1
  cas-IsPast now q r v key state (row, h, unlinked, past) =
      elim (json_cas-Inserts runtime now q r state) [
        | inl same ↦ (row, ap (lookup key) same ∙ h, unlinked, past)
        | inr (new, (old, there, linked, version), after) ↦
            let shown = ap (lookup key) after ∙ lookup-insert (cas_key q) key new state.records in
            elim (Bool-cases (cas_key q == key)) [
              | inr differ ↦ (row, shown ∙ rw differ h, unlinked, past)
              | inl same ↦
                  let is : old ≡ row =
                    some-inj
                      (sym there ∙ ap (λ k. lookup k state.records) ((eq_iff _ _).0 same) ∙ h) in
                  (
                    new,
                    shown ∙ rw same refl,
                    linked ∙ ap (λ x. x.chain_linked) is ∙ unlinked,
                    later_version version (ap (λ x. x.row_version) is) past,
                  )
            ]
      ]

  run_writes-IsPast :
      (writes : List (String × Write)) (v : ℕ) (key : String) (state : StoreState)
      → IsPast v key state
      → IsPast v key (run_writes runtime writes state).1
  unfolding run_writes
  run_writes-IsPast [] v key state h = h
  run_writes-IsPast ((now, append_write q linked r) ∷ writes) v key state (row, h, unlinked, past) =
      run_writes-IsPast writes v key _
        (row, append_keeps runtime now q linked r state key row h, unlinked, past)
  run_writes-IsPast ((now, cas_write q r) ∷ writes) v key state h =
      run_writes-IsPast writes v key _ (cas-IsPast now q r v key state h)

  won-IsPast :
      (now : String) (q : CasRequest) (r : Fields) (state : StoreState) (v : ℕ)
      (res : CompareAndSetResult)
      → q.expected_version ≡ some v
      → (json_cas runtime now q r state).0 ≡ ok res
      → IsPast v (cas_key q) (json_cas runtime now q r state).1
  unfolding replaced
  won-IsPast now q r state v res expects h =
      let won = cas_won runtime now q r state res h in
      (
        replaced runtime now q r won.row,
        won.after,
        won.unlinked,
        won_version v won.row.row_version (rw expects at won.version),
      )

  stale_conflict :
      (later : String) (p : CasRequest) (other : Fields) (v : ℕ) (state : StoreState)
      → p.expected_version ≡ some v
      → IsPast v (cas_key p) state
      → json_cas runtime later p other state
        ≡ (err (version_conflict "stale expected_version"), state)
  unfolding json_cas cas_at apply_cas check_expected
  stale_conflict later p other v state expects (row, h, unlinked, past) =
      let stale : stale_version p.expected_version row.row_version ≡ true =
        rw expects (past_version v row.row_version past) in
      let conflict : check_expected p row ≡ err (version_conflict "stale expected_version") =
        rw (unlinked, stale) refl in
      ap (cas_at runtime later p other state) h
      ∙ ap (λ c. apply_cas runtime later p other row c state) conflict

  -- No version is replaced twice: once a compare-and-set from version `v` has succeeded, then after
  -- any further appends and compare-and-sets, of this key or others and whether they succeed or
  -- raise, a compare-and-set of the same key from version `v`, whatever else it expects and whatever
  -- its record, is a conflict and changes nothing.
  pub json_cas_twice :
      (now : String) (q : CasRequest) (r : Fields) (state : StoreState) (v : ℕ)
      (res : CompareAndSetResult) (writes : List (String × Write)) (later : String) (p : CasRequest)
      (other : Fields)
      → q.expected_version ≡ some v
      → p.expected_version ≡ some v
      → cas_key p ≡ cas_key q
      → (json_cas runtime now q r state).0 ≡ ok res
      → let state' = (run_writes runtime writes (json_cas runtime now q r state).1).1 in
        json_cas runtime later p other state'
        ≡ (err (version_conflict "stale expected_version"), state')
  json_cas_twice now q r state v res writes later p other expects too same h =
      stale_conflict later p other v _ too (
        subst (λ key. IsPast v key (run_writes runtime writes (json_cas runtime now q r state).1).1)
          (sym same)
          (run_writes-IsPast writes v (cas_key q) _ (won-IsPast now q r state v res expects h)))
