-- ===== src/ScopedLedger/Changes.antt =====
-- What one write does to the records: `_json_append` and `_json_cas` of
-- src/phigraph/core_v3/scoped_ledger.py.
use phigraph.Prelude.{
  subst, ◌+◌, String, ◌≡◌, ◌≢◌, refl, sym, ap, ◌∙◌, ◌⊎◌, inl, inr, Bool, true, false, Option, none,
  some, ◌==◌, eq_iff, Bool-cases, Option-cases,
}
use phigraph.Python.{Runtime}
use phigraph.Python.Values.{Fields}
use phigraph.Python.Errors.{Result, ok, err}
use phigraph.Python.Dict.{lookup, insert, lookup-insert}
use phigraph.ScopedLedger.Rows.{StoredRow, Head}
use phigraph.ScopedLedger.Store.{StoreState}
use phigraph.ScopedLedger.Append.{
  AppendRequest, store_linked, store_standalone, append_linked, append_standalone, append_at,
  json_append,
}
use phigraph.ScopedLedger.Append.Replay.{request_key}
use phigraph.ScopedLedger.Cas.{CasRequest, check_expected, replaced, apply_cas, cas_at, json_cas}
use phigraph.ScopedLedger.Cas.Versions.{cas_key}

-- The records are as they were, or a row was inserted under the key, where `P` says what was there.
abbrev pub Inserts :
    String → (Option StoredRow → StoredRow → Type 0) → StoreState → StoreState → Type 0
Inserts key P state state' =
    (state'.records ≡ state.records)
    ⊎ ((row : StoredRow) × P (lookup key state.records) row
        × (state'.records ≡ insert key row state.records))

abbrev IsAbsent : Option StoredRow → StoredRow → Type 0
IsAbsent found row = found ≡ none

abbrev pub Advances : Option StoredRow → StoredRow → Type 0
Advances found row =
    (old : StoredRow) × (found ≡ some old)
    × (row.chain_linked ≡ old.chain_linked)
    × (row.row_version ≡ old.row_version + 1)

none≢some : {row : StoredRow} → ◌≡◌ {A = Option StoredRow} none (some row) → ⊥
none≢some h = cc

store_linked-Inserts :
    (now : String) (q : AppendRequest) (state : StoreState) (head : Head) (built : Result StoredRow)
    → lookup (request_key q) state.records ≡ none
    → Inserts (request_key q) IsAbsent state (store_linked now q head built state).1
unfolding store_linked
store_linked-Inserts now q state head (err e) absent = inl refl
store_linked-Inserts now q state head (ok row) absent = inr (row, absent, refl)

store_standalone-Inserts :
    (q : AppendRequest) (state : StoreState) (built : Result StoredRow)
    → lookup (request_key q) state.records ≡ none
    → Inserts (request_key q) IsAbsent state (store_standalone q built state).1
unfolding store_standalone
store_standalone-Inserts q state (err e) absent = inl refl
store_standalone-Inserts q state (ok row) absent = inr (row, absent, refl)

module _ (runtime : Runtime) (now : String) where
  append_new-Inserts :
      (q : AppendRequest) (linked : Bool) (r : Fields) (state : StoreState)
      → lookup (request_key q) state.records ≡ none
      → Inserts (request_key q) IsAbsent state (append_at runtime now q linked r state none).1
  unfolding append_at append_linked append_standalone
  append_new-Inserts q true r state absent = store_linked-Inserts now q _ _ _ absent
  append_new-Inserts q false r state absent = store_standalone-Inserts q _ _ absent

  json_append-Inserts :
      (q : AppendRequest) (linked : Bool) (r : Fields) (state : StoreState)
      → Inserts (request_key q) IsAbsent state (json_append runtime now q linked r state).1
  unfolding json_append append_at
  json_append-Inserts q linked r state =
      elim (Option-cases (lookup (request_key q) state.records)) [
        | inr (row, there) ↦ subst found (sym there) (inl refl)
        | inl absent ↦ subst found (sym absent) (append_new-Inserts q linked r state absent)
      ]
    where
      found : Option StoredRow → Type 0
      found o = Inserts (request_key q) IsAbsent state (append_at runtime now q linked r state o).1

  apply_cas-Inserts :
      (q : CasRequest) (r : Fields) (state : StoreState) (old : StoredRow)
      (checked : Result (Unit {0}))
      → lookup (cas_key q) state.records ≡ some old
      → Inserts (cas_key q) Advances state (apply_cas runtime now q r old checked state).1
  unfolding apply_cas replaced
  apply_cas-Inserts q r state old (err e) there = inl refl
  apply_cas-Inserts q r state old (ok _) there = inr (_, (old, there, refl, refl), refl)

  pub json_cas-Inserts :
      (q : CasRequest) (r : Fields) (state : StoreState)
      → Inserts (cas_key q) Advances state (json_cas runtime now q r state).1
  unfolding json_cas cas_at
  json_cas-Inserts q r state = elim (Option-cases (lookup (cas_key q) state.records)) [
    | inl absent ↦ subst found (sym absent) (inl refl)
    | inr (old, there) ↦
        subst found (sym there) (apply_cas-Inserts q r state old (check_expected q old) there)
  ]
    where
      found : Option StoredRow → Type 0
      found o = Inserts (cas_key q) Advances state (cas_at runtime now q r state o).1

  -- An append leaves what a key holds.
  pub append_keeps :
      (q : AppendRequest) (linked : Bool) (r : Fields) (state : StoreState) (key : String)
      (row : StoredRow)
      → lookup key state.records ≡ some row
      → lookup key (json_append runtime now q linked r state).1.records ≡ some row
  append_keeps q linked r state key row h = elim (json_append-Inserts q linked r state) [
    | inl same ↦ ap (lookup key) same ∙ h
    | inr (new, absent, after) ↦ elim (Bool-cases (request_key q == key)) [
      | inr differ ↦
          ap (lookup key) after ∙ lookup-insert (request_key q) key new state.records ∙ rw differ h
      | inl same ↦
          absurd
            (none≢some (sym absent ∙ ap (λ k. lookup k state.records) ((eq_iff _ _).0 same) ∙ h))
    ]
  ]

  -- A compare-and-set of another key does, too.
  pub cas_keeps :
      (q : CasRequest) (r : Fields) (state : StoreState) (key : String) (row : StoredRow)
      → cas_key q ≢ key
      → lookup key state.records ≡ some row
      → lookup key (json_cas runtime now q r state).1.records ≡ some row
  cas_keeps q r state key row other h = elim (json_cas-Inserts q r state) [
    | inl same ↦ ap (lookup key) same ∙ h
    | inr (new, advances, after) ↦ elim (Bool-cases (cas_key q == key)) [
      | inr differ ↦
          ap (lookup key) after ∙ lookup-insert (cas_key q) key new state.records ∙ rw differ h
      | inl same ↦ absurd (other ((eq_iff _ _).0 same))
    ]
  ]
