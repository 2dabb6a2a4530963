-- ===== src/ScopedLedger/Invariant/Operations.antt =====
-- `_json_append` and `_json_cas` keep a store well-formed, on every branch.
use phigraph.Prelude.{
  ℕ, ◌+◌, String, ◌≡◌, ◌⊎◌, refl, sym, Bool, true, false, Option, none, some, inl, inr,
}
use phigraph.Python.{Runtime}
use phigraph.Python.Values.{Fields}
use phigraph.Python.Errors.{Error, Result, ok, err}
use phigraph.Python.Dict.{lookup, insert, lookup-insert_self}
use phigraph.Transactions.Collections.{is_chain_linked_collection, extract_record_id}
use phigraph.ScopedLedger.Rows.{StoredRow, scoped_key, row_of, build_row}
use phigraph.ScopedLedger.Rows.Laws.{IsSound, row_of-IsSound}
use phigraph.ScopedLedger.Store.{StoreState, row_key}
use phigraph.ScopedLedger.Append.{
  AppendRequest, in_scope, row_request, append_linked, append_standalone, store_linked,
  store_standalone, json_append, next_mutable_sequence, append_at,
}
use phigraph.ScopedLedger.Query.{rows_of}
use phigraph.ScopedLedger.Invariant.{IsRowEntry, IsWellFormed}
use phigraph.ScopedLedger.Invariant.Dicts.{insert-HasUniqueKeys, All-insert}
use phigraph.ScopedLedger.Invariant.Chains.{filter-insert_new_out, not_in_linked}
use phigraph.ScopedLedger.Invariant.OfAppend.{
  IsProper, with_head, current_head, with_head-IsWellFormed, stored-IsWellFormed,
}

-- What a builder returns is the row of the request, or an error.
build_row_cases :
    (runtime : Runtime) (now : String) (q : AppendRequest) (prev : Option String) (n : ℕ)
    (linked : Bool) (r : Fields)
    → ((id : String) × (build_row runtime now (row_request q prev n linked) r
          ≡ ok (row_of runtime now (row_request q prev n linked) r linked id)))
      ⊎ ((e : Error) × (build_row runtime now (row_request q prev n linked) r ≡ err e))
unfolding build_row
build_row_cases runtime now q prev n linked r =
    go (extract_record_id runtime q.collection r none) refl
  where
    go :
        (x : Result String)
        → extract_record_id runtime q.collection r none ≡ x
        → ((id : String) × (build_row runtime now (row_request q prev n linked) r
              ≡ ok (row_of runtime now (row_request q prev n linked) r linked id)))
          ⊎ ((e : Error) × (build_row runtime now (row_request q prev n linked) r ≡ err e))
    go (ok id) e = inl (id, rw e)
    go (err x) e = inr (x, rw e)

module _ (runtime : Runtime) (now : String) (q : AppendRequest) (proper : IsProper q)
    (r : Fields) where
  append_linked-IsWellFormed :
      (state : StoreState)
      → is_chain_linked_collection q.collection ≡ true
      → lookup (scoped_key q.tenant_id q.project_id q.collection q.canonical_key) state.records
        ≡ none
      → IsWellFormed runtime state
      → IsWellFormed runtime (append_linked runtime now q r state).1
  unfolding append_linked store_linked row_of
  append_linked-IsWellFormed state linked fresh w =
      let head = current_head runtime now q proper state in
      let opened = with_head-IsWellFormed runtime now q proper state linked w in
      elim (build_row_cases runtime now q head.last_chain_hash (head.last_sequence + 1) true r) [
        | inr (e, raised) ↦ rw (raised, store_linked) opened
        | inl (id, built) ↦
            rw (built, store_linked)
              (stored-IsWellFormed runtime now q proper (with_head runtime now q proper state) head
                _ opened (lookup-insert_self _ _ _) fresh refl
                (row_of-IsSound runtime now
                  (row_request q head.last_chain_hash (head.last_sequence + 1) true) r true id
                  proper.tenant_free proper.project_free proper.known (sym linked))
                refl refl refl refl refl linked)
      ]

  -- A row outside every chain.
  fresh_standalone-IsWellFormed :
      (state : StoreState) (row : StoredRow)
      → is_chain_linked_collection row.collection ≡ false
      → lookup (row_key row) state.records ≡ none
      → IsSound runtime row
      → IsWellFormed runtime state
      → IsWellFormed runtime (record state { records = insert (row_key row) row state.records })
  unfolding rows_of
  fresh_standalone-IsWellFormed state row unlinked fresh sound w = record {
    unique_rows = insert-HasUniqueKeys _ _ state.records w.unique_rows;
    unique_heads = w.unique_heads;
    rows =
        All-insert (IsRowEntry runtime) _ _ state.records (record { keyed = refl; sound = sound })
          w.rows;
    heads = w.heads;
    chains = λ t p c ht hp hc.
        rw
          (filter-insert_new_out (in_scope t p c) _ row state.records fresh
            (not_in_linked t p c row unlinked hc))
          (w.chains t p c ht hp hc);
  }

  append_standalone-IsWellFormed :
      (state : StoreState)
      → is_chain_linked_collection q.collection ≡ false
      → lookup (scoped_key q.tenant_id q.project_id q.collection q.canonical_key) state.records
        ≡ none
      → IsWellFormed runtime state
      → IsWellFormed runtime (append_standalone runtime now q r state).1
  unfolding append_standalone store_standalone row_of
  append_standalone-IsWellFormed state unlinked fresh w =
      let n = next_mutable_sequence state q.tenant_id q.project_id q.collection in
      elim (build_row_cases runtime now q none n false r) [
        | inr (e, raised) ↦ rw (raised, store_standalone) w
        | inl (id, built) ↦
            rw (built, store_standalone)
              (fresh_standalone-IsWellFormed state _ unlinked fresh
                (row_of-IsSound runtime now (row_request q none n false) r false id
                  proper.tenant_free proper.project_free proper.known (sym unlinked))
                w)
      ]

  append_at-IsWellFormed :
      (linked : Bool) (state : StoreState) (found : Option StoredRow)
      → linked ≡ is_chain_linked_collection q.collection
      → lookup (scoped_key q.tenant_id q.project_id q.collection q.canonical_key) state.records
        ≡ found
      → IsWellFormed runtime state
      → IsWellFormed runtime (append_at runtime now q linked r state found).1
  unfolding append_at
  append_at-IsWellFormed linked state (some row) flag e w = w
  append_at-IsWellFormed true state none flag e w = append_linked-IsWellFormed state (sym flag) e w
  append_at-IsWellFormed false state none flag e w =
      append_standalone-IsWellFormed state (sym flag) e w

  -- An append whose scope is free of NUL and whose collection is known keeps a well-formed store
  -- well-formed, whether it stores a row, finds one, or raises.
  pub json_append-IsWellFormed :
      (state : StoreState)
      → IsWellFormed runtime state
      → IsWellFormed runtime
          (json_append runtime now q (is_chain_linked_collection q.collection) r state).1
  unfolding json_append
  json_append-IsWellFormed state w = append_at-IsWellFormed _ state _ refl refl w
