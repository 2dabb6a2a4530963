-- ===== src/ScopedLedger/Invariant/OfAppend.antt =====
-- `_json_append` keeps a store well-formed, on every branch, the one that raises after it has
-- created a head included.
use phigraph.Prelude.{
  ◌+◌, String, ◌≡◌, ◌≢◌, refl, true, false, Option, none, some, nul_free, contains, eq_iff, ◌==◌,
  Bool-cases, inl, inr,
}
use phigraph.Python.{Runtime}
use phigraph.Python.Dict.{lookup, insert, lookup-insert, lookup-insert_self, lookup-insert_ne}
use phigraph.Transactions.Collections.{is_chain_linked_collection, append_scoped_collections}
use phigraph.ScopedLedger.Rows.{StoredRow, Head, head_key, scoped_key}
use phigraph.ScopedLedger.Rows.Laws.{IsSound, head_key-inj}
use phigraph.ScopedLedger.Store.{StoreState, row_key}
use phigraph.ScopedLedger.Append.{AppendRequest, in_scope, head_or_new}
use phigraph.ScopedLedger.Query.{rows_of}
use phigraph.ScopedLedger.Invariant.{
  IsLinked, head_sequence, head_hash, IsRowEntry, IsHeadEntry, IsWellFormed,
}
use phigraph.ScopedLedger.Invariant.Dicts.{insert-HasUniqueKeys, All-insert, All-lookup}
use phigraph.ScopedLedger.Invariant.Chains.{
  IsLinked-append, filter-insert_new_in, filter-insert_new_out, in_scope_iff, in_scope_self,
}

-- The scope of a request is free of NUL, and its collection is known.
pub record IsProper (q : AppendRequest) : Type 0 where
  pub tenant_free : nul_free q.tenant_id ≡ true
  pub project_free : nul_free q.project_id ≡ true
  pub known : contains append_scoped_collections q.collection ≡ true

module _ (runtime : Runtime) (now : String) (q : AppendRequest) (proper : IsProper q) where
  -- The head of the request's chain, created where it is missing, and the store with it.
  abbrev pub current_head : StoreState → Head
  current_head state =
      head_or_new now q (lookup (head_key q.tenant_id q.project_id q.collection) state.heads)

  abbrev pub with_head : StoreState → StoreState
  with_head state = record {
    records = state.records;
    heads =
        insert (head_key q.tenant_id q.project_id q.collection) (current_head state) state.heads;
  }

  head_or_new-IsHeadEntry :
      (o : Option Head)
      → is_chain_linked_collection q.collection ≡ true
      → ((head : Head)
          → o ≡ some head
          → IsHeadEntry (head_key q.tenant_id q.project_id q.collection, head))
      → IsHeadEntry (head_key q.tenant_id q.project_id q.collection, head_or_new now q o)
  head_or_new-IsHeadEntry none linked h = record {
    keyed = refl;
    tenant_free = proper.tenant_free;
    project_free = proper.project_free;
    linked = linked;
  }
  head_or_new-IsHeadEntry (some head) linked h = h head refl

  head_sequence-new :
      (o : Option Head) → head_sequence (some (head_or_new now q o)) ≡ head_sequence o
  head_sequence-new none = refl
  head_sequence-new (some head) = refl

  head_hash-new : (o : Option Head) → head_hash (some (head_or_new now q o)) ≡ head_hash o
  head_hash-new none = refl
  head_hash-new (some head) = refl

  head_sequence-with_head :
      (state : StoreState) (j : String)
      → head_sequence (lookup j (with_head state).heads) ≡ head_sequence (lookup j state.heads)
  head_sequence-with_head state j =
      rw lookup-insert (elim (Bool-cases (head_key q.tenant_id q.project_id q.collection == j)) [
        | inl same ↦ rw same (rw ((eq_iff _ j).0 same) (head_sequence-new (lookup j state.heads)))
        | inr other ↦ rw other refl
      ])

  head_hash-with_head :
      (state : StoreState) (j : String)
      → head_hash (lookup j (with_head state).heads) ≡ head_hash (lookup j state.heads)
  head_hash-with_head state j =
      rw lookup-insert (elim (Bool-cases (head_key q.tenant_id q.project_id q.collection == j)) [
        | inl same ↦ rw same (rw ((eq_iff _ j).0 same) (head_hash-new (lookup j state.heads)))
        | inr other ↦ rw other refl
      ])

  -- Creating the missing head keeps the store well-formed.
  pub with_head-IsWellFormed :
      (state : StoreState)
      → is_chain_linked_collection q.collection ≡ true
      → IsWellFormed runtime state
      → IsWellFormed runtime (with_head state)
  unfolding rows_of
  with_head-IsWellFormed state linked w = record {
    unique_rows = w.unique_rows;
    unique_heads = insert-HasUniqueKeys _ _ state.heads w.unique_heads;
    rows = w.rows;
    heads =
        All-insert IsHeadEntry _ _ state.heads
          (head_or_new-IsHeadEntry _ linked
            (λ head e. All-lookup IsHeadEntry _ state.heads w.heads e))
          w.heads;
    chains = λ t p c ht hp hc.
        rw (head_sequence-with_head, head_hash-with_head) (w.chains t p c ht hp hc);
  }

  -- The row and the advanced head of a chain-linked append.
  module _ (state : StoreState) (head : Head) (row : StoredRow) (w : IsWellFormed runtime state)
      (at_head : lookup (head_key q.tenant_id q.project_id q.collection) state.heads ≡ some head)
      (fresh : lookup
          (scoped_key q.tenant_id q.project_id q.collection q.canonical_key)
          state.records
        ≡ none)
      (keyed : scoped_key q.tenant_id q.project_id q.collection q.canonical_key ≡ row_key row)
      (sound : IsSound runtime row) (et : row.tenant_id ≡ q.tenant_id)
      (ep : row.project_id ≡ q.project_id) (ec : row.collection ≡ q.collection)
      (es : row.chain_sequence ≡ head.last_sequence + 1)
      (eh : row.chain_prev ≡ head.last_chain_hash) where
    abbrev pub advanced : Head
    advanced = record head {
      last_sequence = head.last_sequence + 1;
      last_chain_hash = some row.chain_hash;
      updated_at = now;
    }

    abbrev pub stored : StoreState
    stored = record {
      records =
          insert (scoped_key q.tenant_id q.project_id q.collection q.canonical_key) row
            state.records;
      heads = insert (head_key q.tenant_id q.project_id q.collection) advanced state.heads;
    }

    elsewhere :
        (t p c : String)
        → nul_free t ≡ true
        → nul_free p ≡ true
        → in_scope t p c row ≡ false
        → head_key q.tenant_id q.project_id q.collection ≢ head_key t p c
    elsewhere t p c ht hp outside e =
        let (it, ip, ic) =
          head_key-inj q.tenant_id q.project_id q.collection t p c proper.tenant_free ht
            proper.project_free hp e in
        let inside : in_scope t p c row ≡ true =
          rw (← it, ← ip, ← ic, ← et, ← ep, ← ec) (in_scope_self row) in
        cc

    chains-stored :
        (t p c : String)
        → nul_free t ≡ true
        → nul_free p ≡ true
        → is_chain_linked_collection c ≡ true
        → IsLinked 0 none
            (rows_of t p c stored)
            (head_sequence (lookup (head_key t p c) stored.heads))
            (head_hash (lookup (head_key t p c) stored.heads))
    unfolding rows_of
    chains-stored t p c ht hp hc = elim (Bool-cases (in_scope t p c row)) [
      | inl inside ↦
          let (it, ip, ic) = in_scope_iff t p c row inside in
          let same : head_key t p c ≡ head_key q.tenant_id q.project_id q.collection = cc in
          rw (filter-insert_new_in (in_scope t p c) _ row state.records fresh inside) (
            rw (same, lookup-insert_self)
              (IsLinked-append 0 none _ head.last_sequence head.last_chain_hash row
                (rw (same, at_head) at (w.chains t p c ht hp hc)) es eh))
      | inr outside ↦
          rw (filter-insert_new_out (in_scope t p c) _ row state.records fresh outside) (
            rw
              (lookup-insert_ne _ (head_key t p c) advanced state.heads
                (elsewhere t p c ht hp outside))
              (w.chains t p c ht hp hc))
    ]

    pub stored-IsWellFormed :
        is_chain_linked_collection q.collection ≡ true → IsWellFormed runtime stored
    stored-IsWellFormed linked = record {
      unique_rows = insert-HasUniqueKeys _ _ state.records w.unique_rows;
      unique_heads = insert-HasUniqueKeys _ _ state.heads w.unique_heads;
      rows =
          All-insert (IsRowEntry runtime) _ _ state.records
            (record { keyed = keyed; sound = sound }) w.rows;
      heads =
          All-insert IsHeadEntry _ _ state.heads
            (let old = All-lookup IsHeadEntry _ state.heads w.heads at_head in
              record {
                keyed = old.keyed;
                tenant_free = old.tenant_free;
                project_free = old.project_free;
                linked = old.linked;
              })
            w.heads;
      chains = chains-stored;
    }
