-- ===== src/ScopedLedger/Invariant/OfCas.antt =====
-- `_json_cas` keeps a store well-formed, on every branch.
use phigraph.Prelude.{
  String, ◌≡◌, refl, sym, true, false, Option, none, some, nul_free, contains, ◌∙◌, ap,
}
use phigraph.Python.{Runtime}
use phigraph.Python.Values.{Fields, get-put_self}
use phigraph.Python.Errors.{Result, ok, err}
use phigraph.Python.Dict.{lookup}
use phigraph.Transactions.Collections.{is_chain_linked_collection, cas_allowed_collections}
use phigraph.Transactions.Collections.Names.{append_scoped-nul_free, cas-not_linked, cas-append}
use phigraph.Transactions.Hashes.{canonical_scoped_payload_hash-put, chain_record_hash-put}
use phigraph.ScopedLedger.Rows.{StoredRow, scoped_key, standalone_row_hash}
use phigraph.ScopedLedger.Rows.Laws.{IsSound, scoped_key-inj, IsSound-collection_free}
use phigraph.ScopedLedger.Store.{StoreState}
use phigraph.ScopedLedger.Append.{in_scope}
use phigraph.ScopedLedger.Cas.{CasRequest, check_expected, replaced, apply_cas, cas_at, json_cas}
use phigraph.ScopedLedger.Query.{rows_of}
use phigraph.ScopedLedger.Invariant.{IsRowEntry, IsWellFormed}
use phigraph.ScopedLedger.Invariant.Dicts.{
  insert-HasUniqueKeys, All-insert, All-lookup, filter-values-insert_out,
}
use phigraph.ScopedLedger.Invariant.Chains.{not_in_linked}

-- The scope of a request is free of NUL, and its collection is open to compare-and-set.
pub record IsProperCas (q : CasRequest) : Type 0 where
  pub tenant_free : nul_free q.tenant_id ≡ true
  pub project_free : nul_free q.project_id ≡ true
  pub known : contains cas_allowed_collections q.collection ≡ true

module _ (runtime : Runtime) (now : String) (q : CasRequest) (proper : IsProperCas q)
    (r : Fields) where
  -- The row under the request's key has the request's collection.
  found-collection :
      (row : StoredRow)
      → IsRowEntry runtime (scoped_key q.tenant_id q.project_id q.collection q.canonical_key, row)
      → row.collection ≡ q.collection
  found-collection row h = sym (
      (scoped_key-inj q.tenant_id q.project_id q.collection q.canonical_key row.tenant_id
        row.project_id row.collection row.canonical_key proper.tenant_free h.sound.tenant_free
        proper.project_free h.sound.project_free
        (append_scoped-nul_free q.collection (cas-append q.collection proper.known))
        (IsSound-collection_free runtime row h.sound) h.keyed).2)

  replaced-IsSound :
      (row : StoredRow)
      → IsSound runtime row
      → row.collection ≡ q.collection
      → IsSound runtime (replaced runtime now q r row)
  unfolding replaced standalone_row_hash
  replaced-IsSound row h ec =
      let unlinked : row.chain_linked ≡ false =
        h.flag ∙ (ap is_chain_linked_collection ec ∙ cas-not_linked q.collection proper.known) in
      record {
        tenant_free = h.tenant_free;
        project_free = h.project_free;
        known = h.known;
        flag = h.flag;
        metadata = rw (h.standalone unlinked, unlinked) (get-put_self "_chain" _ _);
        hashed = sym (canonical_scoped_payload_hash-put runtime _ _);
        chained = rw (chain_record_hash-put, h.standalone unlinked, ec) refl;
        standalone = h.standalone;
      }

  apply_cas-IsWellFormed :
      (state : StoreState) (row : StoredRow) (checked : Result (Unit {0}))
      → lookup (scoped_key q.tenant_id q.project_id q.collection q.canonical_key) state.records
        ≡ some row
      → IsWellFormed runtime state
      → IsWellFormed runtime (apply_cas runtime now q r row checked state).1
  unfolding apply_cas rows_of
  apply_cas-IsWellFormed state row (err e) found w = w
  apply_cas-IsWellFormed state row (ok _) found w =
      let entry = All-lookup (IsRowEntry runtime) _ state.records w.rows found in
      let ec = found-collection row entry in
      let unlinked : is_chain_linked_collection row.collection ≡ false =
        ap is_chain_linked_collection ec ∙ cas-not_linked q.collection proper.known in
      record {
        unique_rows = insert-HasUniqueKeys _ _ state.records w.unique_rows;
        unique_heads = w.unique_heads;
        rows =
            All-insert (IsRowEntry runtime) _ _ state.records
              (record {
                keyed = unfold replaced in entry.keyed;
                sound = replaced-IsSound row entry.sound ec;
              })
              w.rows;
        heads = w.heads;
        chains = λ t p c ht hp hc.
            rw
              (filter-values-insert_out (in_scope t p c) _ (replaced runtime now q r row)
                state.records found (not_in_linked t p c row unlinked hc)
                (not_in_linked t p c (replaced runtime now q r row) (unfold replaced in unlinked)
                  hc))
              (w.chains t p c ht hp hc);
      }

  cas_at-IsWellFormed :
      (state : StoreState) (found : Option StoredRow)
      → lookup (scoped_key q.tenant_id q.project_id q.collection q.canonical_key) state.records
        ≡ found
      → IsWellFormed runtime state
      → IsWellFormed runtime (cas_at runtime now q r state found).1
  unfolding cas_at
  cas_at-IsWellFormed state none e w = w
  cas_at-IsWellFormed state (some row) e w =
      apply_cas-IsWellFormed state row (check_expected q row) e w

  -- A compare-and-set whose scope is free of NUL and whose collection is open to it keeps a
  -- well-formed store well-formed, whether it replaces a row or raises.
  pub json_cas-IsWellFormed :
      (state : StoreState)
      → IsWellFormed runtime state
      → IsWellFormed runtime (json_cas runtime now q r state).1
  unfolding json_cas
  json_cas-IsWellFormed state w = cas_at-IsWellFormed state _ refl w
