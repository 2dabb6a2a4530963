-- ===== src/ScopedLedger/Rows/Laws.antt =====
-- What `_build_row` puts into a row, and that scoped keys tell scopes apart.
use phigraph.Prelude.{
  Bool, String, ◌≡◌, sym, ap, ◌∙◌, true, false, none, some, arith, nul_free, with_nul-inj,
  with_nul_assoc, with_nul, contains,
}
use phigraph.Python.{Runtime}
use phigraph.Python.Values.{Fields, get, get-put_self}
use phigraph.Transactions.Collections.{is_chain_linked_collection, append_scoped_collections}
use phigraph.Transactions.Collections.Names.{append_scoped-nul_free}
use phigraph.Transactions.Hashes.{
  canonical_scoped_payload_hash, chain_record_hash, canonical_scoped_payload_hash-put,
  chain_record_hash-put,
}
use phigraph.ScopedLedger.Rows.{
  StoredRow, RowRequest, row_of, chain_metadata, scoped_key, head_key, standalone_row_hash,
}

-- Scoped keys whose tenant, project and collection are free of NUL are equal only for equal parts.
pub scoped_key-inj :
    (t p c k t' p' c' k' : String)
    → nul_free t ≡ true
    → nul_free t' ≡ true
    → nul_free p ≡ true
    → nul_free p' ≡ true
    → nul_free c ≡ true
    → nul_free c' ≡ true
    → scoped_key t p c k ≡ scoped_key t' p' c' k'
    → (t ≡ t') × (p ≡ p') × (c ≡ c') × (k ≡ k')
unfolding scoped_key
scoped_key-inj t p c k t' p' c' k' ht ht' hp hp' hc hc' e =
    let first =
      with_nul-inj t t' (with_nul p (with_nul c k)) (with_nul p' (with_nul c' k')) ht ht' e in
    let second = with_nul-inj p p' (with_nul c k) (with_nul c' k') hp hp' first.1 in
    let third = with_nul-inj c c' k k' hc hc' second.1 in (first.0, second.0, third.0, third.1)

pub head_key-inj :
    (t p c t' p' c' : String)
    → nul_free t ≡ true
    → nul_free t' ≡ true
    → nul_free p ≡ true
    → nul_free p' ≡ true
    → head_key t p c ≡ head_key t' p' c'
    → (t ≡ t') × (p ≡ p') × (c ≡ c')
unfolding head_key
head_key-inj t p c t' p' c' ht ht' hp hp' e =
    let first = with_nul-inj t t' (with_nul p c) (with_nul p' c') ht ht' e in
    let second = with_nul-inj p p' c c' hp hp' first.1 in (first.0, second.0, second.1)

-- With a NUL in a tenant or a project, two scopes share every key.
pub scoped_key_clash :
    (a b c collection key : String)
    → scoped_key (with_nul a b) c collection key ≡ scoped_key a (with_nul b c) collection key
unfolding scoped_key
scoped_key_clash a b c collection key =
    with_nul_assoc a b (with_nul c (with_nul collection key))
    ∙ ap (with_nul a) (sym (with_nul_assoc b c (with_nul collection key)))

-- A row as the engine writes it: its metadata, its hashes, and its flag agree.
pub record IsSound (runtime : Runtime) (row : StoredRow) : Type 0 where
  pub tenant_free : nul_free row.tenant_id ≡ true
  pub project_free : nul_free row.project_id ≡ true
  pub known : contains append_scoped_collections row.collection ≡ true
  pub flag : row.chain_linked ≡ is_chain_linked_collection row.collection
  pub metadata :
      get "_chain" row.payload
      ≡ some (chain_metadata row.chain_prev row.chain_hash row.chain_sequence row.chain_linked)
  pub hashed : row.payload_hash ≡ canonical_scoped_payload_hash runtime row.payload
  pub chained : row.chain_hash ≡ chain_record_hash runtime row.chain_prev row.collection row.payload
  pub standalone : row.chain_linked ≡ false → row.chain_prev ≡ none

module _ (runtime : Runtime) where
  pub IsSound-collection_free :
      (row : StoredRow) → IsSound runtime row → nul_free row.collection ≡ true
  IsSound-collection_free row h = append_scoped-nul_free row.collection h.known

  pub row_of-IsSound :
      (now : String) (q : RowRequest) (r : Fields) (linked : Bool) (record_id : String)
      → nul_free q.tenant_id ≡ true
      → nul_free q.project_id ≡ true
      → contains append_scoped_collections q.collection ≡ true
      → linked ≡ is_chain_linked_collection q.collection
      → IsSound runtime (row_of runtime now q r linked record_id)
  unfolding row_of standalone_row_hash
  row_of-IsSound now q r linked record_id ht hp hc flag = record {
    tenant_free = ht;
    project_free = hp;
    known = hc;
    flag = flag;
    metadata = get-put_self "_chain" _ _;
    hashed = sym (canonical_scoped_payload_hash-put runtime _ _);
    chained = rw chain_record_hash-put (ground arith);
    standalone = λ e. rw e;
  }
