-- ===== src/ScopedLedger/Rows.antt =====
-- Rows and chain heads of src/phigraph/core_v3/scoped_ledger.py, their keys, and `_build_row`.
-- The code's clock (`_utc_now`) is the argument `now`: the readings of one operation, whole
-- seconds, are taken as one. Sequences and versions are naturals.
use Prim.Native.String.{◌++◌ as text_append}
pub mod Laws
use phigraph.Prelude.{
  ℕ, String, Bool, true, false, not, Option, none, some, ◌==◌, with_nul, if◌then◌else◌,
}
use phigraph.Python.{Runtime}
use phigraph.Python.Values.{Json, bool, num, str, obj, Fields, end, field, put, of_opt_str}
use phigraph.Python.Errors.{Result, ok, ◌>>=◌}
use phigraph.Transactions.Collections.{is_chain_linked_collection, extract_record_id}
use phigraph.Transactions.Hashes.{canonical_scoped_payload_hash, chain_record_hash}

-- `_ChainRowView`
pub record ChainRowView : Type 0 where
  pub tenant_id : String
  pub project_id : String
  pub collection : String
  pub chain_sequence : ℕ
  pub chain_prev : Option String
  pub chain_hash : String
  pub payload : Fields
  pub chain_linked : Bool
  pub payload_hash : Option String

-- `_ChainHeadView`
pub record ChainHeadView : Type 0 where
  pub last_sequence : ℕ
  pub last_chain_hash : Option String

-- `_StoredRow`
pub record StoredRow : Type 0 where
  pub tenant_id : String
  pub project_id : String
  pub collection : String
  pub canonical_key : String
  pub record_id : String
  pub payload : Fields
  pub payload_hash : String
  pub chain_prev : Option String
  pub chain_hash : String
  pub chain_sequence : ℕ
  pub row_version : ℕ
  pub created_at : String
  pub updated_at : String
  pub chain_linked : Bool

-- The dict that the store keeps for a chain.
pub record Head : Type 0 where
  pub tenant_id : String
  pub project_id : String
  pub collection : String
  pub last_sequence : ℕ
  pub last_chain_hash : Option String
  pub updated_at : String

-- `filter is None or value == filter`
abbrev pub fits : Option String → String → Bool
fits none s = true
fits (some f) s = s == f

-- `_scope_matches`
unfoldable pub scope_matches : String → String → Option String → Option String → Bool
scope_matches tenant_id project_id filter_tenant filter_project =
    if not (fits filter_tenant tenant_id)
    then false
    else if not (fits filter_project project_id)
    then false
    else true

-- `_chain_scope_label`
unfoldable pub chain_scope_label : String → String → String → String
chain_scope_label tenant_id project_id collection =
    text_append tenant_id (text_append "/" (text_append project_id (text_append "/" collection)))

-- `_scoped_key`
unfoldable pub scoped_key : String → String → String → String → String
scoped_key tenant_id project_id collection canonical_key =
    with_nul tenant_id (with_nul project_id (with_nul collection canonical_key))

-- `_head_key`
unfoldable pub head_key : String → String → String → String
head_key tenant_id project_id collection = with_nul tenant_id (with_nul project_id collection)

-- `_standalone_row_hash`
unfoldable pub standalone_row_hash : Runtime → String → Fields → String
standalone_row_hash runtime collection r = chain_record_hash runtime none collection r

-- `{**record, "scope": {"tenant_id": tenant_id, "project_id": project_id}}`
unfoldable pub with_scope : String → String → Fields → Fields
with_scope tenant_id project_id r =
    put "scope" (obj (field "tenant_id" (str tenant_id) (field "project_id" (str project_id) end)))
      r

-- The value stored under `_chain`.
unfoldable pub chain_metadata : Option String → String → ℕ → Bool → Json
chain_metadata previous_hash hash sequence linked = obj (
    field "previous_hash" (of_opt_str previous_hash) (
      field "hash" (str hash) (
        field "alg" (str "sha256")
          (field "sequence" (num sequence) (field "linked" (bool linked) end)))))

-- `given or now`
abbrev pub or_now : Option String → String → String
or_now none now = now
or_now (some given) now = if given == "" then now else given

abbrev pub given_or {ℓ} : {A : Type ℓ} → Option A → A → A
given_or none a = a
given_or (some b) a = b

-- What `_build_row` is called with, besides the record.
pub record RowRequest : Type 0 where
  pub collection : String
  pub canonical_key : String
  pub tenant_id : String
  pub project_id : String
  pub chain_prev : Option String
  pub chain_sequence : ℕ
  pub row_version : ℕ
  pub created_at : Option String
  pub updated_at : Option String
  pub chain_linked : Option Bool

-- The row for a record whose id is known.
unfoldable pub row_of : Runtime → String → RowRequest → Fields → Bool → String → StoredRow
row_of runtime now q r linked record_id =
    let scoped_payload = with_scope q.tenant_id q.project_id r in
    let chain_prev : Option String = if linked then q.chain_prev else none in
    let chain_hash =
      if linked
      then chain_record_hash runtime q.chain_prev q.collection scoped_payload
      else standalone_row_hash runtime q.collection scoped_payload in
    record {
      tenant_id = q.tenant_id;
      project_id = q.project_id;
      collection = q.collection;
      canonical_key = q.canonical_key;
      record_id = record_id;
      payload =
          put "_chain" (chain_metadata chain_prev chain_hash q.chain_sequence linked)
            scoped_payload;
      payload_hash = canonical_scoped_payload_hash runtime scoped_payload;
      chain_prev = chain_prev;
      chain_hash = chain_hash;
      chain_sequence = q.chain_sequence;
      row_version = q.row_version;
      created_at = or_now q.created_at now;
      updated_at = or_now q.updated_at now;
      chain_linked = linked;
    }

-- `_build_row`
unfoldable pub build_row : Runtime → String → RowRequest → Fields → Result StoredRow
build_row runtime now q r = do
  record_id ← extract_record_id runtime q.collection r none
  ok (
      row_of runtime now q r (given_or q.chain_linked (is_chain_linked_collection q.collection))
        record_id)
