-- ===== src/ScopedLedger/Append.antt =====
-- `_json_append` and `_next_mutable_sequence` of src/phigraph/core_v3/scoped_ledger.py. The
-- state comes back beside an error too, since a head that was created stays in it.
pub mod Replay
pub mod Isolation
use Prim.Native.Nat.{max}
use phigraph.Prelude.{
  ℕ, ◌+◌, String, Bool, true, false, ◌&&◌, Option, none, some, List, [], ◌∷◌, ◌==◌, if◌then◌else◌,
}
use phigraph.Python.{Runtime}
use phigraph.Python.Values.{Fields}
use phigraph.Python.Errors.{Result, ok, err, duplicate_canonical_key}
use phigraph.Python.Dict.{lookup, insert, values}
use phigraph.Transactions.Hashes.{canonical_scoped_payload_hash}
use phigraph.ScopedLedger.Rows.{
  StoredRow, Head, RowRequest, scoped_key, head_key, with_scope, build_row,
}
use phigraph.ScopedLedger.Store.{StoreState}

-- `ScopedRecordResult`; `append_scoped` hands on only the record.
pub record ScopedRecordResult : Type 0 where
  pub value : Fields
  pub created : Bool

-- What an append is called with.
pub record AppendRequest : Type 0 where
  pub tenant_id : String
  pub project_id : String
  pub collection : String
  pub canonical_key : String

unfoldable pub in_scope : String → String → String → StoredRow → Bool
in_scope tenant_id project_id collection row =
    row.tenant_id == tenant_id && row.project_id == project_id && row.collection == collection

max_sequence : String → String → String → List StoredRow → ℕ
unfolding in_scope
max_sequence tenant_id project_id collection [] = 0
max_sequence tenant_id project_id collection (row ∷ rows) =
    let rest = max_sequence tenant_id project_id collection rows in
    if in_scope tenant_id project_id collection row then max row.chain_sequence rest else rest

-- `_next_mutable_sequence`
unfoldable pub next_mutable_sequence : StoreState → String → String → String → ℕ
unfolding max_sequence
next_mutable_sequence state tenant_id project_id collection =
    max_sequence tenant_id project_id collection (values state.records) + 1

abbrev pub new_head : String → AppendRequest → Head
new_head now q = record {
  tenant_id = q.tenant_id;
  project_id = q.project_id;
  collection = q.collection;
  last_sequence = 0;
  last_chain_hash = none;
  updated_at = now;
}

abbrev pub head_or_new : String → AppendRequest → Option Head → Head
head_or_new now q none = new_head now q
head_or_new now q (some head) = head

abbrev pub row_request : AppendRequest → Option String → ℕ → Bool → RowRequest
row_request q chain_prev next_sequence linked = record {
  collection = q.collection;
  canonical_key = q.canonical_key;
  tenant_id = q.tenant_id;
  project_id = q.project_id;
  chain_prev = chain_prev;
  chain_sequence = next_sequence;
  row_version = 1;
  created_at = none;
  updated_at = none;
  chain_linked = some linked;
}

-- The insertion of a row that was built, on a chain: the row and the advanced head.
unfoldable pub store_linked :
    String
    → AppendRequest
    → Head
    → Result StoredRow
    → StoreState
    → Result ScopedRecordResult × StoreState
store_linked now q head (err e) state = (err e, state)
store_linked now q head (ok stored) state =
    let advanced = record head {
      last_sequence = head.last_sequence + 1;
      last_chain_hash = some stored.chain_hash;
      updated_at = now;
    } in
    (
      ok (record { value = stored.payload; created = true }),
      record {
        records =
            insert (scoped_key q.tenant_id q.project_id q.collection q.canonical_key) stored
              state.records;
        heads = insert (head_key q.tenant_id q.project_id q.collection) advanced state.heads;
      },
    )

-- A new record of a chain-linked collection.
unfoldable pub append_linked :
    Runtime → String → AppendRequest → Fields → StoreState → Result ScopedRecordResult × StoreState
append_linked runtime now q r state =
    let key = head_key q.tenant_id q.project_id q.collection in
    let head = head_or_new now q (lookup key state.heads) in
    let opened : StoreState = record {
      records = state.records;
      heads = insert key head state.heads;
    } in
    store_linked now q head
      (build_row runtime now (row_request q head.last_chain_hash (head.last_sequence + 1) true) r)
      opened

unfoldable pub store_standalone :
    AppendRequest → Result StoredRow → StoreState → Result ScopedRecordResult × StoreState
store_standalone q (err e) state = (err e, state)
store_standalone q (ok stored) state = (
  ok (record { value = stored.payload; created = true }),
  record {
    records =
        insert (scoped_key q.tenant_id q.project_id q.collection q.canonical_key) stored
          state.records;
    heads = state.heads;
  },
)

-- A new record of a collection whose records are replaced by compare-and-set.
unfoldable pub append_standalone :
    Runtime → String → AppendRequest → Fields → StoreState → Result ScopedRecordResult × StoreState
append_standalone runtime now q r state =
    store_standalone q
      (build_row runtime now
        (row_request q none (next_mutable_sequence state q.tenant_id q.project_id q.collection)
          false)
        r)
      state

-- The answer where the key is taken: the same payload again, or a conflict.
unfoldable pub replay_existing : String → StoredRow → Result ScopedRecordResult
replay_existing incoming_hash existing =
    if existing.payload_hash == incoming_hash
    then ok (record { value = existing.payload; created = false })
    else err (duplicate_canonical_key "Duplicate canonical key")

unfoldable pub append_at :
    Runtime
    → String
    → AppendRequest
    → Bool
    → Fields
    → StoreState
    → Option StoredRow
    → Result ScopedRecordResult × StoreState
append_at runtime now q linked r state (some existing) =
    let incoming_hash =
      canonical_scoped_payload_hash runtime (with_scope q.tenant_id q.project_id r) in
    (replay_existing incoming_hash existing, state)
append_at runtime now q true r state none = append_linked runtime now q r state
append_at runtime now q false r state none = append_standalone runtime now q r state

-- `_json_append`, from the state it works on to the state it leaves.
unfoldable pub json_append :
    Runtime
    → String
    → AppendRequest
    → Bool
    → Fields
    → StoreState
    → Result ScopedRecordResult × StoreState
unfolding append_at
json_append runtime now q linked r state =
    append_at runtime now q linked r state
      (lookup (scoped_key q.tenant_id q.project_id q.collection q.canonical_key) state.records)
