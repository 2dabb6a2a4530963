-- ===== src/ScopedLedger/Store.antt =====
-- `_ScopedStoreState` of src/phigraph/core_v3/scoped_ledger.py and its JSON file. The file is
-- the value that `json.loads` gives back for what `json.dumps` wrote; its text is not modelled.
use phigraph.Prelude.{String, Bool, Option, none, some, List, [], ◌∷◌, map, ℕ}
use phigraph.Python.Values.{Fields}
use phigraph.Python.Dict.{Dict, insert, values}
use phigraph.Transactions.Collections.{is_chain_linked_collection}
use phigraph.ScopedLedger.Rows.{StoredRow, Head, scoped_key, head_key}

pub record StoreState : Type 0 where
  pub records : Dict StoredRow
  pub heads : Dict Head

abbrev pub empty_state : StoreState
empty_state = record { records = []; heads = [] }

-- One entry of `"records"` in the file; `chain_linked` may be missing in an older file.
pub record RecordItem : Type 0 where
  pub tenant_id : String
  pub project_id : String
  pub collection : String
  pub canonical_key : String
  pub record_id : String
  pub payload : Fields
  pub payload_hash : String
  pub chain_prev : Option String
  pub chain_hash : String
  pub chain_sequence : ℕ
  pub row_version : ℕ
  pub created_at : String
  pub updated_at : String
  pub chain_linked : Option Bool

pub record Document : Type 0 where
  pub records : List RecordItem
  pub heads : List Head

abbrev pub linked_or_default : Option Bool → String → Bool
linked_or_default none collection = is_chain_linked_collection collection
linked_or_default (some b) collection = b

unfoldable pub row_of_item : RecordItem → StoredRow
row_of_item item = record {
  tenant_id = item.tenant_id;
  project_id = item.project_id;
  collection = item.collection;
  canonical_key = item.canonical_key;
  record_id = item.record_id;
  payload = item.payload;
  payload_hash = item.payload_hash;
  chain_prev = item.chain_prev;
  chain_hash = item.chain_hash;
  chain_sequence = item.chain_sequence;
  row_version = item.row_version;
  created_at = item.created_at;
  updated_at = item.updated_at;
  chain_linked = linked_or_default item.chain_linked item.collection;
}

unfoldable pub item_of_row : StoredRow → RecordItem
item_of_row row = record {
  tenant_id = row.tenant_id;
  project_id = row.project_id;
  collection = row.collection;
  canonical_key = row.canonical_key;
  record_id = row.record_id;
  payload = row.payload;
  payload_hash = row.payload_hash;
  chain_prev = row.chain_prev;
  chain_hash = row.chain_hash;
  chain_sequence = row.chain_sequence;
  row_version = row.row_version;
  created_at = row.created_at;
  updated_at = row.updated_at;
  chain_linked = some row.chain_linked;
}

abbrev pub row_key : StoredRow → String
row_key row = scoped_key row.tenant_id row.project_id row.collection row.canonical_key

abbrev pub key_of_head : Head → String
key_of_head head = head_key head.tenant_id head.project_id head.collection

-- The two loops of `_read_json_state`: each value goes into the dict under its own key.
unfoldable pub rebuild {ℓ} : {V : Type ℓ} → (V → String) → Dict V → List V → Dict V
rebuild key built [] = built
rebuild key built (v ∷ vs) = rebuild key (insert (key v) v built) vs

-- `_read_json_state`
unfoldable pub read_json_state : Document → StoreState
read_json_state doc = record {
  records = rebuild row_key [] (map row_of_item doc.records);
  heads = rebuild key_of_head [] doc.heads;
}

-- `_write_json_state`
unfoldable pub write_json_state : StoreState → Document
write_json_state state = record {
  records = map item_of_row (values state.records);
  heads = values state.heads;
}
