-- ===== src/ScopedLedger/Cas.antt =====
-- `_json_cas` of src/phigraph/core_v3/scoped_ledger.py.
pub mod Versions
use phigraph.Prelude.{ℕ, ◌+◌, String, Bool, true, false, not, Option, none, some, ◌==◌, eqb}
use phigraph.Python.{Runtime}
use phigraph.Python.Values.{Fields, put}
use phigraph.Python.Errors.{
  Result, ok, err, scoped_record_not_found, transaction_unavailable, version_conflict, raise_if,
  ◌>>◌,
}
use phigraph.Python.Dict.{lookup, insert}
use phigraph.Transactions.Hashes.{canonical_scoped_payload_hash}
use phigraph.ScopedLedger.Rows.{
  StoredRow, scoped_key, with_scope, standalone_row_hash, chain_metadata,
}
use phigraph.ScopedLedger.Store.{StoreState}

pub record CompareAndSetResult : Type 0 where
  pub value : Fields
  pub updated : Bool
  pub previous : Option Fields

pub record CasRequest : Type 0 where
  pub tenant_id : String
  pub project_id : String
  pub collection : String
  pub canonical_key : String
  pub expected_version : Option ℕ
  pub expected_payload_hash : Option String

abbrev pub stale_version : Option ℕ → ℕ → Bool
stale_version none current = false
stale_version (some expected) current = not (eqb current expected)

abbrev pub stale_hash : Option String → String → Bool
stale_hash none current = false
stale_hash (some expected) current = not (current == expected)

-- The checks on the row that is there.
unfoldable pub check_expected : CasRequest → StoredRow → Result (Unit {0})
check_expected q existing = do
  raise_if existing.chain_linked
      (transaction_unavailable "CAS is not supported on chain-linked scoped collections")
  raise_if (stale_version q.expected_version existing.row_version)
      (version_conflict "stale expected_version")
  raise_if (stale_hash q.expected_payload_hash existing.payload_hash)
      (version_conflict "stale expected_payload_hash")

-- The row after the update; its key, id, sequence and creation time stay.
unfoldable pub replaced : Runtime → String → CasRequest → Fields → StoredRow → StoredRow
replaced runtime now q r existing =
    let updated_payload = with_scope q.tenant_id q.project_id r in
    let chain_hash = standalone_row_hash runtime q.collection updated_payload in
    record existing {
      payload =
          put "_chain" (chain_metadata none chain_hash existing.chain_sequence false)
            updated_payload;
      payload_hash = canonical_scoped_payload_hash runtime updated_payload;
      chain_hash = chain_hash;
      row_version = existing.row_version + 1;
      updated_at = now;
    }

unfoldable pub apply_cas :
    Runtime
    → String
    → CasRequest
    → Fields
    → StoredRow
    → Result (Unit {0})
    → StoreState
    → Result CompareAndSetResult × StoreState
apply_cas runtime now q r existing (err e) state = (err e, state)
apply_cas runtime now q r existing (ok _) state =
    let row = replaced runtime now q r existing in
    (
      ok (record { value = row.payload; updated = true; previous = some existing.payload }),
      record state {
        records =
            insert (scoped_key q.tenant_id q.project_id q.collection q.canonical_key) row
              state.records;
      },
    )

unfoldable pub cas_at :
    Runtime
    → String
    → CasRequest
    → Fields
    → StoreState
    → Option StoredRow
    → Result CompareAndSetResult × StoreState
cas_at runtime now q r state none = (err (scoped_record_not_found "scoped record not found"), state)
cas_at runtime now q r state (some existing) =
    apply_cas runtime now q r existing (check_expected q existing) state

-- `_json_cas`
unfoldable pub json_cas :
    Runtime → String → CasRequest → Fields → StoreState → Result CompareAndSetResult × StoreState
unfolding cas_at
json_cas runtime now q r state =
    cas_at runtime now q r state
      (lookup (scoped_key q.tenant_id q.project_id q.collection q.canonical_key) state.records)
