-- ===== src/ScopedLedger/Abstract.antt =====
-- What the scoped ledger of src/phigraph/core_v3/scoped_ledger.py promises, without its chains,
-- sequences and clocks: a map from keys to records with a hash and a version.
pub mod Refines
use phigraph.Prelude.{
  ℕ, ◌+◌, String, Bool, true, false, Option, none, some, List, [], ◌∷◌, ◌==◌, if◌then◌else◌,
}
use phigraph.Python.{Runtime}
use phigraph.Python.Values.{Fields, without}
use phigraph.Python.Errors.{
  Result, ok, err, duplicate_canonical_key, scoped_record_not_found, transaction_unavailable,
  version_conflict, raise_if, ◌>>◌,
}
use phigraph.Transactions.Collections.{extract_record_id}
use phigraph.Transactions.Hashes.{canonical_scoped_payload_hash}
use phigraph.ScopedLedger.Rows.{scoped_key, with_scope}
use phigraph.ScopedLedger.Append.{AppendRequest}
use phigraph.ScopedLedger.Cas.{CasRequest, stale_version, stale_hash}

-- What a key holds. `linked` says that the record stays as it is.
pub record Entry : Type 0 where
  pub content : Fields
  pub payload_hash : String
  pub version : ℕ
  pub linked : Bool

abbrev pub Ledger : Type 0
Ledger = String → Option Entry

abbrev pub update : String → Entry → Ledger → Ledger
update key entry ledger k = if key == k then some entry else ledger k

-- The record in its scope, as it is stored.
abbrev pub entry_of_record : Runtime → String → String → Fields → ℕ → Bool → Entry
entry_of_record runtime tenant_id project_id r version linked = record {
  content = without "_chain" (with_scope tenant_id project_id r);
  payload_hash = canonical_scoped_payload_hash runtime (with_scope tenant_id project_id r);
  version = version;
  linked = linked;
}

abbrev pub append_new : String → Entry → Result String → Ledger → Result Bool × Ledger
append_new key entry (err e) ledger = (err e, ledger)
append_new key entry (ok id) ledger = (ok true, update key entry ledger)

abbrev pub append_to : String → Entry → Result String → Option Entry → Ledger → Result Bool × Ledger
append_to key entry id none ledger = append_new key entry id ledger
append_to key entry id (some old) ledger = (
  if old.payload_hash == entry.payload_hash
      then ok false
      else err (duplicate_canonical_key "Duplicate canonical key"),
  ledger,
)

-- An append: whether it created the record.
unfoldable pub spec_append : Runtime → AppendRequest → Bool → Fields → Ledger → Result Bool × Ledger
spec_append runtime q linked r ledger =
    let key = scoped_key q.tenant_id q.project_id q.collection q.canonical_key in
    append_to key (entry_of_record runtime q.tenant_id q.project_id r 1 linked)
      (extract_record_id runtime q.collection r none) (ledger key) ledger

abbrev pub check_entry : CasRequest → Entry → Result (Unit {0})
check_entry q old = do
  raise_if old.linked
      (transaction_unavailable "CAS is not supported on chain-linked scoped collections")
  raise_if (stale_version q.expected_version old.version)
      (version_conflict "stale expected_version")
  raise_if (stale_hash q.expected_payload_hash old.payload_hash)
      (version_conflict "stale expected_payload_hash")

abbrev pub cas_checked : String → Entry → Result (Unit {0}) → Ledger → Result Bool × Ledger
cas_checked key entry (err e) ledger = (err e, ledger)
cas_checked key entry (ok _) ledger = (ok true, update key entry ledger)

abbrev pub cas_to :
    Runtime → CasRequest → Fields → String → Option Entry → Ledger → Result Bool × Ledger
cas_to runtime q r key none ledger =
    (err (scoped_record_not_found "scoped record not found"), ledger)
cas_to runtime q r key (some old) ledger =
    cas_checked key
      (entry_of_record runtime q.tenant_id q.project_id r (old.version + 1) (old.linked))
      (check_entry q old) ledger

-- A compare-and-set: whether it updated the record.
unfoldable pub spec_cas : Runtime → CasRequest → Fields → Ledger → Result Bool × Ledger
spec_cas runtime q r ledger =
    let key = scoped_key q.tenant_id q.project_id q.collection q.canonical_key in
    cas_to runtime q r key (ledger key) ledger

-- A write: an append with whether its collection is chain-linked, or a compare-and-set.
pub data Write : Type 0 where
  append_write : AppendRequest → Bool → Fields → Write
  cas_write : CasRequest → Fields → Write

abbrev pub spec_write : Runtime → Write → Ledger → Result Bool × Ledger
spec_write runtime (append_write q linked r) ledger = spec_append runtime q linked r ledger
spec_write runtime (cas_write q r) ledger = spec_cas runtime q r ledger

-- The answers of a sequence of writes, and the ledger after it.
unfoldable pub replay : Runtime → List Write → Ledger → List (Result Bool) × Ledger
replay runtime [] ledger = ([], ledger)
replay runtime (write ∷ writes) ledger =
    let (answer, ledger') = spec_write runtime write ledger in
    let (answers, last) = replay runtime writes ledger' in (answer ∷ answers, last)
