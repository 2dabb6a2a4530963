-- ===== src/ScopedLedger/Verify.antt =====
-- `verify_scoped_chain` over the JSON state (src/phigraph/core_v3/scoped_ledger.py).
pub mod Rows
pub mod Chains
pub mod Groups
pub mod Counts
pub mod Loops
pub mod Accepts
use phigraph.Prelude.{
  ℕ, ◌+◌, String, Bool, true, false, not, ◌&&◌, ◌||◌, Option, none, some, List, [], ◌∷◌, ◌++◌, ◌==◌,
  contains, if◌then◌else◌,
}
use phigraph.Prelude.Order.{str_order, pair_order, Order}
use phigraph.Prelude.Sort.{sort_by}
use phigraph.Python.{Runtime}
use phigraph.Python.Errors.{Result, ok, ledger_integrity_error, raise_if, ◌>>=◌, ◌>>◌}
use phigraph.Python.Dict.{Dict, lookup, insert, values}
use phigraph.Transactions.Collections.{chain_linked_collections, is_chain_linked_collection}
use phigraph.ScopedLedger.Rows.{
  StoredRow, Head, ChainRowView, ChainHeadView, scope_matches, fits, head_key, chain_scope_label,
}
use phigraph.ScopedLedger.Validate.{
  validate_linked_chain_group, validate_standalone_row, invalid_orphan_head,
}
use phigraph.ScopedLedger.Store.{StoreState}

pub record VerifyReport : Type 0 where
  pub valid : Bool
  pub checked : ℕ
  pub heads : Dict (Option String)

-- The optional filters of `verify_scoped_chain`.
pub record Filter : Type 0 where
  pub tenant_id : Option String
  pub project_id : Option String
  pub collection : Option String

abbrev pub GroupKey : Type 0
GroupKey = String × (String × String)

abbrev pub group_order : Order GroupKey
group_order = pair_order str_order (pair_order str_order str_order)

abbrev pub key_eq : GroupKey → GroupKey → Bool
key_eq (a, (b, c)) (d, (e, f)) = a == d && b == e && c == f

-- The dict from a scope and collection to its rows.
abbrev pub Groups : Type 0
Groups = List (GroupKey × List ChainRowView)

abbrev pub view_of : StoredRow → ChainRowView
view_of row = record {
  tenant_id = row.tenant_id;
  project_id = row.project_id;
  collection = row.collection;
  chain_sequence = row.chain_sequence;
  chain_prev = row.chain_prev;
  chain_hash = row.chain_hash;
  payload = row.payload;
  chain_linked = row.chain_linked;
  payload_hash = some row.payload_hash;
}

-- `groups.setdefault(key, []).append(view)`
unfoldable pub add_to_group : GroupKey → ChainRowView → Groups → Groups
add_to_group key view [] = (key, view ∷ []) ∷ []
add_to_group key view ((k, rows) ∷ groups) =
    let rest = add_to_group key view groups in
    if key_eq k key then (k, rows ++ view ∷ []) ∷ groups else (k, rows) ∷ rest

-- `[collection] if collection else sorted(CHAIN_LINKED_COLLECTIONS)`
abbrev pub verified_collections : Option String → List String
verified_collections none = chain_linked_collections
verified_collections (some c) = if c == "" then chain_linked_collections else c ∷ []

-- Whether the rows of a scope and collection are looked at.
unfoldable pub is_grouped : Filter → GroupKey → Bool
is_grouped f (t, (p, c)) =
    contains (verified_collections f.collection) c && scope_matches t p f.tenant_id f.project_id

abbrev pub group_key : StoredRow → GroupKey
group_key row = (row.tenant_id, (row.project_id, row.collection))

-- The first loop, over the records.
unfoldable pub group_rows : Filter → Groups → List StoredRow → Groups
group_rows f groups [] = groups
group_rows f groups (row ∷ rows) =
    group_rows f
      (if is_grouped f (group_key row)
        then add_to_group (group_key row) (view_of row) groups
        else groups)
      rows

abbrev pub head_view : Head → ChainHeadView
head_view head = record {
  last_sequence = head.last_sequence;
  last_chain_hash = head.last_chain_hash;
}

abbrev pub opt_head_view : Option Head → Option ChainHeadView
opt_head_view none = none
opt_head_view (some head) = some (head_view head)

abbrev pub head_hash : Option ChainHeadView → Option String
head_hash none = none
head_hash (some head) = head.last_chain_hash

abbrev pub start_report : VerifyReport
start_report = record { valid = true; checked = 0; heads = [] }

-- The second loop, over the sorted groups; `seen` are their keys.
unfoldable pub verify_groups : Runtime → StoreState → VerifyReport → Groups → Result VerifyReport
verify_groups runtime state report [] = ok report
verify_groups runtime state report (((t, (p, c)), rows) ∷ groups) =
    let skip = verify_groups runtime state report groups in
    let head = opt_head_view (lookup (head_key t p c) state.heads) in
    let check = (do
      n ← validate_linked_chain_group runtime rows head
      verify_groups runtime state
          (record report {
            checked = report.checked + n;
            heads = insert (chain_scope_label t p c) (head_hash head) report.heads;
          })
          groups) in
    if is_chain_linked_collection c then check else skip

-- `(t_id, p_id, coll) in seen_heads`
unfoldable pub is_seen : GroupKey → Groups → Bool
is_seen key [] = false
is_seen key ((k, rows) ∷ groups) = key_eq k key || is_seen key groups

abbrev pub head_group : Head → GroupKey
head_group head = (head.tenant_id, (head.project_id, head.collection))

-- Whether a head is looked at by the third loop.
unfoldable pub is_orphan : Filter → Groups → Head → Bool
is_orphan f groups head =
    is_chain_linked_collection head.collection
    && fits f.collection head.collection
    && scope_matches head.tenant_id head.project_id f.tenant_id f.project_id
    && not (is_seen (head_group head) groups)

-- The third loop, over the heads that no group has.
unfoldable pub verify_orphans : Filter → Groups → List Head → Result (Unit {0})
verify_orphans f groups [] = ok tt
verify_orphans f groups (head ∷ heads) = do
  raise_if (is_orphan f groups head && invalid_orphan_head (head_view head))
      (ledger_integrity_error "orphan_chain_head")
  verify_orphans f groups heads

unfoldable pub is_standalone : Filter → StoredRow → Bool
is_standalone f row =
    fits f.collection row.collection
    && scope_matches row.tenant_id row.project_id f.tenant_id f.project_id
    && not row.chain_linked

-- The fourth loop, over the rows outside chains; it counts them.
unfoldable pub verify_standalone : Runtime → Filter → ℕ → List StoredRow → Result ℕ
verify_standalone runtime f checked [] = ok checked
verify_standalone runtime f checked (row ∷ rows) =
    let skip = verify_standalone runtime f checked rows in
    let check = (do
      validate_standalone_row runtime (view_of row)
      verify_standalone runtime f (checked + 1) rows) in
    if is_standalone f row then check else skip

abbrev pub sorted_groups : Filter → StoreState → Groups
sorted_groups f state = sort_by group_order (λ g. g.0) (group_rows f [] (values state.records))

-- `_verify_json_state`
unfoldable pub verify_json_state : Runtime → Filter → StoreState → Result VerifyReport
verify_json_state runtime f state = do
  let groups = sorted_groups f state
  report ← verify_groups runtime state start_report groups
  verify_orphans f groups (values state.heads)
  standalone_checked ← verify_standalone runtime f 0 (values state.records)
  ok (record report { checked = report.checked + standalone_checked })
