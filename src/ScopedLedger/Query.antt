-- ===== src/ScopedLedger/Query.antt =====
-- `_get_scoped`, `_list_scoped` and `admin_list_scoped` of
-- src/phigraph/core_v3/scoped_ledger.py, on the state that they read.
pub mod Listing
use phigraph.Prelude.{
  ℕ, String, ◌||◌, Option, none, some, List, map, ◌==◌, ltb, filter, take, drop, if◌then◌else◌,
}
use phigraph.Prelude.Int.{ℤ, pos, negsuc}
use phigraph.Prelude.Order.{nat_order, str_order, pair_order, Order}
use phigraph.Prelude.Sort.{sort_by}
use phigraph.Python.Values.{Fields}
use phigraph.Python.Errors.{Result, ok, err, value_error, scoped_record_not_found, ◌>>=◌, ◌>>◌}
use phigraph.Python.Dict.{lookup, values}
use phigraph.Transactions.Collections.{read, validate_collection}
use phigraph.ScopedLedger.Rows.{StoredRow, scoped_key}
use phigraph.ScopedLedger.Store.{StoreState}
use phigraph.ScopedLedger.Append.{in_scope}

abbrev pub max_list_limit : ℕ
max_list_limit = 1000

-- `to_public`
abbrev pub to_public : StoredRow → Fields
to_public row = row.payload

abbrev pub found : Option StoredRow → Result Fields
found none = err (scoped_record_not_found "scoped record not found")
found (some row) = ok (to_public row)

-- `_get_scoped`, behind its guards
unfoldable pub get_row : String → String → String → String → StoreState → Result Fields
get_row tenant_id project_id collection canonical_key state =
    found (lookup (scoped_key tenant_id project_id collection canonical_key) state.records)

-- `rows[offset:offset + limit]` for naturals
abbrev pub page {ℓ} : {A : Type ℓ} → ℕ → ℕ → List A → List A
page offset limit rows = take limit (drop offset rows)

-- The checks of a page: the offset not negative, the limit from 1 to the maximum.
unfoldable pub check_page : ℤ → ℤ → Result (ℕ × ℕ)
check_page (negsuc _) limit = err (value_error "offset must be non-negative")
check_page (pos offset) (negsuc _) = err (value_error "limit must be between 1 and 1000")
check_page (pos offset) (pos limit) =
    if ltb limit 1 || ltb max_list_limit limit
    then err (value_error "limit must be between 1 and 1000")
    else ok (offset, limit)

abbrev pub list_key : StoredRow → ℕ × String
list_key row = (row.chain_sequence, row.record_id)

abbrev pub list_order : Order (ℕ × String)
list_order = pair_order nat_order str_order

-- The rows of one scope and collection, in the order of their sequences.
unfoldable pub rows_of : String → String → String → StoreState → List StoredRow
rows_of tenant_id project_id collection state =
    filter (in_scope tenant_id project_id collection) (values state.records)

unfoldable pub list_rows : String → String → String → ℕ → ℕ → StoreState → List Fields
list_rows tenant_id project_id collection limit offset state = map to_public (
    page offset limit (sort_by list_order list_key (rows_of tenant_id project_id collection state)))

-- `_list_scoped`
unfoldable pub list_scoped : String → String → String → ℤ → ℤ → StoreState → Result (List Fields)
list_scoped tenant_id project_id collection limit offset state = do
  validate_collection read collection
  (o, l) ← check_page offset limit
  ok (list_rows tenant_id project_id collection l o state)

abbrev pub AdminKey : Type 0
AdminKey = String × (String × (ℕ × String))

abbrev pub admin_key : StoredRow → AdminKey
admin_key row = (row.tenant_id, (row.project_id, (row.chain_sequence, row.record_id)))

abbrev pub admin_order : Order AdminKey
admin_order = pair_order str_order (pair_order str_order list_order)

abbrev pub only_tenant : Option String → List StoredRow → List StoredRow
only_tenant none rows = rows
only_tenant (some tenant_id) rows = filter (λ row. row.tenant_id == tenant_id) rows

abbrev pub only_project : Option String → List StoredRow → List StoredRow
only_project none rows = rows
only_project (some project_id) rows = filter (λ row. row.project_id == project_id) rows

unfoldable pub admin_rows :
    String → Option String → Option String → ℕ → ℕ → StoreState → List Fields
admin_rows collection tenant_id project_id limit offset state =
    let rows = filter (λ row. row.collection == collection) (values state.records) in
    map to_public (
      page offset limit
        (sort_by admin_order admin_key (only_project project_id (only_tenant tenant_id rows))))

admin_filtered : String → Option String → Option String → ℤ → ℤ → StoreState → Result (List Fields)
admin_filtered collection tenant_id project_id limit offset state = do
  validate_collection read collection
  (o, l) ← check_page offset limit
  ok (admin_rows collection tenant_id project_id l o state)

-- `admin_list_scoped`: with both filters it is `_list_scoped`.
unfoldable pub admin_list_scoped :
    String → Option String → Option String → ℤ → ℤ → StoreState → Result (List Fields)
unfolding admin_filtered
admin_list_scoped collection (some tenant_id) (some project_id) limit offset state =
    list_scoped tenant_id project_id collection limit offset state
admin_list_scoped collection (some tenant_id) none limit offset state =
    admin_filtered collection (some tenant_id) none limit offset state
admin_list_scoped collection none project_id limit offset state =
    admin_filtered collection none project_id limit offset state
