-- ===== src/EvidenceLedger/Sqlite.antt =====
-- `SQLiteLedgerBackend` of src/phigraph/core_v3/backends.py: the collections in one table, with
-- the primary key of a row taken from its first field whose name ends in `_id`.
pub mod Conflicts
pub mod RoundTrip
use Prim.Native.String.{◌∷◌ as char_cons, [] as no_chars}
use phigraph.Prelude.{
  String, Bool, true, false, ◌&&◌, ◌||◌, Option, none, some, List, [], ◌∷◌, ◌++◌, ◌==◌,
  if◌then◌else◌,
}
use phigraph.Prelude.Order.{str_order, Order}
use phigraph.Python.{Runtime}
use phigraph.Python.Values.{
  Json, null, bool, num, other_num, str, arr, obj, Items, nil, cons, Fields, end, field,
}
use phigraph.Python.Errors.{Result, ok, err, value_error, integrity_error, raise_if, ◌>>=◌, ◌>>◌}
use phigraph.Python.Dict.{Dict, insert}
use phigraph.EvidenceLedger.Chain.{Payload, rows_or_none}

-- A row of the table. Its payload is the row that `json.loads` makes of the stored text.
pub record SqlRow : Type 0 where
  pub collection : String
  pub record_id : String
  pub payload : Fields

abbrev pub Table : Type 0
Table = List SqlRow

-- `k.endswith(suffix)`
unfoldable pub ends_with : String → String → Bool
ends_with suffix no_chars = suffix == ""
ends_with suffix (char_cons c s) =
    let rest = ends_with suffix s in if suffix == char_cons c s then true else rest

-- `str(v)`
abbrev pub str_of_value : Runtime → Json → String
str_of_value runtime (str s) = s
str_of_value runtime v = runtime.str_of v

-- `next((str(v) for k, v in row.items() if k.endswith("_id")), None)`
unfoldable pub record_id_of : Runtime → Fields → Option String
unfolding ends_with
record_id_of runtime end = none
record_id_of runtime (field k v row) =
    let rest = record_id_of runtime row in
    if ends_with "_id" k then some (str_of_value runtime v) else rest

-- `json.loads(json.dumps(v, sort_keys=True))`: the same value with its keys in order.
unfoldable pub insert_field : String → Json → Fields → Fields
insert_field k v end = field k v end
insert_field k v (field j w row) =
    let rest = insert_field k v row in
    if str_order.le k j then field k v (field j w row) else field j w rest

unfoldable mutual
  pub reload_value : Json → Json
  reload_value null = null
  reload_value (bool b) = bool b
  reload_value (num n) = num n
  reload_value (other_num s) = other_num s
  reload_value (str s) = str s
  reload_value (arr items) = arr (reload_items items)
  reload_value (obj row) = obj (reload row)

  pub reload_items : Items → Items
  reload_items nil = nil
  reload_items (cons v items) = cons (reload_value v) (reload_items items)

  pub reload : Fields → Fields
  reload end = end
  reload (field k v row) = insert_field k (reload_value v) (reload row)

-- Whether the primary key is taken.
unfoldable pub has_key : String → String → Table → Bool
has_key collection record_id [] = false
has_key collection record_id (row ∷ table) =
    (row.collection == collection && row.record_id == record_id)
    || has_key collection record_id table

abbrev pub sql_row : String → String → Fields → SqlRow
sql_row collection record_id row = record {
  collection = collection;
  record_id = record_id;
  payload = reload row;
}

-- `INSERT INTO ledger ...`
unfoldable pub insert_sql : String → Fields → Option String → Table → Result Table
insert_sql collection row none table = err (value_error "Record has no *_id field")
insert_sql collection row (some record_id) table =
    if has_key collection record_id table
    then err (integrity_error "UNIQUE constraint failed")
    else ok (table ++ sql_row collection record_id row ∷ [])

unfoldable pub write_rows : Runtime → String → List Fields → Table → Result Table
unfolding insert_sql
write_rows runtime collection [] table = ok table
write_rows runtime collection (row ∷ rows) table =
    insert_sql collection row (record_id_of runtime row) table
    >>= write_rows runtime collection rows

unfoldable pub write_payload : Runtime → Payload → Table → Result Table
unfolding write_rows
write_payload runtime [] table = ok table
write_payload runtime ((collection, rows) ∷ payload) table =
    write_rows runtime collection rows table >>= write_payload runtime payload

-- The transaction's end: committed, or rolled back.
abbrev pub committed : Table → Result Table → Result (Unit {0}) × Table
committed table (err e) = (err e, table)
committed table (ok table') = (ok tt, table')

-- `write_all`: the rows are deleted and inserted again in one transaction.
unfoldable pub sqlite_write_all : Runtime → Payload → Table → Result (Unit {0}) × Table
unfolding write_payload
sqlite_write_all runtime payload table = committed table (write_payload runtime payload [])

-- `result.setdefault(collection, []).append(...)`
abbrev pub add_row : SqlRow → Payload → Payload
add_row row result =
    insert (row.collection) (rows_or_none result (row.collection) ++ row.payload ∷ []) result

unfoldable pub read_rows : Table → Payload → Payload
read_rows [] result = result
read_rows (row ∷ table) result = read_rows table (add_row row result)

abbrev pub no_rows : List String → Payload
no_rows [] = []
no_rows (c ∷ cs) = (c, []) ∷ no_rows cs

-- `read_all`
unfoldable pub sqlite_read_all : List String → Table → Payload
unfolding read_rows
sqlite_read_all collections table = read_rows table (no_rows collections)
