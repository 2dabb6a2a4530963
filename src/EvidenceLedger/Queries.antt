-- ===== src/EvidenceLedger/Queries.antt =====
-- `query` and `snapshot` of src/phigraph/core_v3/ledger.py, with Python's slices.
use phigraph.Prelude.{
  ℕ, ◌+◌, ◌-◌, String, Bool, true, false, not, ◌||◌, Option, none, some, List, [], ◌∷◌, ◌==◌, eqb,
  ltb, leb, length, take, drop, contains, if◌then◌else◌,
}
use phigraph.Prelude.Int.{ℤ, pos, negsuc}
use phigraph.Python.Values.{
  Json, null, bool, num, other_num, str, arr, obj, nil, Fields, end, get, eq_opt_str,
}
use phigraph.Python.Errors.{Result, ok, value_error, raise_if, ◌>>=◌, ◌>>◌}
use phigraph.Python.Dict.{Dict}
use phigraph.EvidenceLedger.Models.{claim_status_value, verified}
use phigraph.EvidenceLedger.Chain.{Payload, collections, read_all, rows_at, get_in, item_at}

infixl 20 ◌+ℤ◌
-- `a + b` of integers
unfoldable pub ◌+ℤ◌ : ℤ → ℤ → ℤ
pos a +ℤ pos b = pos (a + b)
pos a +ℤ negsuc b = if ltb b a then pos (a - b - 1) else negsuc (b - a)
negsuc a +ℤ pos b = if ltb a b then pos (b - a - 1) else negsuc (a - b)
negsuc a +ℤ negsuc b = negsuc (a + b + 1)

-- `min(limit, n)` for a natural `n`
abbrev pub min_limit : ℤ → ℕ → ℤ
min_limit (negsuc a) n = negsuc a
min_limit (pos a) n = if leb a n then pos a else pos n

-- Where a slice's bound stands: a negative one counts from the end.
abbrev pub slice_index : ℕ → ℤ → ℕ
slice_index n (pos a) = a
slice_index n (negsuc a) = n - (a + 1)

-- `xs[start:stop]`
unfoldable pub slice {ℓ} : {A : Type ℓ} → ℤ → ℤ → List A → List A
slice start stop xs =
    let first = slice_index (length xs) start in
    take (slice_index (length xs) stop - first) (drop first xs)

-- The truth of a value.
abbrev pub truthy : Option Json → Bool
truthy none = false
truthy (some null) = false
truthy (some (bool b)) = b
truthy (some (num n)) = not (eqb n 0)
truthy (some (other_num s)) = not (s == "0.0" || s == "-0.0")
truthy (some (str s)) = not (s == "")
truthy (some (arr nil)) = false
truthy (some (arr items)) = true
truthy (some (obj end)) = false
truthy (some (obj fields)) = true

-- `row.get("scope") or row.get("metadata", {})`
abbrev pub row_scope : Fields → Option Json
row_scope row = if truthy (get "scope" row) then get "scope" row else get "metadata" row

-- `wanted is None or scope.get(name) == wanted`
unfoldable pub agrees : Option Json → String → Option String → Result Bool
agrees scope name none = ok true
agrees scope name (some wanted) = get_in scope name >>= λ value. ok (eq_opt_str value (some wanted))

-- The filters of a query.
pub record Wanted : Type 0 where
  pub tenant_id : Option String
  pub project_id : Option String
  pub status : Option String

abbrev pub has_status : Fields → Option String → Bool
has_status row none = true
has_status row (some wanted) = eq_opt_str (get "status" row) (some wanted)

-- The local `scoped` of `query`.
unfoldable pub is_wanted : Wanted → Fields → Result Bool
unfolding agrees
is_wanted w row = do
  tenant ← agrees (row_scope row) "tenant_id" (w.tenant_id)
  project ← (if tenant then agrees (row_scope row) "project_id" (w.project_id) else ok false)
  ok (if project then has_status row (w.status) else false)

unfoldable pub select_rows : Wanted → List Fields → Result (List Fields)
select_rows w [] = ok []
select_rows w (row ∷ rows) =
    let rest = select_rows w rows in
    is_wanted w row >>= λ here. rest >>= λ more. ok (if here then row ∷ more else more)

unfoldable pub query : String → Wanted → ℤ → ℤ → Payload → Result (List Fields)
unfolding select_rows slice ◌+ℤ◌
query collection w limit offset file = do
  raise_if (not (contains collections collection)) (value_error "Unknown collection")
  rows ← rows_at (read_all collections file) collection
  selected ← select_rows w rows
  ok (slice offset (offset +ℤ min_limit limit 1000) selected)

-- What `snapshot` returns: the rows and their number by collection, and the verified claims.
pub record Snapshot : Type 0 where
  pub rows : Dict (List Fields)
  pub summary : Dict ℕ
  pub verified_claims : ℕ

unfoldable pub query_all : Wanted → List String → Payload → Result (Dict (List Fields))
unfolding query
query_all w [] file = ok []
query_all w (c ∷ cs) file = do
  rows ← query c w (pos 100000) (pos 0) file
  rest ← query_all w cs file
  ok ((c, rows) ∷ rest)

abbrev pub summary_of : Dict (List Fields) → Dict ℕ
summary_of [] = []
summary_of ((c, rows) ∷ d) = (c, length rows) ∷ summary_of d

unfoldable pub count_verified : List Fields → Result ℕ
count_verified [] = ok 0
count_verified (row ∷ rows) =
    let rest = count_verified rows in
    item_at row "status" >>= λ status. rest >>= λ n.
    ok (if eq_opt_str (some status) (some (claim_status_value verified)) then n + 1 else n)

unfoldable pub snapshot : Option String → Option String → Payload → Result Snapshot
unfolding query_all count_verified
snapshot tenant_id project_id file = do
  rows ←
      query_all (record { tenant_id = tenant_id; project_id = project_id; status = none })
        collections file
  claims ← rows_at rows "claims"
  n ← count_verified claims
  ok (record { rows = rows; summary = summary_of rows; verified_claims = n })
