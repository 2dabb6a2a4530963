-- ===== src/Transactions/Locks.antt =====
-- `LockRef`, the global lock order and the lock context of src/phigraph/core_v3/transactions.py.
pub mod Normal
pub mod Ordered
pub mod Context
use phigraph.Prelude.{
  ℕ, String, Bool, false, not, ◌&&◌, ◌||◌, Option, none, some, List, [], ◌∷◌, ◌==◌, contains, eqb,
  if◌then◌else◌,
}
use phigraph.Prelude.Order
use phigraph.Prelude.Order.{nat_order, str_order, pair_order}
use phigraph.Prelude.Sort.{sort_by}
use phigraph.Python.Errors.{Result, ok, err, value_error, undeclared_lock_ref, raise_if, ◌>>◌}

pub data LockKind : Type 0 where
  chain canonical : LockKind

pub record LockRef : Type 0 where
  pub tenant_id : String
  pub project_id : String
  pub collection : String
  pub kind : LockKind
  pub canonical_key : String

-- `not s`
abbrev pub is_empty : String → Bool
is_empty s = s == ""

key_fits : LockKind → String → Result (Unit {0})
key_fits chain key =
    raise_if (not (is_empty key)) (value_error "CHAIN LockRef must not carry a canonical_key")
key_fits canonical key =
    raise_if (is_empty key) (value_error "CANONICAL LockRef requires canonical_key")

-- `__post_init__`: a reference that is constructed passes this.
unfoldable pub post_init : LockRef → Result (Unit {0})
unfolding key_fits
post_init ref = do
  raise_if (is_empty ref.tenant_id || is_empty ref.project_id || is_empty ref.collection)
      (value_error "LockRef tenant_id, project_id, and collection are required")
  key_fits ref.kind ref.canonical_key

-- Chain locks come before canonical ones.
abbrev pub kind_rank : LockKind → ℕ
kind_rank chain = 0
kind_rank canonical = 1

abbrev pub LockKey : Type 0
LockKey = String × (String × (String × (ℕ × String)))

abbrev pub lock_key : LockRef → LockKey
lock_key ref =
    (ref.tenant_id, (ref.project_id, (ref.collection, (kind_rank ref.kind, ref.canonical_key))))

abbrev pub lock_order : Order.Order LockKey
lock_order =
    pair_order str_order
      (pair_order str_order (pair_order str_order (pair_order nat_order str_order)))

abbrev pub kind_eq : LockKind → LockKind → Bool
kind_eq a b = eqb (kind_rank a) (kind_rank b)

abbrev pub lock_eq : LockRef → LockRef → Bool
lock_eq a b =
    a.tenant_id == b.tenant_id
    && a.project_id == b.project_id
    && a.collection == b.collection
    && kind_eq a.kind b.kind
    && a.canonical_key == b.canonical_key

-- `ref in refs`
abbrev pub has_lock : LockRef → List LockRef → Bool
has_lock ref [] = false
has_lock ref (x ∷ xs) = lock_eq x ref || has_lock ref xs

-- `set(refs)`
abbrev pub lock_set : List LockRef → List LockRef
lock_set [] = []
lock_set (x ∷ xs) = let rest = lock_set xs in if has_lock x xs then rest else x ∷ rest

unfoldable pub normalize_lock_refs : List LockRef → List LockRef
normalize_lock_refs lock_refs = sort_by lock_order lock_key (lock_set lock_refs)

unfoldable pub validate_lock_refs_scope : List LockRef → String → String → Result (Unit {0})
validate_lock_refs_scope [] tenant_id project_id = ok tt
validate_lock_refs_scope (ref ∷ refs) tenant_id project_id =
    let rest = validate_lock_refs_scope refs tenant_id project_id in
    if not (ref.tenant_id == tenant_id) || not (ref.project_id == project_id)
    then err (value_error "lock_refs scope must match run_scoped_transaction scope")
    else rest

pub record LockContext : Type 0 where
  pub chain_locks : List String
  pub canonical_locks : List (String × String)

-- `(collection, key) in canonical_locks`
abbrev pub contains_pair : List (String × String) → String → String → Bool
contains_pair [] collection key = false
contains_pair ((c, k) ∷ rest) collection key =
    (c == collection && k == key) || contains_pair rest collection key

add_lock : LockRef → LockContext → LockContext
add_lock ref ctx = elim ref.kind [
  | chain ↦ record ctx { chain_locks = ref.collection ∷ ctx.chain_locks }
  | canonical ↦ record ctx {
    canonical_locks = (ref.collection, ref.canonical_key) ∷ ctx.canonical_locks;
  }
]

unfoldable pub build_lock_context : List LockRef → LockContext
unfolding add_lock
build_lock_context [] = record { chain_locks = []; canonical_locks = [] }
build_lock_context (ref ∷ refs) = add_lock ref (build_lock_context refs)

-- Outside a transaction there is no context, and nothing is required.
unfoldable pub require_write_locks : Option LockContext → String → String → Bool → Result (Unit {0})
require_write_locks none collection canonical_key require_chain = ok tt
require_write_locks (some ctx) collection canonical_key require_chain =
    if require_chain && not (contains ctx.chain_locks collection)
    then err (undeclared_lock_ref "Missing CHAIN lock for collection")
    else if not (contains_pair ctx.canonical_locks collection canonical_key)
    then err (undeclared_lock_ref "Missing CANONICAL lock for collection")
    else ok tt
