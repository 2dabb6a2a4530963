-- ===== src/ScopedLedger/Invariant/Chains.antt =====
-- Chains of rows: one row more at the end, and the rows of a scope after an insertion.
use phigraph.Prelude.{
  Bool-cases, inl, inr, ℕ, ◌+◌, String, ◌≡◌, refl, Bool, true, false, Option, none, some, List, [],
  ◌∷◌, ◌++◌, arith, filter, filter-append, eq_iff,
}
use mathlib.Core.List.{append-nil}
use phigraph.Python.Dict.{Dict, lookup, insert, values, insert_new}
use phigraph.Transactions.Collections.{is_chain_linked_collection}
use phigraph.ScopedLedger.Rows.{StoredRow}
use phigraph.ScopedLedger.Append.{in_scope}
use phigraph.ScopedLedger.Invariant.{IsLinked}
use phigraph.ScopedLedger.Invariant.Dicts.{values-append}

-- A row behind the end of a chain makes it one longer.
pub IsLinked-append :
    (n : ℕ) (prev : Option String) (rows : List StoredRow) (m : ℕ) (last : Option String)
    (row : StoredRow)
    → IsLinked n prev rows m last
    → row.chain_sequence ≡ m + 1
    → row.chain_prev ≡ last
    → IsLinked n prev (rows ++ row ∷ []) (m + 1) (some row.chain_hash)
IsLinked-append n prev [] m last row h es ep = (ground arith, ground arith, (ground arith, refl))
IsLinked-append n prev (r ∷ rows) m last row h es ep =
    (h.0, h.1, IsLinked-append (n + 1) (some r.chain_hash) rows m last row h.2 es ep)

module _ (p : StoredRow → Bool) (k : String) (row : StoredRow) (d : Dict StoredRow)
    (fresh : lookup k d ≡ none) where
  pub filter-insert_new_in :
      p row ≡ true → filter p (values (insert k row d)) ≡ filter p (values d) ++ row ∷ []
  filter-insert_new_in h =
      rw (insert_new k row d fresh, values-append, filter-append) (ground arith)

  pub filter-insert_new_out :
      p row ≡ false → filter p (values (insert k row d)) ≡ filter p (values d)
  filter-insert_new_out h =
      rw (insert_new k row d fresh, values-append, filter-append) (rw h (append-nil _))

-- A row is in its own scope, and in no other.
pub in_scope_iff :
    (t p c : String) (row : StoredRow)
    → in_scope t p c row ≡ true
    → (row.tenant_id ≡ t) × (row.project_id ≡ p) × (row.collection ≡ c)
unfolding in_scope
in_scope_iff t p c row h =
    ground (arith, eq_iff row.tenant_id t, eq_iff row.project_id p, eq_iff row.collection c)

pub in_scope_self :
    (row : StoredRow) → in_scope row.tenant_id row.project_id row.collection row ≡ true
unfolding in_scope
in_scope_self row = ground (
  arith,
  eq_iff row.tenant_id row.tenant_id,
  eq_iff row.project_id row.project_id,
  eq_iff row.collection row.collection,
)

-- A row outside every chain is in no chain-linked collection.
pub not_in_linked :
    (t p c : String) (row : StoredRow)
    → is_chain_linked_collection row.collection ≡ false
    → is_chain_linked_collection c ≡ true
    → in_scope t p c row ≡ false
not_in_linked t p c row h k = elim (Bool-cases (in_scope t p c row)) [
  | inl inside ↦ let same = (in_scope_iff t p c row inside).2 in absurd (cc)
  | inr outside ↦ outside
]
