-- ===== src/ScopedLedger/Query/Listing.antt =====
-- A listing of a chain: the pages go through the records in the order of the store.
use phigraph.Prelude.{
  ℕ, ◌+◌, ◌<◌, String, ◌≡◌, ap, true, Option, none, some, List, [], ◌∷◌, arith, map, All, nul_free,
  take, drop,
}
use phigraph.Prelude.Sort.{IsSorted, sort_by_of_IsSorted}
use phigraph.Python.{Runtime}
use phigraph.Transactions.Collections.{is_chain_linked_collection}
use phigraph.ScopedLedger.Rows.{StoredRow}
use phigraph.ScopedLedger.Store.{StoreState}
use phigraph.ScopedLedger.Query.{to_public, page, list_key, list_order, rows_of, list_rows}
use phigraph.ScopedLedger.Invariant.{IsLinked, IsWellFormed}

-- Rows of later sequences come later in a listing.
IsLinked-after :
    (n : ℕ) (first : StoredRow) (prev : Option String) (rows : List StoredRow) (m : ℕ)
    (last : Option String)
    → first.chain_sequence < n + 1
    → IsLinked n prev rows m last
    → All (λ row. list_order.le (list_key first) (list_key row) ≡ true) rows
IsLinked-after n first prev [] m last lt h = tt
IsLinked-after n first prev (row ∷ rows) m last lt h =
    (ground arith, IsLinked-after (n + 1) first (some row.chain_hash) rows m last (omega arith) h.2)

IsLinked-IsSorted :
    (n : ℕ) (prev : Option String) (rows : List StoredRow) (m : ℕ) (last : Option String)
    → IsLinked n prev rows m last
    → IsSorted list_order list_key rows
IsLinked-IsSorted n prev [] m last h = tt
IsLinked-IsSorted n prev (row ∷ rows) m last h = (
  IsLinked-after (n + 1) row (some row.chain_hash) rows m last (ground arith) h.2,
  IsLinked-IsSorted (n + 1) (some row.chain_hash) rows m last h.2,
)

-- On a well-formed store a page of a chain-linked collection holds the records from the offset on,
-- at most as many as the limit, in the order in which the store holds them. The tenant and the
-- project hold no NUL.
pub list_rows-page :
    (runtime : Runtime) (state : StoreState)
    → IsWellFormed runtime state
    → (t p c : String) (limit offset : ℕ) → nul_free t ≡ true
    → nul_free p ≡ true
    → is_chain_linked_collection c ≡ true
    → list_rows t p c limit offset state
      ≡ map to_public (take limit (drop offset (rows_of t p c state)))
unfolding list_rows
list_rows-page runtime state w t p c limit offset ht hp linked =
    let sorted = IsLinked-IsSorted 0 none (rows_of t p c state) _ _ (w.chains t p c ht hp linked) in
    ap (λ rows. map to_public (page offset limit rows))
      (sort_by_of_IsSorted list_order list_key (rows_of t p c state) sorted)
