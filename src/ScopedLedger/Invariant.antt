-- ===== src/ScopedLedger/Invariant.antt =====
-- The well-formedness of a store: what every operation of the engine keeps.
pub mod Dicts
pub mod Chains
pub mod OfAppend
pub mod OfCas
pub mod Operations
pub mod RoundTrip
pub mod Transactions
use phigraph.Prelude.{
  ℕ, ◌+◌, String, ◌≡◌, Bool, true, Option, none, some, List, [], ◌∷◌, All, nul_free, ◌↔◌,
}
use phigraph.Python.{Runtime}
use phigraph.Python.Dict.{Dict, lookup}
use phigraph.Transactions.Collections.{is_chain_linked_collection}
use phigraph.ScopedLedger.Rows.{StoredRow, Head, head_key}
use phigraph.ScopedLedger.Rows.Laws.{IsSound}
use phigraph.ScopedLedger.Store.{StoreState, row_key, key_of_head}
use phigraph.ScopedLedger.Query.{rows_of}

-- Each key stands once.
abbrev pub HasUniqueKeys {ℓ} : {V : Type ℓ} → Dict V → Type ℓ
HasUniqueKeys [] = Unit
HasUniqueKeys ((k, v) ∷ d) = (lookup k d ≡ none) × HasUniqueKeys d

-- Rows that continue a chain from sequence `n` and hash `prev` to sequence `m` and hash `last`.
abbrev pub IsLinked : ℕ → Option String → List StoredRow → ℕ → Option String → Type 0
IsLinked n prev [] m last = (n ≡ m) × (prev ≡ last)
IsLinked n prev (row ∷ rows) m last =
    (row.chain_sequence ≡ n + 1)
    × (row.chain_prev ≡ prev)
    × IsLinked (n + 1) (some row.chain_hash) rows m last

-- Where a chain stands: a head that is missing means that it has no rows.
abbrev pub head_sequence : Option Head → ℕ
head_sequence none = 0
head_sequence (some head) = head.last_sequence

abbrev pub head_hash : Option Head → Option String
head_hash none = none
head_hash (some head) = head.last_chain_hash

pub record IsRowEntry (runtime : Runtime) (entry : String × StoredRow) : Type 0 where
  pub keyed : entry.0 ≡ row_key entry.1
  pub sound : IsSound runtime entry.1

pub record IsHeadEntry (entry : String × Head) : Type 0 where
  pub keyed : entry.0 ≡ key_of_head entry.1
  pub tenant_free : nul_free entry.1.tenant_id ≡ true
  pub project_free : nul_free entry.1.project_id ≡ true
  pub linked : is_chain_linked_collection entry.1.collection ≡ true

-- A store as the engine keeps it: rows and heads under their own keys, every row sound, and in
-- each scope every chain-linked collection one chain from sequence 1 to its head.
pub record IsWellFormed (runtime : Runtime) (state : StoreState) : Type 0 where
  pub unique_rows : HasUniqueKeys state.records
  pub unique_heads : HasUniqueKeys state.heads
  pub rows : All (IsRowEntry runtime) state.records
  pub heads : All IsHeadEntry state.heads
  pub chains :
      (t p c : String)
      → nul_free t ≡ true
      → nul_free p ≡ true
      → is_chain_linked_collection c ≡ true
      → IsLinked 0 none
          (rows_of t p c state)
          (head_sequence (lookup (head_key t p c) state.heads))
          (head_hash (lookup (head_key t p c) state.heads))
