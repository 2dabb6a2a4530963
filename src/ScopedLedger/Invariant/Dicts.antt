-- ===== src/ScopedLedger/Invariant/Dicts.antt =====
-- Insertion into a dict: its keys, its entries, and its values under a filter.
use phigraph.Prelude.{
  String, ◌≡◌, refl, ap, Bool, false, some, [], ◌∷◌, ◌++◌, arith, ◌==◌, eq_iff, All, filter,
  Bool-cases, inl, inr,
}
use phigraph.Python.Dict.{Dict, lookup, insert, values, lookup-insert}
use phigraph.ScopedLedger.Invariant.{HasUniqueKeys}

module _ {ℓ} {V : Type ℓ} where
  pub insert-HasUniqueKeys :
      (k : String) (v : V) (d : Dict V) → HasUniqueKeys d → HasUniqueKeys (insert k v d)
  unfolding insert lookup
  insert-HasUniqueKeys k v [] h = (refl, tt)
  insert-HasUniqueKeys k v ((j, w) ∷ d) h = elim (Bool-cases (j == k)) [
    | inl same ↦ rw same h
    | inr other ↦
        rw other (
          rw lookup-insert (ground (arith, eq_iff k j, eq_iff j k)),
          insert-HasUniqueKeys k v d h.1,
        )
  ]

  pub All-insert {κ} :
      (P : String × V → Type κ) (k : String) (v : V) (d : Dict V)
      → P (k, v)
      → All P d
      → All P (insert k v d)
  unfolding insert
  All-insert P k v [] p h = (p, tt)
  All-insert P k v ((j, w) ∷ d) p h = elim (Bool-cases (j == k)) [
    | inl same ↦ rw same (rw ((eq_iff j k).0 same) p, h.1)
    | inr other ↦ rw other (h.0, All-insert P k v d p h.1)
  ]

  pub All-lookup {κ} :
      (P : String × V → Type κ) (k : String) {v : V} (d : Dict V)
      → All P d
      → lookup k d ≡ some v
      → P (k, v)
  unfolding lookup
  All-lookup P k [] h e = cc
  All-lookup P k {v} ((j, w) ∷ d) h e = elim (Bool-cases (j == k)) [
    | inl same ↦ let value : w ≡ v = ground arith in rw (← (eq_iff j k).0 same, ← value) h.0
    | inr other ↦ All-lookup P k d h.1 (rw other at e)
  ]

  -- A value replaced by one that the filter treats alike.
  pub filter-values-insert_out :
      (p : V → Bool) (k : String) (v : V) {old : V} (d : Dict V)
      → lookup k d ≡ some old
      → p old ≡ false
      → p v ≡ false
      → filter p (values (insert k v d)) ≡ filter p (values d)
  unfolding lookup insert
  filter-values-insert_out p k v [] e ho hv = cc
  filter-values-insert_out p k v {old} ((j, w) ∷ d) e ho hv =
      ground (arith, filter-values-insert_out p k v {old = old} d)

  pub values-append : (d e : Dict V) → values (d ++ e) ≡ values d ++ values e
  values-append [] e = refl
  values-append ((j, w) ∷ d) e = ap (◌∷◌ w) (values-append d e)
