-- ===== src/ScopedLedger/Verify/Chains.antt =====
-- A chain of sound rows with its head passes `_validate_linked_chain_group`.
use text.Mathlib.TextPositions.{eq_refl}
use phigraph.Prelude.{
  ℕ, ◌+◌, ◌<◌, String, ◌≡◌, refl, ap, true, Option, none, some, List, [], ◌∷◌, arith, ◌==◌, eq_iff,
  eqb, leb, map, length, length-map, All,
}
use phigraph.Prelude.Order.{nat_order}
use phigraph.Prelude.Sort.{IsSorted, sort_by_of_IsSorted}
use phigraph.Python.{Runtime}
use phigraph.Python.Errors.{ok}
use phigraph.Transactions.Collections.{is_chain_linked_collection}
use phigraph.Transactions.Hashes.{chain_record_hash}
use phigraph.ScopedLedger.Rows.{StoredRow, ChainRowView, ChainHeadView}
use phigraph.ScopedLedger.Rows.Laws.{IsSound}
use phigraph.ScopedLedger.Validate.{
  opt_str_eq, validate_all_metadata, check_sequences, check_hashes, last_row, check_head,
  validate_sorted_rows, validate_linked_chain_group,
}
use phigraph.ScopedLedger.Invariant.{IsLinked}
use phigraph.ScopedLedger.Verify.{view_of}
use phigraph.ScopedLedger.Verify.Rows.{validate_chain_metadata-IsSound}

abbrev sequence_of : ChainRowView → ℕ
sequence_of view = view.chain_sequence

opt_str_eq_refl : (o : Option String) → opt_str_eq o o ≡ true
opt_str_eq_refl none = refl
opt_str_eq_refl (some s) = eq_refl s

-- Later rows have larger sequences.
IsLinked-above :
    (n k : ℕ) (prev : Option String) (rows : List StoredRow) (m : ℕ) (last : Option String)
    → k < n + 1
    → IsLinked n prev rows m last
    → All (λ view. leb k (sequence_of view) ≡ true) (map view_of rows)
IsLinked-above n k prev [] m last lt h = tt
IsLinked-above n k prev (row ∷ rows) m last lt h =
    (ground arith, IsLinked-above (n + 1) k (some row.chain_hash) rows m last (omega arith) h.2)

IsLinked-IsSorted :
    (n : ℕ) (prev : Option String) (rows : List StoredRow) (m : ℕ) (last : Option String)
    → IsLinked n prev rows m last
    → IsSorted nat_order sequence_of (map view_of rows)
IsLinked-IsSorted n prev [] m last h = tt
IsLinked-IsSorted n prev (row ∷ rows) m last h = (
  IsLinked-above (n + 1) row.chain_sequence (some row.chain_hash) rows m last (ground arith) h.2,
  IsLinked-IsSorted (n + 1) (some row.chain_hash) rows m last h.2,
)

check_sequences-IsLinked :
    (n : ℕ) (prev : Option String) (rows : List StoredRow) (m : ℕ) (last : Option String)
    → IsLinked n prev rows m last
    → check_sequences n (map view_of rows) ≡ ok tt
unfolding check_sequences
check_sequences-IsLinked n prev [] m last h = refl
check_sequences-IsLinked n prev (row ∷ rows) m last h =
    ground (arith, check_sequences-IsLinked (n + 1) (some row.chain_hash) rows m last h.2)

module _ (runtime : Runtime) where
  check_hashes-IsLinked :
      (n : ℕ) (prev : Option String) (rows : List StoredRow) (m : ℕ) (last : Option String)
      → All (IsSound runtime) rows
      → IsLinked n prev rows m last
      → check_hashes runtime prev (map view_of rows) ≡ ok last
  unfolding check_hashes
  check_hashes-IsLinked n prev [] m last s h = ap ok h.1
  check_hashes-IsLinked n prev (row ∷ rows) m last s h =
      let linked : opt_str_eq row.chain_prev prev ≡ true = rw h.1 (opt_str_eq_refl prev) in
      let hashed : row.chain_hash
            == chain_record_hash runtime row.chain_prev row.collection row.payload
          ≡ true =
        (eq_iff _ _).1 s.0.chained in
      simp (linked, hashed)
        (check_hashes-IsLinked (n + 1) (some row.chain_hash) rows m last s.1 h.2)

  validate_all_metadata-IsSound :
      (rows : List StoredRow)
      → All (IsSound runtime) rows
      → All (λ row. is_chain_linked_collection row.collection ≡ true) rows
      → validate_all_metadata runtime (map view_of rows) ≡ ok tt
  unfolding validate_all_metadata
  validate_all_metadata-IsSound [] s l = refl
  validate_all_metadata-IsSound (row ∷ rows) s l =
      rw (validate_chain_metadata-IsSound runtime row s.0 l.0)
        (validate_all_metadata-IsSound rows s.1 l.1)

  abbrev end_view : ℕ → Option String → Option ChainHeadView
  end_view m last = some (record { last_sequence = m; last_chain_hash = last })

  check_head-IsLinked :
      (n : ℕ) (prev : Option String) (row : StoredRow) (rows : List StoredRow) (m : ℕ)
      (last : Option String)
      → IsLinked n prev (row ∷ rows) m last
      → check_head (end_view m last) (last_row (view_of row) (map view_of rows)) ≡ ok tt
  unfolding check_head
  check_head-IsLinked n prev row [] m last h =
      let same : eqb m row.chain_sequence ≡ true = ground arith in
      let top : opt_str_eq last (some row.chain_hash) ≡ true =
        rw (← h.2.1) (opt_str_eq_refl (some row.chain_hash)) in
      simp (same, top)
  check_head-IsLinked n prev row (next ∷ rows) m last h =
      check_head-IsLinked (n + 1) (some row.chain_hash) next rows m last h.2

  -- A chain of sound rows, from sequence 1 to the head, is accepted whole.
  pub validate_linked_chain_group-IsLinked :
      (row : StoredRow) (rows : List StoredRow) (m : ℕ) (last : Option String)
      → All (IsSound runtime) (row ∷ rows)
      → All (λ row. is_chain_linked_collection row.collection ≡ true) (row ∷ rows)
      → IsLinked 0 none (row ∷ rows) m last
      → validate_linked_chain_group runtime (map view_of (row ∷ rows)) (end_view m last)
        ≡ ok (length (row ∷ rows))
  unfolding validate_linked_chain_group validate_sorted_rows
  validate_linked_chain_group-IsLinked row rows m last s l h =
      let sorted =
        sort_by_of_IsSorted nat_order sequence_of (map view_of (row ∷ rows))
          (IsLinked-IsSorted 0 none (row ∷ rows) m last h) in
      let first : eqb row.chain_sequence 1 ≡ true = ground arith in
      let sequences : check_sequences row.chain_sequence (map view_of rows) ≡ ok tt =
        rw h.0 (check_sequences-IsLinked (0 + 1) (some row.chain_hash) rows m last h.2) in
      let hashes = check_hashes-IsLinked 0 none (row ∷ rows) m last s h in
      let top = check_head-IsLinked 0 none row rows m last h in
      let metadata = validate_all_metadata-IsSound (row ∷ rows) s l in
      rw sorted (simp (metadata, first, sequences, hashes, top, length-map))
