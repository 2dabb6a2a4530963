-- ===== src/ScopedLedger/Validate.antt =====
-- The checks of one chain in src/phigraph/core_v3/scoped_ledger.py.
use phigraph.Prelude.{
  ℕ, ◌+◌, String, Bool, true, false, not, ◌&&◌, ◌||◌, Option, none, some, List, [], ◌∷◌, ◌==◌, eqb,
  ltb, opt_eq, length,
}
use phigraph.Prelude.Order.{nat_order}
use phigraph.Prelude.Sort.{sort_by}
use phigraph.Python.{Runtime}
use phigraph.Python.Values.{obj, Fields, end, get, eq_num, eq_opt_str, is_bool}
use phigraph.Python.Errors.{
  Result, ok, err, attribute_error, ledger_integrity_error, raise_if, ◌>>=◌, ◌>>◌,
}
use phigraph.Transactions.Collections.{is_chain_linked_collection}
use phigraph.Transactions.Hashes.{canonical_scoped_payload_hash, chain_record_hash}
use phigraph.ScopedLedger.Rows.{ChainRowView, ChainHeadView, standalone_row_hash}

-- `payload.get("_chain", {})`; a value of another kind has no `get`.
unfoldable pub chain_of : Fields → Result Fields
chain_of payload = elim (get "_chain" payload) [
  | none ↦ ok end
  | some (obj d) ↦ ok d
  | some _ ↦ err (attribute_error "get")
]

abbrev pub opt_str_eq : Option String → Option String → Bool
opt_str_eq = opt_eq ◌==◌

-- `if row.payload_hash is not None: ...`
unfoldable pub check_payload_hash : Runtime → ChainRowView → Result (Unit {0})
check_payload_hash runtime row = elim row.payload_hash [
  | none ↦ ok tt
  | some h ↦
      raise_if (not (h == canonical_scoped_payload_hash runtime row.payload))
        (ledger_integrity_error "payload_hash_mismatch")
]

unfoldable pub check_linked_flags : ChainRowView → Fields → Result (Unit {0})
check_linked_flags row chain =
    raise_if
      (is_chain_linked_collection row.collection
        && (not row.chain_linked || not (is_bool (get "linked" chain) true)))
      (ledger_integrity_error "chain_linked_mismatch")

-- `_validate_chain_metadata`
unfoldable pub validate_chain_metadata : Runtime → ChainRowView → Result (Unit {0})
unfolding check_linked_flags
validate_chain_metadata runtime row = do
  chain ← chain_of row.payload
  raise_if (not (eq_num (get "sequence" chain) row.chain_sequence))
      (ledger_integrity_error "chain_sequence_mismatch")
  raise_if (not (eq_opt_str (get "previous_hash" chain) row.chain_prev))
      (ledger_integrity_error "chain_previous_hash_mismatch")
  raise_if (not (eq_opt_str (get "hash" chain) (some row.chain_hash)))
      (ledger_integrity_error "chain_hash_mismatch")
  raise_if (not (is_bool (get "linked" chain) row.chain_linked))
      (ledger_integrity_error "chain_linked_mismatch")
  check_linked_flags row chain
  check_payload_hash runtime row

-- `_invalid_orphan_head`; a natural is never below 0.
unfoldable pub invalid_orphan_head : ChainHeadView → Bool
invalid_orphan_head head =
    ltb 0 head.last_sequence
    || (eqb head.last_sequence 0 && not (opt_str_eq head.last_chain_hash none))

unfoldable pub validate_all_metadata : Runtime → List ChainRowView → Result (Unit {0})
validate_all_metadata runtime [] = ok tt
validate_all_metadata runtime (row ∷ rows) = do
  validate_chain_metadata runtime row
  validate_all_metadata runtime rows

-- Each sequence is one more than the one before it.
unfoldable pub check_sequences : ℕ → List ChainRowView → Result (Unit {0})
check_sequences before [] = ok tt
check_sequences before (row ∷ rows) = do
  raise_if (not (eqb row.chain_sequence (before + 1))) (ledger_integrity_error "chain_sequence_gap")
  check_sequences row.chain_sequence rows

-- The loop over the hashes; it returns the last one.
unfoldable pub check_hashes : Runtime → Option String → List ChainRowView → Result (Option String)
check_hashes runtime expected_prev [] = ok expected_prev
check_hashes runtime expected_prev (row ∷ rows) = do
  raise_if (not (opt_str_eq row.chain_prev expected_prev))
      (ledger_integrity_error "chain_prev mismatch")
  raise_if
      (not (row.chain_hash == chain_record_hash runtime row.chain_prev row.collection row.payload))
      (ledger_integrity_error "chain_hash mismatch")
  check_hashes runtime (some row.chain_hash) rows

-- `rows[-1]`, where there is one.
abbrev pub last_row : ChainRowView → List ChainRowView → ChainRowView
last_row row [] = row
last_row row (next ∷ rows) = last_row next rows

unfoldable pub check_head : Option ChainHeadView → ChainRowView → Result (Unit {0})
check_head none last = err (ledger_integrity_error "missing_chain_head")
check_head (some head) last = do
  raise_if (not (eqb head.last_sequence last.chain_sequence))
      (ledger_integrity_error "head_sequence_mismatch")
  raise_if (not (opt_str_eq head.last_chain_hash (some last.chain_hash)))
      (ledger_integrity_error "head_hash_mismatch")

-- The checks of a group that has rows, in the order of their sequences.
unfoldable pub validate_sorted_rows : Runtime → List ChainRowView → Option ChainHeadView → Result ℕ
validate_sorted_rows runtime [] head = ok 0
validate_sorted_rows runtime (row ∷ rows) head = do
  validate_all_metadata runtime (row ∷ rows)
  raise_if (not (eqb row.chain_sequence 1)) (ledger_integrity_error "chain_sequence_gap")
  check_sequences row.chain_sequence rows
  last ← check_hashes runtime none (row ∷ rows)
  check_head head (last_row row rows)
  ok (length (row ∷ rows))

-- `rows and head is None`
abbrev pub head_missing : List ChainRowView → Option ChainHeadView → Bool
head_missing (row ∷ rows) none = true
head_missing _ _ = false

-- `_validate_linked_chain_group`
unfoldable pub validate_linked_chain_group :
    Runtime → List ChainRowView → Option ChainHeadView → Result ℕ
validate_linked_chain_group runtime rows head = do
  raise_if (head_missing rows head) (ledger_integrity_error "missing_chain_head")
  validate_sorted_rows runtime (sort_by nat_order (λ row. row.chain_sequence) rows) head

-- `_validate_standalone_row`
unfoldable pub validate_standalone_row : Runtime → ChainRowView → Result (Unit {0})
validate_standalone_row runtime row = do
  chain ← chain_of row.payload
  raise_if (not (is_bool (get "linked" chain) false))
      (ledger_integrity_error "chain_linked_mismatch")
  raise_if (not (eq_num (get "sequence" chain) row.chain_sequence))
      (ledger_integrity_error "chain_sequence_mismatch")
  raise_if
      (not (opt_str_eq row.chain_prev none) || not (eq_opt_str (get "previous_hash" chain) none))
      (ledger_integrity_error "chain_previous_hash_mismatch")
  raise_if (not (row.chain_hash == standalone_row_hash runtime row.collection row.payload))
      (ledger_integrity_error "chain_hash mismatch")
  raise_if (not (eq_opt_str (get "hash" chain) (some row.chain_hash)))
      (ledger_integrity_error "chain_hash_mismatch")
  check_payload_hash runtime row
