-- ===== src/ScopedLedger/Verify/Rows.antt =====
-- A sound row passes the checks of `_validate_chain_metadata` and `_validate_standalone_row`.
use text.Mathlib.TextPositions.{eq_refl}
use phigraph.Prelude.{
  ℕ, String, ◌≡◌, refl, ap, ◌∙◌, Bool, true, false, Option, none, some, arith, ◌==◌, eq_iff, eqb,
}
use phigraph.Python.{Runtime}
use phigraph.Python.Values.{
  Fields, get, field, end, bool, num, str, of_opt_str, eq_num, eq_opt_str, is_bool,
}
use phigraph.Python.Errors.{ok}
use phigraph.Transactions.Collections.{is_chain_linked_collection}
use phigraph.Transactions.Hashes.{chain_record_hash}
use phigraph.ScopedLedger.Rows.{StoredRow, chain_metadata, standalone_row_hash}
use phigraph.ScopedLedger.Rows.Laws.{IsSound}
use phigraph.ScopedLedger.Validate.{
  chain_of, check_payload_hash, validate_chain_metadata, validate_standalone_row,
}
use phigraph.ScopedLedger.Verify.{view_of}

eqb_refl : (n : ℕ) → eqb n n ≡ true
eqb_refl n = ground arith

eq_opt_str-of_opt_str : (o : Option String) → eq_opt_str (some (of_opt_str o)) o ≡ true
eq_opt_str-of_opt_str none = refl
eq_opt_str-of_opt_str (some s) = eq_refl s

is_bool-bool : (b : Bool) → is_bool (some (bool b)) b ≡ true
is_bool-bool true = refl
is_bool-bool false = refl

-- The four entries of the metadata, read back.
chain_metadata_entries :
    (prev : Option String) (hash : String) (n : ℕ) (linked : Bool) (payload : Fields)
    → get "_chain" payload ≡ some (chain_metadata prev hash n linked)
    → (d : Fields) × (chain_of payload ≡ ok d)
      × (eq_num (get "sequence" d) n ≡ true)
      × (eq_opt_str (get "previous_hash" d) prev ≡ true)
      × (eq_opt_str (get "hash" d) (some hash) ≡ true)
      × (is_bool (get "linked" d) linked ≡ true)
unfolding chain_metadata chain_of get
chain_metadata_entries prev hash n linked payload e = (
  field "previous_hash" (of_opt_str prev) (
      field "hash" (str hash)
        (field "alg" (str "sha256") (field "sequence" (num n) (field "linked" (bool linked) end)))),
  rw (e, chain_of),
  eqb_refl n,
  eq_opt_str-of_opt_str prev,
  eq_refl hash,
  is_bool-bool linked,
)

module _ (runtime : Runtime) (row : StoredRow) (h : IsSound runtime row) where
  check_payload_hash-IsSound : check_payload_hash runtime (view_of row) ≡ ok tt
  unfolding check_payload_hash
  check_payload_hash-IsSound = rw h.hashed (rw eq_refl)

  pub validate_chain_metadata-IsSound :
      is_chain_linked_collection row.collection ≡ true
      → validate_chain_metadata runtime (view_of row) ≡ ok tt
  unfolding validate_chain_metadata check_payload_hash
  validate_chain_metadata-IsSound linked =
      let (d, chain, sequence, previous, hash, flag) =
        chain_metadata_entries row.chain_prev row.chain_hash row.chain_sequence row.chain_linked
          row.payload h.metadata in
      let unflagged : row.chain_linked ≡ true = h.flag ∙ linked in
      let set : is_bool (get "linked" d) true ≡ true = rw unflagged at flag in
      simp (chain, sequence, previous, hash, unflagged, set, linked, check_payload_hash-IsSound)

  pub validate_standalone_row-IsSound :
      is_chain_linked_collection row.collection ≡ false
      → validate_standalone_row runtime (view_of row) ≡ ok tt
  unfolding validate_standalone_row standalone_row_hash check_payload_hash
  validate_standalone_row-IsSound unlinked =
      let (d, chain, sequence, previous, hash, flag) =
        chain_metadata_entries row.chain_prev row.chain_hash row.chain_sequence row.chain_linked
          row.payload h.metadata in
      let unflagged : row.chain_linked ≡ false = h.flag ∙ unlinked in
      let unprev = h.standalone unflagged in
      let unset : is_bool (get "linked" d) false ≡ true = rw unflagged at flag in
      let absent : eq_opt_str (get "previous_hash" d) none ≡ true = rw unprev at previous in
      let same : row.chain_hash == chain_record_hash runtime none row.collection row.payload
          ≡ true =
        (eq_iff _ _).1
          (h.chained ∙ ap (λ p. chain_record_hash runtime p row.collection row.payload) unprev) in
      simp (chain, unset, sequence, absent, hash, same, unprev, check_payload_hash-IsSound)
