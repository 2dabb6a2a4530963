-- ===== src/ScopedLedger/Invariant/RoundTrip.antt =====
-- Writing a well-formed store to its file and reading it back gives the same store.
use mathlib.Core.List.{append_assoc, append-nil}
use phigraph.Prelude.{
  String, ◌≡◌, refl, sym, ap, ◌∙◌, false, none, List, [], ◌∷◌, ◌++◌, map, arith, ◌==◌, eq_iff, All,
}
use phigraph.Python.{Runtime}
use phigraph.Python.Dict.{Dict, lookup, insert, values, insert_new}
use phigraph.ScopedLedger.Rows.{StoredRow, Head}
use phigraph.ScopedLedger.Store.{
  StoreState, row_of_item, item_of_row, row_key, key_of_head, rebuild, read_json_state,
  write_json_state,
}
use phigraph.ScopedLedger.Invariant.{HasUniqueKeys, IsRowEntry, IsHeadEntry, IsWellFormed}

module _ {V : Type 0} (key : V → String) where
  abbrev IsKeyed : Dict V → Type 0
  IsKeyed [] = Unit
  IsKeyed ((k, v) ∷ d) = (k ≡ key v) × IsKeyed d

  -- No key of the second dict is in the first.
  abbrev AreApart : Dict V → Dict V → Type 0
  AreApart built [] = Unit
  AreApart built ((k, v) ∷ d) = (lookup k built ≡ none) × AreApart built d

  lookup-append_one :
      (j k : String) (v : V) (built : Dict V)
      → lookup j built ≡ none
      → (k == j) ≡ false
      → lookup j (built ++ (k, v) ∷ []) ≡ none
  unfolding lookup
  lookup-append_one j k v [] h ne = rw ne
  lookup-append_one j k v ((i, w) ∷ built) h ne = ground (arith, lookup-append_one j k v built)

  AreApart-append :
      (k : String) (v : V) (built d : Dict V)
      → lookup k d ≡ none
      → AreApart built d
      → AreApart (built ++ (k, v) ∷ []) d
  unfolding lookup
  AreApart-append k v built [] h a = tt
  AreApart-append k v built ((j, w) ∷ d) h a = (
    lookup-append_one j k v built a.0 (ground (arith, eq_iff j k, eq_iff k j)),
    AreApart-append k v built d (ground arith) a.1,
  )

  rebuild-values :
      (built d : Dict V)
      → IsKeyed d
      → HasUniqueKeys d
      → AreApart built d
      → rebuild key built (values d) ≡ built ++ d
  unfolding rebuild
  rebuild-values built [] h u a = sym (append-nil built)
  rebuild-values built ((k, v) ∷ d) h u a =
      let stored : insert (key v) v built ≡ built ++ (k, v) ∷ [] =
        ap (λ j. insert j v built) (sym h.0) ∙ insert_new k v built a.0 in
      ap (λ b. rebuild key b (values d)) stored
      ∙ (rebuild-values (built ++ (k, v) ∷ []) d h.1 u.1 (AreApart-append k v built d u.0 a.1)
          ∙ append_assoc built ((k, v) ∷ []) d)

AreApart-nil : {V : Type 0} (key : V → String) (d : Dict V) → AreApart key [] d
unfolding lookup
AreApart-nil key [] = tt
AreApart-nil key ((k, v) ∷ d) = (refl, AreApart-nil key d)

map-row_of_item : (rows : List StoredRow) → map row_of_item (map item_of_row rows) ≡ rows
unfolding row_of_item item_of_row
map-row_of_item [] = refl
map-row_of_item (row ∷ rows) = ap (◌∷◌ row) (map-row_of_item rows)

row_entries-IsKeyed :
    (runtime : Runtime) (d : Dict StoredRow) → All (IsRowEntry runtime) d → IsKeyed row_key d
row_entries-IsKeyed runtime [] h = tt
row_entries-IsKeyed runtime (e ∷ d) h = (h.0.keyed, row_entries-IsKeyed runtime d h.1)

head_entries-IsKeyed : (d : Dict Head) → All IsHeadEntry d → IsKeyed key_of_head d
head_entries-IsKeyed [] h = tt
head_entries-IsKeyed (e ∷ d) h = (h.0.keyed, head_entries-IsKeyed d h.1)

-- A well-formed store is read back from the file that it was written to as it was.
pub read_json_state-write_json_state :
    (runtime : Runtime) (state : StoreState)
    → IsWellFormed runtime state
    → read_json_state (write_json_state state) ≡ state
unfolding read_json_state write_json_state
read_json_state-write_json_state runtime state w =
    let rows =
      rebuild-values row_key [] state.records (row_entries-IsKeyed runtime state.records w.rows)
        w.unique_rows (AreApart-nil row_key state.records) in
    let heads =
      rebuild-values key_of_head [] state.heads (head_entries-IsKeyed state.heads w.heads)
        w.unique_heads (AreApart-nil key_of_head state.heads) in
    λ i. record {
      records = (ap (rebuild row_key []) (map-row_of_item (values state.records)) ∙ rows) i;
      heads = heads i;
    }
