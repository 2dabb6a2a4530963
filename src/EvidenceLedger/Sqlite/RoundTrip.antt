-- ===== src/EvidenceLedger/Sqlite/RoundTrip.antt =====
-- What the SQLite backend (src/phigraph/core_v3/backends.py) writes it reads again.
use phigraph.Prelude.{
  String, ◌≡◌, refl, sym, ap, ◌∙◌, Option, none, some, List, [], ◌∷◌, ◌++◌, map, inl, inr, arith,
  ◌==◌, eq_iff, if◌then◌else◌, Bool-cases,
}
use phigraph.Python.{Runtime}
use phigraph.Python.Values.{Fields}
use phigraph.Python.Errors.{Error, Result, ok, err, >>=-eq-ok}
use phigraph.Python.Dict.{lookup}
use phigraph.EvidenceLedger.Chain.{Payload, rows_or_none}
use phigraph.EvidenceLedger.Validity.{rows_or_none-insert}
use phigraph.EvidenceLedger.Sqlite.{
  Table, record_id_of, reload, insert_sql, write_rows, write_payload, sqlite_write_all, committed,
  add_row, read_rows, no_rows, sqlite_read_all,
}
use phigraph.EvidenceLedger.Sqlite.Conflicts.{taken, ok-table, insert_sql-table}

-- The rows of one collection in the table.
unfoldable pub rows_in : String → Table → List Fields
rows_in c [] = []
rows_in c (row ∷ table) =
    let rest = rows_in c table in if row.collection == c then row.payload ∷ rest else rest

append_assoc : (xs ys zs : List Fields) → (xs ++ ys) ++ zs ≡ xs ++ (ys ++ zs)
append_assoc [] ys zs = refl
append_assoc (x ∷ xs) ys zs = ap (◌∷◌ x) (append_assoc xs ys zs)

append_cons :
    (xs : List Fields) (x : Fields) (zs : List Fields) → (xs ++ x ∷ []) ++ zs ≡ xs ++ x ∷ zs
append_cons [] x zs = refl
append_cons (y ∷ xs) x zs = ap (◌∷◌ y) (append_cons xs x zs)

append_nil : (xs : List Fields) → xs ++ [] ≡ xs
append_nil [] = refl
append_nil (x ∷ xs) = ap (◌∷◌ x) (append_nil xs)

rows_in-append : (c : String) (xs ys : Table) → rows_in c (xs ++ ys) ≡ rows_in c xs ++ rows_in c ys
unfolding rows_in
rows_in-append c [] ys = refl
rows_in-append c (x ∷ xs) ys = elim (Bool-cases (x.collection == c)) [
  | inl same ↦ rw (same, rows_in-append c xs ys) refl
  | inr other ↦ rw (other, rows_in-append c xs ys) refl
]

-- Reading puts each row behind those of its collection.
read_rows-rows_in :
    (c : String) (t : Table) (r : Payload)
    → rows_or_none (read_rows t r) c ≡ rows_or_none r c ++ rows_in c t
unfolding read_rows rows_in
read_rows-rows_in c [] r = sym (append_nil (rows_or_none r c))
read_rows-rows_in c (row ∷ t) r = elim (Bool-cases (row.collection == c)) [
  | inl same ↦
      read_rows-rows_in c t (add_row row r)
      ∙ rw (rows_or_none-insert, same, (eq_iff (row.collection) c).0 same)
          (append_cons (rows_or_none r c) (row.payload) (rows_in c t))
  | inr other ↦ read_rows-rows_in c t (add_row row r) ∙ rw (rows_or_none-insert, other) refl
]

-- The rows that a collection's writing adds to each collection.
abbrev added : String → String → List Fields → List Fields
added c d rows = if c == d then map reload rows else []

rows_in-insert_sql :
    (c d : String) (row : Fields) (id : Option String) (t t' : Table)
    → insert_sql c row id t ≡ ok t'
    → rows_in d t' ≡ rows_in d t ++ added c d (row ∷ [])
unfolding rows_in insert_sql
rows_in-insert_sql c d row none t t' h = absurd (taken h)
rows_in-insert_sql c d row (some k) t t' h =
    rw (← insert_sql-table c k row t t' h, rows_in-append) refl

added-nil : (c d : String) → added c d [] ≡ []
added-nil c d = ground arith

added-cons :
    (c d : String) (row : Fields) (rows : List Fields)
    → added c d (row ∷ []) ++ added c d rows ≡ added c d (row ∷ rows)
added-cons c d row rows = elim (Bool-cases (c == d)) [
  | inl same ↦ rw same refl
  | inr other ↦ rw other refl
]

rows_in-write_rows :
    (runtime : Runtime) (c d : String) (rows : List Fields) (t t' : Table)
    → write_rows runtime c rows t ≡ ok t'
    → rows_in d t' ≡ rows_in d t ++ added c d rows
unfolding write_rows
rows_in-write_rows runtime c d [] t t' h =
    rw (← ok-table h)
      (sym (ap (λ more. rows_in d t ++ more) (added-nil c d) ∙ append_nil (rows_in d t)))
rows_in-write_rows runtime c d (row ∷ rows) t t' h =
    let one =
      >>=-eq-ok (insert_sql c row (record_id_of runtime row) t) (write_rows runtime c rows) h in
    rows_in-write_rows runtime c d rows (one.0) t' (one.2)
    ∙ rw (rows_in-insert_sql c d row (record_id_of runtime row) t (one.0) (one.1)) (
        append_assoc (rows_in d t) (added c d (row ∷ [])) (added c d rows)
        ∙ ap (λ more. rows_in d t ++ more) (added-cons c d row rows))

-- No collection stands twice in the payload.
abbrev pub HasDistinctKeys : Payload → Type 0
HasDistinctKeys [] = Unit
HasDistinctKeys ((c, rows) ∷ p) = (lookup c p ≡ none) × HasDistinctKeys p

added-head :
    (c d : String) (rows : List Fields) (p : Payload)
    → lookup c p ≡ none
    → added c d rows ++ map reload (rows_or_none p d) ≡ map reload (rows_or_none ((c, rows) ∷ p) d)
unfolding lookup
added-head c d rows p absent = elim (Bool-cases (c == d)) [
  | inr other ↦ rw other refl
  | inl same ↦ rw (same, ← (eq_iff c d).0 same, absent) (append_nil (map reload rows))
]

committed-ok : (t : Table) (r : Result Table) {t' : Table} → committed t r ≡ (ok tt, t') → r ≡ ok t'
committed-ok t (err e) h = absurd (refused (ap (λ m. m.0) h))
  where
    refused : {x : Error} → ◌≡◌ {A = Result (Unit {0})} (err x) (ok tt) → ⊥
    refused k = cc
committed-ok t (ok t') h = cc

rows_in-write_payload :
    (runtime : Runtime) (d : String) (p : Payload) (t t' : Table)
    → HasDistinctKeys p
    → write_payload runtime p t ≡ ok t'
    → rows_in d t' ≡ rows_in d t ++ map reload (rows_or_none p d)
unfolding write_payload lookup
rows_in-write_payload runtime d [] t t' apart h = rw (← ok-table h) (sym (append_nil (rows_in d t)))
rows_in-write_payload runtime d ((c, rows) ∷ p) t t' apart h =
    let one = >>=-eq-ok (write_rows runtime c rows t) (write_payload runtime p) h in
    rows_in-write_payload runtime d p (one.0) t' (apart.1) (one.2)
    ∙ rw (rows_in-write_rows runtime c d rows t (one.0) (one.1)) (
        append_assoc (rows_in d t) (added c d rows) (map reload (rows_or_none p d))
        ∙ ap (λ more. rows_in d t ++ more) (added-head c d rows p (apart.0)))

rows_or_none-no_rows : (cs : List String) (d : String) → rows_or_none (no_rows cs) d ≡ []
unfolding lookup
rows_or_none-no_rows [] d = refl
rows_or_none-no_rows (c ∷ cs) d = elim (Bool-cases (c == d)) [
  | inl same ↦ rw same refl
  | inr other ↦ rw other (rows_or_none-no_rows cs d)
]

-- After a write that returns, a read has the same rows in each collection, with the keys of each
-- row in order. The payload has no collection twice.
pub sqlite_read_all-write_all :
    (runtime : Runtime) (cs : List String) (p : Payload) (t t' : Table) (collection : String)
    → HasDistinctKeys p
    → sqlite_write_all runtime p t ≡ (ok tt, t')
    → rows_or_none (sqlite_read_all cs t') collection ≡ map reload (rows_or_none p collection)
unfolding sqlite_write_all sqlite_read_all rows_in
sqlite_read_all-write_all runtime cs p t t' d apart h =
    let written = committed-ok t (write_payload runtime p []) h in
    read_rows-rows_in d t' (no_rows cs)
    ∙ rw rows_or_none-no_rows (rows_in-write_payload runtime d p [] t' apart written)
