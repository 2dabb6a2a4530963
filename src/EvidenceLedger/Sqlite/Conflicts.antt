-- ===== src/EvidenceLedger/Sqlite/Conflicts.antt =====
-- When a write of the SQLite backend (src/phigraph/core_v3/backends.py) violates its primary key.
use phigraph.Prelude.{
  String, ◌≡◌, refl, sym, ap, ◌∙◌, Bool, true, false, ◌&&◌, ◌||◌, Option, none, some, List, [], ◌∷◌,
  ◌++◌, inl, inr, arith, ◌==◌, eq_iff, if◌then◌else◌, Bool-cases,
}
use phigraph.Python.{Runtime}
use phigraph.Python.Values.{Json, Fields, put}
use phigraph.Python.Errors.{Error, Result, ok, err, ◌>>=◌}
use phigraph.EvidenceLedger.Models.{Verification, verification_to_dict}
use phigraph.EvidenceLedger.Chain.{Payload}
use phigraph.EvidenceLedger.Sqlite.{
  Table, sql_row, record_id_of, reload, insert_field, has_key, insert_sql, write_rows,
  write_payload, sqlite_write_all, committed,
}

-- The code raises.
abbrev pub Raises : {A : Type 0} → Result A → Type 0
Raises m = (e : Error) × (m ≡ err e)

Raises->>= :
    {A B : Type 0} (m : Result A) (rest : A → Result B)
    → ((a : A) → m ≡ ok a → Raises (rest a))
    → Raises (m >>= rest)
Raises->>= (err e) rest h = (e, refl)
Raises->>= (ok a) rest h = h a refl

has_key-append :
    (c k : String) (xs ys : Table) → has_key c k (xs ++ ys) ≡ (has_key c k xs || has_key c k ys)
unfolding has_key
has_key-append c k [] ys = refl
has_key-append c k (x ∷ xs) ys = ground (arith, has_key-append c k xs ys)

has_key-own : (c k : String) (row : Fields) → has_key c k (sql_row c k row ∷ []) ≡ true
unfolding has_key
has_key-own c k row = ground (arith, eq_iff c c, eq_iff k k)

pub taken : {x : Error} {t : Table} → ◌≡◌ {A = Result Table} (err x) (ok t) → ⊥
taken h = cc

pub ok-table : {t t' : Table} → ◌≡◌ {A = Result Table} (ok t) (ok t') → t ≡ t'
ok-table h = cc

-- What an insert that succeeds leaves.
pub insert_sql-table :
    (c k : String) (row : Fields) (t t' : Table)
    → insert_sql c row (some k) t ≡ ok t'
    → t ++ sql_row c k row ∷ [] ≡ t'
unfolding insert_sql
insert_sql-table c k row t t' h = elim (Bool-cases (has_key c k t)) [
  | inl there ↦ absurd (taken (rw there at h))
  | inr new ↦ ok-table (rw new at h)
]

-- The keys of a table are there after an insert.
insert_sql-keep :
    (c d j : String) (row : Fields) (id : Option String) (t t' : Table)
    → insert_sql c row id t ≡ ok t'
    → has_key d j t ≡ true
    → has_key d j t' ≡ true
unfolding insert_sql
insert_sql-keep c d j row none t t' h old = absurd (taken h)
insert_sql-keep c d j row (some k) t t' h old =
    rw (← insert_sql-table c k row t t' h, has_key-append, old) refl

insert_sql-own :
    (c k : String) (row : Fields) (t t' : Table)
    → insert_sql c row (some k) t ≡ ok t'
    → has_key c k t' ≡ true
insert_sql-own c k row t t' h =
    rw (← insert_sql-table c k row t t' h, has_key-append, has_key-own) (ground arith)

-- A row whose key is taken stops the write.
write_rows-taken :
    (runtime : Runtime) (c k : String) (ys : List Fields) (y : Fields) (zs : List Fields)
    (t : Table)
    → record_id_of runtime y ≡ some k
    → has_key c k t ≡ true
    → Raises (write_rows runtime c (ys ++ y ∷ zs) t)
unfolding write_rows insert_sql
write_rows-taken runtime c k [] y zs t id there = rw (id, there) (_, refl)
write_rows-taken runtime c k (x ∷ ys) y zs t id there =
    Raises->>= (insert_sql c x (record_id_of runtime x) t) (write_rows runtime c (ys ++ y ∷ zs))
      (λ t' h. write_rows-taken runtime c k ys y zs t' id (insert_sql-keep c c k x _ t t' h there))

-- Two rows of a collection with one id stop the write.
write_rows-conflict :
    (runtime : Runtime) (c k : String) (xs : List Fields) (x : Fields) (ys : List Fields)
    (y : Fields) (zs : List Fields) (t : Table)
    → record_id_of runtime x ≡ some k
    → record_id_of runtime y ≡ some k
    → Raises (write_rows runtime c (xs ++ x ∷ ys ++ y ∷ zs) t)
unfolding write_rows
write_rows-conflict runtime c k [] x ys y zs t one two = rw one (
    Raises->>= (insert_sql c x (some k) t) (write_rows runtime c (ys ++ y ∷ zs))
      (λ t' h. write_rows-taken runtime c k ys y zs t' two (insert_sql-own c k x t t' h)))
write_rows-conflict runtime c k (w ∷ xs) x ys y zs t one two =
    Raises->>= (insert_sql c w (record_id_of runtime w) t)
      (write_rows runtime c (xs ++ x ∷ ys ++ y ∷ zs))
      (λ t' h. write_rows-conflict runtime c k xs x ys y zs t' one two)

write_payload-conflict :
    (runtime : Runtime) (ps : Payload) (c : String) (rows : List Fields) (qs : Payload) (t : Table)
    → ((t' : Table) → Raises (write_rows runtime c rows t'))
    → Raises (write_payload runtime (ps ++ (c, rows) ∷ qs) t)
unfolding write_payload
write_payload-conflict runtime [] c rows qs t fails = rw ((fails t).1) (_, refl)
write_payload-conflict runtime ((d, others) ∷ ps) c rows qs t fails =
    Raises->>= (write_rows runtime d others t) (write_payload runtime (ps ++ (c, rows) ∷ qs))
      (λ t' h. write_payload-conflict runtime ps c rows qs t' fails)

-- The row of a verification, with its link, as it is read from the table.
abbrev pub stored_verification : Json → Verification → Fields
stored_verification link v = reload (put "_chain" link (verification_to_dict v))

-- Read from the table, a verification is keyed by its claim.
record_id_of-stored :
    (runtime : Runtime) (link : Json) (v : Verification)
    → record_id_of runtime (stored_verification link v) ≡ some v.claim_id
unfolding record_id_of reload insert_field put verification_to_dict phigraph.Prelude.Order.str_le
record_id_of-stored runtime link v = refl

-- A payload in which two verifications of one claim stand as they were read from the table cannot
-- be written, whatever else it holds: the write raises, and the table stays as it is.
pub two_verifications-raise :
    (runtime : Runtime) (v w : Verification) (link link' : Json) (before after : Payload)
    (xs ys zs : List Fields) (table : Table)
    → v.claim_id ≡ w.claim_id
    → (e : Error) × (sqlite_write_all runtime
          (before
            ++ (
              "verifications",
              xs ++ stored_verification link v ∷ ys ++ stored_verification link' w ∷ zs,
            )
              ∷ after)
          table
        ≡ (err e, table))
unfolding sqlite_write_all
two_verifications-raise runtime v w link link' before after xs ys zs table same =
    let raised = write_payload-conflict runtime before "verifications" _ after [] (λ t.
      write_rows-conflict runtime "verifications" (v.claim_id) xs _ ys _ zs t
        (record_id_of-stored runtime link v)
        (record_id_of-stored runtime link' w ∙ ap some (sym same))) in
    (raised.0, ap (committed table) (raised.1))
