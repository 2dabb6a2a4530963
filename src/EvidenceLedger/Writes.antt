-- ===== src/EvidenceLedger/Writes.antt =====
-- Each write of the evidence ledger (src/phigraph/core_v3/ledger.py) leaves chains that
-- `verify_chain` accepts.
use phigraph.Prelude.{
  ◌+◌, ◌≤◌, String, ◌≡◌, refl, Bool, true, false, Option, none, some, List, arith, contains, All,
  if◌then◌else◌,
}
use phigraph.Prelude.Sort.{Occurs, All-Occurs}
use phigraph.Prelude.Sets.{IsDistinct, IsDistinct-is_distinct, Occurs-contains}
use phigraph.Python.{Runtime}
use phigraph.Python.Values.{Fields}
use phigraph.Python.Errors.{Result, ok, err, value_error, >>=-eq-ok}
use phigraph.Python.Dict.{lookup}
use phigraph.EvidenceLedger.Chain.{
  Payload, collections, read_all, present, rows_at, or_no_rows, rows_or_none, saved, chained,
  append_row, append, is_duplicate, rechain_payload,
}
use phigraph.EvidenceLedger.Registers.{CallScope, with_scope, returned}
use phigraph.EvidenceLedger.Extensions.{
  allowed, if_allowed, where_allowed, returned_row, find_scoped, once, once_row,
  register_scoped_record, register_scoped_record_once,
}
use phigraph.EvidenceLedger.Validity.{IsChained, total, rows_or_none-read_all}
use phigraph.EvidenceLedger.Kept.{
  IsValid, IsValid-read_all, AreChained-insert, AreChained-rechain_payload, total-rechain_payload,
  total-insert, total-same, chained-IsChained,
}

pub collections-IsDistinct : IsDistinct collections
collections-IsDistinct = IsDistinct-is_distinct collections refl

pub unduplicated :
    {A : Type 0} (b : Bool) (m : Result A) {a : A}
    → (if b then err (value_error "Duplicate") else m) ≡ ok a
    → m ≡ ok a
unduplicated true m h = cc
unduplicated false m h = h

pub ok-inj : {xs ys : List Fields} → ◌≡◌ {A = Result (List Fields)} (ok xs) (ok ys) → xs ≡ ys
ok-inj h = cc

pub ok-pair_snd :
    {A : Type 0} {a b : A} {p q : Payload}
    → ◌≡◌ {A = Result (A × Payload)} (ok (a, p)) (ok (b, q))
    → p ≡ q
ok-pair_snd h = cc

pub ok-pair_rows :
    {a b : Fields} {p q : List Fields}
    → ◌≡◌ {A = Result (Fields × List Fields)} (ok (a, p)) (ok (b, q))
    → p ≡ q
ok-pair_rows h = cc

-- A row that was appended stands at the end of the chain that was read.
pub appended :
    (runtime : Runtime) (c : String) (row : Fields) (key : String) (p file : Payload)
    (stored : Fields)
    → append_row runtime c row key p ≡ ok (stored, file)
    → (rows : List Fields) × (rows_at p c ≡ ok rows)
      × (chained runtime c row p rows ≡ ok (stored, file))
unfolding append_row
appended runtime c row key p file stored e =
    let rows = >>=-eq-ok (rows_at p c) _ e in
    let tested = >>=-eq-ok (is_duplicate key row (rows.0)) _ (rows.2) in
    (rows.0, rows.1, unduplicated (tested.0) _ (tested.2))

rows_or_none-present :
    (c : String) (o : Option (List Fields)) (rows : List Fields)
    → present c o ≡ ok rows
    → or_no_rows o ≡ rows
rows_or_none-present c none rows h = cc
rows_or_none-present c (some xs) rows h = ok-inj h

pub rows_or_none-rows_at :
    (c : String) (p : Payload) (rows : List Fields)
    → rows_at p c ≡ ok rows
    → rows_or_none p c ≡ rows
rows_or_none-rows_at c p rows h = rows_or_none-present c (lookup c p) rows h

pub total-read_all :
    (file : Payload) → total collections (read_all collections file) ≡ total collections file
total-read_all file =
    total-same collections (read_all collections file) file
      (λ j. rows_or_none-read_all collections j file)

-- An accepted ledger with the row in its collection's chain: it is accepted, and has one row more.
pub IsValid-chained :
    (runtime : Runtime) (c : String) (row : Fields) (file file' : Payload) (rows : List Fields)
    (stored : Fields)
    → Occurs c collections
    → IsValid runtime file
    → rows_at (read_all collections file) c ≡ ok rows
    → chained runtime c row (read_all collections file) rows ≡ ok (stored, file')
    → IsValid runtime file' × (total collections file' ≡ total collections file + 1)
IsValid-chained runtime c row file file' rows stored o h at e =
    let p = read_all collections file in
    let same : rows_or_none p c ≡ rows = rows_or_none-rows_at c p rows at in
    let old = IsValid-read_all runtime file h in
    let chain = All-Occurs (λ j. IsChained runtime j (rows_or_none p j)) collections old o in
    let new = chained-IsChained runtime c row p file' rows stored (rw (← same) chain) e in
    let more = total-insert collections c (new.0) p collections-IsDistinct o (rw same (new.2)) in
    (
      rw (new.1) (AreChained-insert runtime collections c (new.0) p (new.3) old),
      rw (new.1) (omega (arith, more, total-read_all file)),
    )

-- What a write keeps: an accepted ledger is accepted after it, and has lost no row.
abbrev pub Keeps : Runtime → Payload → Payload → Type 0
Keeps runtime file file' =
    IsValid runtime file' × (total collections file ≤ total collections file')

pub unchanged :
    (runtime : Runtime) (file : Payload) → IsValid runtime file → Keeps runtime file file
unchanged runtime file h = (h, omega arith)

pub saved-Keeps :
    {A : Type 0} (runtime : Runtime) (file : Payload) (r : Result (A × Payload))
    → IsValid runtime file
    → ((a : A) (file' : Payload) → r ≡ ok (a, file') → Keeps runtime file file')
    → Keeps runtime file (saved file r).1
saved-Keeps runtime file (err e) h step = unchanged runtime file h
saved-Keeps runtime file (ok (a, file')) h step = step a file' refl

pub returned-file : {A : Type 0} (a : A) (m : Result Fields × Payload) → (returned a m).1 ≡ m.1
returned-file a (err e, file) = refl
returned-file a (ok row, file) = refl

returned_row-file : (row : Fields) (m : Result Fields × Payload) → (returned_row row m).1 ≡ m.1
returned_row-file a (err e, file) = refl
returned_row-file a (ok row, file) = refl

pub append-Keeps :
    (runtime : Runtime) (c : String) (row : Fields) (key : String) (file : Payload)
    → Occurs c collections
    → IsValid runtime file
    → Keeps runtime file (append runtime c row key file).1
unfolding append
append-Keeps runtime c row key file o h =
    saved-Keeps runtime file (append_row runtime c row key (read_all collections file)) h
      (λ stored file' e.
        let step = appended runtime c row key (read_all collections file) file' stored e in
        let kept = IsValid-chained runtime c row file file' (step.0) stored o h (step.1) (step.2) in
        (kept.0, omega (arith, kept.1)))

pub rechained-Keeps :
    (runtime : Runtime) (file p : Payload)
    → total collections file ≤ total collections p
    → Keeps runtime file (rechain_payload runtime collections p)
rechained-Keeps runtime file p h = (
  AreChained-rechain_payload runtime collections p,
  omega (arith, h, total-rechain_payload runtime collections collections p),
)

-- A collection that the extensions write is a collection of the ledger.
pub allowed-Occurs : (c : String) → contains allowed c ≡ true → Occurs c collections
allowed-Occurs c h =
    All-Occurs (λ j. Occurs j collections) allowed known (Occurs-contains c allowed h)
  where
    in_ledger : (j : String) → contains collections j ≡ true → Occurs j collections
    in_ledger j = Occurs-contains j collections

    known : All (λ j. Occurs j collections) allowed
    known = (
      in_ledger _ refl,
      (
        in_ledger _ refl,
        (
          in_ledger _ refl,
          (
            in_ledger _ refl,
            (in_ledger _ refl, (in_ledger _ refl, (in_ledger _ refl, (in_ledger _ refl, tt)))),
          ),
        ),
      ),
    )

if_allowed-Keeps :
    {A : Type 0} (runtime : Runtime) (b : Bool) (file : Payload) (m : Result A × Payload)
    → IsValid runtime file
    → (b ≡ true → Keeps runtime file m.1)
    → Keeps runtime file (if_allowed b file m).1
if_allowed-Keeps runtime true file m h step = step refl
if_allowed-Keeps runtime false file m h step = unchanged runtime file h

pub where_allowed-Keeps :
    {A : Type 0} (runtime : Runtime) (c : String) (file : Payload) (m : Result A × Payload)
    → IsValid runtime file
    → (Occurs c collections → Keeps runtime file m.1)
    → Keeps runtime file (where_allowed c file m).1
where_allowed-Keeps runtime c file m h step =
    if_allowed-Keeps runtime (contains allowed c) file m h
      (λ permitted. step (allowed-Occurs c permitted))

pub register_scoped_record-Keeps :
    (runtime : Runtime) (c : String) (row : Fields) (key : String) (s : CallScope) (file : Payload)
    → IsValid runtime file
    → Keeps runtime file (register_scoped_record runtime c row key s file).1
unfolding register_scoped_record
register_scoped_record-Keeps runtime c row key s file h =
    where_allowed-Keeps runtime c file _ h
      (λ o. rw returned_row-file (append-Keeps runtime c _ key file o h))

pub register_once-Keeps :
    (runtime : Runtime) (c : String) (row : Fields) (key : String) (s : CallScope) (file : Payload)
    → IsValid runtime file
    → Keeps runtime file (register_scoped_record_once runtime c row key s file).1
unfolding register_scoped_record_once once_row
register_once-Keeps runtime c row key s file h = where_allowed-Keeps runtime c file _ h (λ o.
    saved-Keeps runtime file (once_row runtime c row key s file p) h (λ a file' e.
      let rows = >>=-eq-ok (rows_at p c) _ e in
      let found = >>=-eq-ok (find_scoped key row s (rows.0)) _ (rows.2) in
      kept o a file' (rows.0) (rows.1) (found.0) (found.2)))
  where
    p : Payload
    p = read_all collections file

    kept :
        Occurs c collections
        → (a : Fields × Bool) (file' : Payload) (rows : List Fields) → rows_at p c ≡ ok rows
        → (existing : Option Fields)
        → once file existing (chained runtime c (with_scope s row) p rows) ≡ ok (a, file')
        → Keeps runtime file file'
    kept o a file' rows at (some existing) e =
        let same : file ≡ file' = ok-pair_snd e in rw (← same) (unchanged runtime file h)
    kept o a file' rows at none e =
        let new = >>=-eq-ok (chained runtime c (with_scope s row) p rows) _ e in
        let same : new.0.1 ≡ file' = ok-pair_snd (new.2) in
        let step =
          IsValid-chained runtime c (with_scope s row) file (new.0.1) rows (new.0.0) o h at
            (new.1) in
        rw (← same) (step.0, omega (arith, step.1))
