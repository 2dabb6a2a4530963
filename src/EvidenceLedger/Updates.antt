-- ===== src/EvidenceLedger/Updates.antt =====
-- The writes of the evidence ledger (src/phigraph/core_v3/ledger.py) that rebuild its chains:
-- `update_scoped_record`, `record_verification` and `repair_chain`.
use phigraph.Prelude.{
  ℕ, suc, ◌+◌, String, ◌≡◌, refl, ap, ◌∙◌, Bool, true, false, Option, List, [], ◌∷◌, ◌++◌, inl, inr,
  arith, length, length-append, Bool-cases,
}
use phigraph.Prelude.Sets.{Occurs-contains}
use phigraph.Python.{Runtime}
use phigraph.Python.Values.{Json, str, Fields, get}
use phigraph.Python.Errors.{Result, ok, err, ◌>>=◌, >>=-eq-ok}
use phigraph.Python.Dict.{Dict, insert}
use phigraph.EvidenceLedger.Models.{Verification, verification_to_dict}
use phigraph.EvidenceLedger.Chain.{
  Payload, collections, read_all, rows_at, rows_or_none, item_at, same_id, valid, rechain_payload,
  repair_chain,
}
use phigraph.EvidenceLedger.Registers.{EvidenceLedger, CallScope, scope_metadata}
use phigraph.EvidenceLedger.Verifications.{
  is_same, with_verification, replace_first, verification_checked, written, verification_written,
  record_verification,
}
use phigraph.EvidenceLedger.Extensions.{
  update_rows, in_call_scope, replaced, replaced_here, after_row, update_row, update_scoped_record,
}
use phigraph.EvidenceLedger.Validity.{total, rows_or_none-insert}
use phigraph.EvidenceLedger.Kept.{
  IsValid, verify_chain-IsValid, AreChained-rechain_payload, total-rechain_payload,
  total-insert_same, total-insert,
}
use phigraph.EvidenceLedger.Writes.{
  Keeps, total-read_all, rows_or_none-rows_at, saved-Keeps, unchanged, ok-pair_snd, ok-pair_rows,
  rechained-Keeps, where_allowed-Keeps, collections-IsDistinct,
}

length-after_row :
    (x a : Fields) (n : ℕ) (rows' : List Fields) (rest : Result (Fields × List Fields))
    → ((b : Fields) (rows : List Fields) → rest ≡ ok (b, rows) → length rows ≡ n)
    → (rest >>= after_row x) ≡ ok (a, rows')
    → length rows' ≡ suc n
length-after_row x a n rows' (err e) step h = cc
length-after_row x a n rows' (ok (b, rows)) step h =
    let same : x ∷ rows ≡ rows' = ok-pair_rows h in rw (← same) (ap suc (step b rows refl))

length-replaced :
    (b : Bool) (y a : Fields) (rows rows' : List Fields)
    → replaced b y rows ≡ ok (a, rows')
    → length rows' ≡ suc (length rows)
length-replaced true y a rows rows' h =
    let same : y ∷ rows ≡ rows' = ok-pair_rows h in rw (← same) refl
length-replaced false y a rows rows' h = cc

length-replaced_here :
    (s : CallScope) (x row a : Fields) (rows rows' : List Fields)
    → replaced_here s x row rows ≡ ok (a, rows')
    → length rows' ≡ suc (length rows)
length-replaced_here s x row a rows rows' h =
    let here = >>=-eq-ok (in_call_scope s (get "scope" x)) _ h in
    length-replaced (here.0) _ a rows rows' (here.2)

length-update_rows :
    (key : String) (row : Fields) (s : CallScope) (rows rows' : List Fields) (a : Fields)
    → update_rows key row s rows ≡ ok (a, rows')
    → length rows' ≡ length rows
unfolding update_rows
length-update_rows key row s [] rows' a e = let never = >>=-eq-ok (item_at row key) _ e in cc
length-update_rows key row s (x ∷ rows) rows' a e =
    let other = >>=-eq-ok (item_at x key) _ e in
    let id = >>=-eq-ok (item_at row key) _ (other.2) in
    elim (Bool-cases (same_id (other.0) (id.0))) [
      | inl same ↦ length-replaced_here s x row a rows rows' (rw same at id.2)
      | inr differ ↦
          length-after_row x a (length rows) rows' (update_rows key row s rows)
            (λ b rs k. length-update_rows key row s rows rs b k) (rw differ at id.2)
    ]

pub update_record-Keeps :
    (runtime : Runtime) (c : String) (row : Fields) (key : String) (s : CallScope) (file : Payload)
    → IsValid runtime file
    → Keeps runtime file (update_scoped_record runtime c row key s file).1
unfolding update_scoped_record update_row
update_record-Keeps runtime c row key s file h = where_allowed-Keeps runtime c file _ h (λ o.
    saved-Keeps runtime file (update_row runtime c row key s p) h (λ a file' e.
      let rows = >>=-eq-ok (rows_at p c) _ e in
      let done = >>=-eq-ok (update_rows key row s (rows.0)) _ (rows.2) in
      let same : rechain_payload runtime collections (insert c (done.0.1) p) ≡ file' =
        ok-pair_snd (done.2) in
      let as_long = length-update_rows key row s (rows.0) (done.0.1) (done.0.0) (done.1) in
      let count =
        total-insert_same collections c (done.0.1) p
          (rw (rows_or_none-rows_at c p (rows.0) (rows.1)) as_long) in
      rw (← same) (
        rechained-Keeps runtime file (insert c (done.0.1) p)
          (omega (arith, count, total-read_all file)))))
  where
    p : Payload
    p = read_all collections file

length-replace_first :
    (key : String) (id : Json) (new : Fields) (rows : List Fields)
    → length (replace_first key id new rows) ≡ length rows
unfolding replace_first
length-replace_first key id new [] = refl
length-replace_first key id new (item ∷ rows) = elim (Bool-cases (is_same (item_at item key) id)) [
  | inl same ↦ rw same refl
  | inr other ↦ rw other (ap suc (length-replace_first key id new rows))
]

with_verification-total :
    (v : Verification) (claim : Fields) (p : Payload)
    → total collections (with_verification v claim p) ≡ total collections p + 1
with_verification-total v claim p =
    total-insert_same collections "claims"
      (replace_first "claim_id" (str v.claim_id) claim (rows_or_none p "claims")) q
      (rw (rows_or_none-insert, length-replace_first) refl)
    ∙ total-insert collections "verifications" more p collections-IsDistinct
        (Occurs-contains "verifications" collections refl)
        (length-append (rows_or_none p "verifications") (verification_to_dict v ∷ []))
  where
    more : List Fields
    more = rows_or_none p "verifications" ++ verification_to_dict v ∷ []

    q : Payload
    q = insert "verifications" more p

written-Keeps :
    {A : Type 0} (runtime : Runtime) (file : Payload) (a : A) (r : Result Payload)
    → IsValid runtime file
    → ((file' : Payload) → r ≡ ok file' → Keeps runtime file file')
    → Keeps runtime file (written a file r).1
written-Keeps runtime file a (err e) h step = unchanged runtime file h
written-Keeps runtime file a (ok file') h step = step file' refl

ok-payload : {p q : Payload} → ◌≡◌ {A = Result Payload} (ok p) (ok q) → p ≡ q
ok-payload h = cc

pub record_verification-Keeps :
    (ledger : EvidenceLedger) (v : Verification) (s : CallScope) (file : Payload)
    → IsValid (ledger.runtime) file
    → Keeps (ledger.runtime) file (record_verification ledger v s file).1
unfolding record_verification verification_written
record_verification-Keeps ledger v s file h =
    written-Keeps (ledger.runtime) file _ (verification_written (ledger.runtime) stored p) h
      (λ file' e.
        let checked = >>=-eq-ok (verification_checked stored p) _ e in
        let same : rechain_payload (ledger.runtime) collections
              (with_verification stored (checked.0) p)
            ≡ file' =
          ok-payload (checked.2) in
        rw (← same) (
          rechained-Keeps (ledger.runtime) file _
            (omega (arith, with_verification-total stored (checked.0) p, total-read_all file))))
  where
    p : Payload
    p = read_all collections file

    stored : Verification
    stored = record v { metadata = scope_metadata (v.metadata) s }

-- `repair_chain` makes any ledger valid, and its report counts every row of the ledger before it.
pub repair_chain-valid :
    (runtime : Runtime) (file : Payload)
    → (heads : Dict (Option String)) × ((repair_chain runtime file).0
        ≡ ok (valid (total collections file) heads))
unfolding repair_chain
repair_chain-valid runtime file =
    let p = read_all collections file in
    let report =
      verify_chain-IsValid runtime _ (AreChained-rechain_payload runtime collections p) in
    let count : total collections (rechain_payload runtime collections p) ≡ total collections file =
      total-rechain_payload runtime collections collections p ∙ total-read_all file in
    (report.0, report.1 ∙ ap (λ n. ok (valid n (report.0))) count)
