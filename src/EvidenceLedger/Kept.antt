-- ===== src/EvidenceLedger/Kept.antt =====
-- What a write of src/phigraph/core_v3/ledger.py does to the report of `verify_chain`: an appended
-- row extends its chain, and rebuilt chains are accepted.
use phigraph.Prelude.{
  ℕ, suc, ◌+◌, String, ◌≡◌, ◌≢◌, refl, sym, ap, ◌∙◌, false, Option, none, some, List, [], ◌∷◌, ◌++◌,
  inl, inr, arith, ◌==◌, eq_iff, length, length-append, All-imp, if◌then◌else◌, Bool-cases,
}
use phigraph.Prelude.Sort.{Occurs}
use phigraph.Prelude.Sets.{IsDistinct}
use phigraph.Python.{Runtime}
use phigraph.Python.Values.{Fields, of_opt_str}
use phigraph.Python.Errors.{Result, ok}
use phigraph.Python.Dict.{Dict, insert}
use phigraph.EvidenceLedger.Chain.{
  Payload, collections, read_all, rows_or_none, chain_hash, rebuild_rows, rechain_payload,
  last_hash, chained, linked, valid, verify_chain,
}
use phigraph.EvidenceLedger.Walks.{walk-append, walk-linked, walk-rebuild_rows, last_hash-walk}
use phigraph.EvidenceLedger.Validity.{
  rows_or_none-insert, rows_or_none-insert_self, rows_or_none-read_all, HasAll-read_all, IsChained,
  IsChained-walk, AreChained, total, verify_collections-AreChained, AreChained-verify_collections,
}

-- Every chain of the ledger is accepted.
abbrev pub IsValid : Runtime → Payload → Type 0
IsValid runtime file = AreChained runtime collections file

AreChained-same :
    (runtime : Runtime) (cs : List String) (p q : Payload)
    → ((c : String) → rows_or_none p c ≡ rows_or_none q c)
    → AreChained runtime cs p
    → AreChained runtime cs q
AreChained-same runtime cs p q same h =
    All-imp {Q = λ c. IsChained runtime c (rows_or_none q c)} (λ c old. rw (← same c) old) cs h

pub total-same :
    (cs : List String) (p q : Payload)
    → ((c : String) → rows_or_none p c ≡ rows_or_none q c)
    → total cs p ≡ total cs q
unfolding total
total-same [] p q same = refl
total-same (c ∷ cs) p q same = rw (same c, total-same cs p q same) refl

pub IsValid-read_all :
    (runtime : Runtime) (file : Payload)
    → IsValid runtime file
    → IsValid runtime (read_all collections file)
IsValid-read_all runtime file h =
    AreChained-same runtime collections file (read_all collections file)
      (λ c. sym (rows_or_none-read_all collections c file)) h

-- `verify_chain` reports a ledger as valid exactly when its chains are accepted, with the number of rows.
pub verify_chain-IsValid :
    (runtime : Runtime) (file : Payload)
    → IsValid runtime file
    → (heads : Dict (Option String)) × (verify_chain runtime file
        ≡ ok (valid (total collections file) heads))
unfolding verify_chain
verify_chain-IsValid runtime file h =
    let report =
      verify_collections-AreChained runtime collections 0 [] (read_all collections file)
        (HasAll-read_all collections file) (IsValid-read_all runtime file h) in
    let count : 0 + total collections (read_all collections file) ≡ total collections file = omega (
      arith,
      total-same collections (read_all collections file) file
          (λ c. rows_or_none-read_all collections c file),
    ) in
    (report.0, report.1 ∙ ap (λ n. ok (valid n (report.0))) count)

pub IsValid-verify_chain :
    (runtime : Runtime) (file : Payload) (n : ℕ) (heads : Dict (Option String))
    → verify_chain runtime file ≡ ok (valid n heads)
    → IsValid runtime file
unfolding verify_chain
IsValid-verify_chain runtime file n heads h =
    AreChained-same runtime collections (read_all collections file) file
      (λ c. rows_or_none-read_all collections c file)
      (AreChained-verify_collections runtime collections 0 n [] heads (read_all collections file)
        (HasAll-read_all collections file) h)

-- A chain in the place of another.
IsChained-if :
    (runtime : Runtime) (c j : String) (rows old : List Fields)
    → IsChained runtime c rows
    → IsChained runtime j old
    → IsChained runtime j (if c == j then rows else old)
IsChained-if runtime c j rows old new h = elim (Bool-cases (c == j)) [
  | inl same ↦ rw (same, ← (eq_iff c j).0 same) new
  | inr other ↦ rw other h
]

pub AreChained-insert :
    (runtime : Runtime) (cs : List String) (c : String) (rows : List Fields) (p : Payload)
    → IsChained runtime c rows
    → AreChained runtime cs p
    → AreChained runtime cs (insert c rows p)
AreChained-insert runtime cs c rows p new h =
    All-imp {Q = λ j. IsChained runtime j (rows_or_none (insert c rows p) j)}
      (λ j old. rw rows_or_none-insert (IsChained-if runtime c j rows (rows_or_none p j) new old))
      cs h

IsChained-rebuild_rows :
    (runtime : Runtime) (c : String) (rows : List Fields)
    → IsChained runtime c (rebuild_rows runtime c none rows)
IsChained-rebuild_rows runtime c rows =
    let walked = walk-rebuild_rows runtime c 0 none rows in
    IsChained-walk runtime c 0 _ (walked.0) _ (walked.1)

-- Rebuilding keeps the chains that are accepted already.
AreChained-rechain_payload_keep :
    (runtime : Runtime) (cs ds : List String) (p : Payload)
    → AreChained runtime ds p
    → AreChained runtime ds (rechain_payload runtime cs p)
unfolding rechain_payload
AreChained-rechain_payload_keep runtime [] ds p h = h
AreChained-rechain_payload_keep runtime (c ∷ cs) ds p h =
    AreChained-rechain_payload_keep runtime cs ds _
      (AreChained-insert runtime ds c _ p (IsChained-rebuild_rows runtime c (rows_or_none p c)) h)

pub AreChained-rechain_payload :
    (runtime : Runtime) (cs : List String) (p : Payload)
    → AreChained runtime cs (rechain_payload runtime cs p)
unfolding rechain_payload
AreChained-rechain_payload runtime [] p = tt
AreChained-rechain_payload runtime (c ∷ cs) p =
    let rebuilt = rebuild_rows runtime c none (rows_or_none p c) in
    (
      (AreChained-rechain_payload_keep runtime cs (c ∷ []) (insert c rebuilt p)
          (rw rows_or_none-insert_self (IsChained-rebuild_rows runtime c _), tt)).0,
      AreChained-rechain_payload runtime cs _,
    )

length-rebuild_rows :
    (runtime : Runtime) (c : String) (previous : Option String) (rows : List Fields)
    → length (rebuild_rows runtime c previous rows) ≡ length rows
unfolding rebuild_rows
length-rebuild_rows runtime c previous [] = refl
length-rebuild_rows runtime c previous (row ∷ rows) =
    ap suc
      (length-rebuild_rows runtime c (some (chain_hash runtime (of_opt_str previous) c row)) rows)

-- Rows in the place of as many others.
length-rows_or_none-insert :
    (c j : String) (rows : List Fields) (p : Payload)
    → length rows ≡ length (rows_or_none p c)
    → length (rows_or_none (insert c rows p) j) ≡ length (rows_or_none p j)
length-rows_or_none-insert c j rows p h = elim (Bool-cases (c == j)) [
  | inl same ↦ rw (rows_or_none-insert, same, ← (eq_iff c j).0 same) h
  | inr other ↦ rw (rows_or_none-insert, other) refl
]

pub total-insert_same :
    (cs : List String) (c : String) (rows : List Fields) (p : Payload)
    → length rows ≡ length (rows_or_none p c)
    → total cs (insert c rows p) ≡ total cs p
unfolding total
total-insert_same [] c rows p h = refl
total-insert_same (j ∷ cs) c rows p h =
    rw (length-rows_or_none-insert c j rows p h, total-insert_same cs c rows p h) refl

pub total-rechain_payload :
    (runtime : Runtime) (cs ds : List String) (p : Payload)
    → total ds (rechain_payload runtime cs p) ≡ total ds p
unfolding rechain_payload
total-rechain_payload runtime [] ds p = refl
total-rechain_payload runtime (c ∷ cs) ds p =
    total-rechain_payload runtime cs ds _
    ∙ total-insert_same ds c _ p (length-rebuild_rows runtime c none (rows_or_none p c))

-- Another collection's rows do not count.
total-insert_apart :
    (cs : List String) (c : String) (rows : List Fields) (p : Payload)
    → (¬ Occurs c cs)
    → total cs (insert c rows p) ≡ total cs p
unfolding total
total-insert_apart [] c rows p h = refl
total-insert_apart (j ∷ cs) c rows p h =
    let other : (c == j) ≡ false = ground (arith, eq_iff c j, λ (e : c ≡ j). h (inl e)) in
    rw (rows_or_none-insert, other, total-insert_apart cs c rows p (λ o. h (inr o))) refl

pub total-insert :
    (cs : List String) (c : String) (rows : List Fields) (p : Payload)
    → IsDistinct cs
    → Occurs c cs
    → length rows ≡ length (rows_or_none p c) + 1
    → total cs (insert c rows p) ≡ total cs p + 1
unfolding total
total-insert [] c rows p d o h = elim o [ ]
total-insert (j ∷ cs) c rows p d (inl e) h =
    let here : rows_or_none (insert c rows p) j ≡ rows =
      rw (← e) (rows_or_none-insert_self c rows p) in
    let apart = total-insert_apart cs c rows p (λ o. d.0 (rw (← e) o)) in
    rw (here, apart, ← e) (omega (arith, h))
total-insert (j ∷ cs) c rows p d (inr o) h =
    let differ : c ≢ j = λ e. d.0 (rw (← e) o) in
    let other : (c == j) ≡ false = ground (arith, eq_iff c j) in
    rw (rows_or_none-insert, other) (omega (arith, total-insert cs c rows p (d.1) o h))

ok-inj_file :
    {a b : Fields} {p q : Payload}
    → ◌≡◌ {A = Result (Fields × Payload)} (ok (a, p)) (ok (b, q))
    → p ≡ q
ok-inj_file h = cc

-- A row that is linked to the head of its chain extends the chain.
pub chained-IsChained :
    (runtime : Runtime) (c : String) (row : Fields) (p file : Payload) (rows : List Fields)
    (stored : Fields)
    → IsChained runtime c rows
    → chained runtime c row p rows ≡ ok (stored, file)
    → (rows' : List Fields) × (file ≡ insert c rows' p)
      × (length rows' ≡ length rows + 1)
      × IsChained runtime c rows'
unfolding chained
chained-IsChained runtime c row p file rows stored h e =
    let new = linked runtime (of_opt_str (h.last)) c row in
    let before : last_hash rows ≡ ok (of_opt_str (h.last)) =
      last_hash-walk runtime c 0 _ (h.last) rows (h.walked) in
    let same : chained runtime c row p rows ≡ ok (new, insert c (rows ++ new ∷ []) p) =
      rw before refl in
    (
      rows ++ new ∷ [],
      ok-inj_file (sym e ∙ same),
      omega (arith, length-append rows (new ∷ [])),
      IsChained-walk runtime c 0 _ _ _ (
          walk-append runtime c 0 _ none (h.last) rows (new ∷ []) (h.walked)
          ∙ walk-linked runtime c _ (h.last) row),
    )
