-- ===== src/EvidenceLedger/Validity.antt =====
-- When `verify_chain` of src/phigraph/core_v3/ledger.py reports a ledger as valid: every
-- collection's chain is accepted, and the rows are counted.
use phigraph.Prelude.{
  ℕ, ◌+◌, String, ◌≡◌, refl, sym, ap, ◌∙◌, Bool, true, false, Option, none, some, List, [], ◌∷◌,
  inl, inr, Option-cases, arith, ◌==◌, eq_iff, length, All, if◌then◌else◌,
}
use phigraph.Python.{Runtime}
use phigraph.Python.Values.{Fields}
use phigraph.Python.Errors.{Result, ok, ◌>>=◌, >>=-eq-ok}
use phigraph.Python.Dict.{Dict, lookup, insert, lookup-insert, lookup-insert_self}
use phigraph.EvidenceLedger.Chain.{
  Payload, set_default, read_all, rows_at, or_no_rows, rows_or_none, ChainReport, valid, invalid,
  Walk, head, broken, walk, verify_collections,
}
use phigraph.EvidenceLedger.Walks.{walk-shift}

or_no_rows-if :
    (b : Bool) (rows : List Fields) (o : Option (List Fields))
    → or_no_rows (if b then some rows else o) ≡ (if b then rows else or_no_rows o)
or_no_rows-if true rows o = refl
or_no_rows-if false rows o = refl

pub rows_or_none-insert :
    (c j : String) (rows : List Fields) (p : Payload)
    → rows_or_none (insert c rows p) j ≡ (if c == j then rows else rows_or_none p j)
rows_or_none-insert c j rows p =
    ap or_no_rows (lookup-insert c j rows p) ∙ or_no_rows-if (c == j) rows (lookup j p)

pub rows_or_none-insert_self :
    (c : String) (rows : List Fields) (p : Payload) → rows_or_none (insert c rows p) c ≡ rows
rows_or_none-insert_self c rows p = rw lookup-insert_self refl

lookup-set_default_keep :
    (c j : String) (p : Payload) (rows : List Fields)
    → lookup j p ≡ some rows
    → lookup j (set_default (lookup c p) c p) ≡ some rows
lookup-set_default_keep c j p rows h = elim (Option-cases (lookup c p)) [
  | inr (_, kept) ↦ rw kept h
  | inl absent ↦ rw (absent, lookup-insert) (ground (arith, eq_iff c j, absent, h))
]

lookup-set_default_self :
    (c : String) (p : Payload)
    → (rows : List Fields) × (lookup c (set_default (lookup c p) c p) ≡ some rows)
lookup-set_default_self c p = elim (Option-cases (lookup c p)) [
  | inr (rows, kept) ↦ (rows, rw kept kept)
  | inl absent ↦ ([], rw absent (lookup-insert_self c [] p))
]

rows_or_none-set_default :
    (c j : String) (p : Payload) → rows_or_none (set_default (lookup c p) c p) j ≡ rows_or_none p j
rows_or_none-set_default c j p = elim (Option-cases (lookup c p)) [
  | inr (_, kept) ↦ rw kept refl
  | inl absent ↦ rw (absent, rows_or_none-insert) (ground (arith, eq_iff c j, absent))
]

pub rows_or_none-read_all :
    (cs : List String) (j : String) (p : Payload)
    → rows_or_none (read_all cs p) j ≡ rows_or_none p j
unfolding read_all
rows_or_none-read_all [] j p = refl
rows_or_none-read_all (c ∷ cs) j p = rows_or_none-read_all cs j _ ∙ rows_or_none-set_default c j p

lookup-read_all_keep :
    (cs : List String) (j : String) (p : Payload) (rows : List Fields)
    → lookup j p ≡ some rows
    → lookup j (read_all cs p) ≡ some rows
unfolding read_all
lookup-read_all_keep [] j p rows h = h
lookup-read_all_keep (c ∷ cs) j p rows h =
    lookup-read_all_keep cs j _ rows (lookup-set_default_keep c j p rows h)

-- Every collection of the list is in the file.
abbrev pub HasAll : List String → Payload → Type 0
HasAll cs p = All (λ c. rows_at p c ≡ ok (rows_or_none p c)) cs

rows_at-lookup :
    (c : String) (p : Payload) (rows : List Fields)
    → lookup c p ≡ some rows
    → rows_at p c ≡ ok (rows_or_none p c)
rows_at-lookup c p rows h = rw h refl

pub HasAll-read_all : (cs : List String) (p : Payload) → HasAll cs (read_all cs p)
unfolding read_all
HasAll-read_all [] p = tt
HasAll-read_all (c ∷ cs) p =
    let first = lookup-set_default_self c p in
    (
      rows_at-lookup c _ (first.0) (lookup-read_all_keep cs c _ (first.0) (first.1)),
      HasAll-read_all cs _,
    )

-- The chain of a collection is accepted.
pub record IsChained (runtime : Runtime) (c : String) (rows : List Fields) : Type 0 where
  pub last : Option String
  pub walked : walk runtime c 0 none rows ≡ ok (head (0 + length rows) last)

-- Every chain is accepted.
abbrev pub AreChained : Runtime → List String → Payload → Type 0
AreChained runtime cs p = All (λ c. IsChained runtime c (rows_or_none p c)) cs

-- The rows of all collections together.
unfoldable pub total : List String → Payload → ℕ
total [] p = 0
total (c ∷ cs) p = length (rows_or_none p c) + total cs p

pub IsChained-walk :
    (runtime : Runtime) (c : String) (k n : ℕ) (last : Option String) (rows : List Fields)
    → walk runtime c k none rows ≡ ok (head n last)
    → IsChained runtime c rows
IsChained-walk runtime c k n last rows h = record {
  last = last;
  walked = walk-shift runtime c k n 0 none last rows h;
}

-- Accepted chains are reported as valid, with the number of their rows.
pub verify_collections-AreChained :
    (runtime : Runtime) (cs : List String) (k : ℕ) (heads : Dict (Option String)) (p : Payload)
    → HasAll cs p
    → AreChained runtime cs p
    → (heads' : Dict (Option String)) × (verify_collections runtime cs k heads p
        ≡ ok (valid (k + total cs p) heads'))
unfolding verify_collections total
verify_collections-AreChained runtime [] k heads p here h =
    (heads, let e : k ≡ k + 0 = omega arith in rw (← e) refl)
verify_collections-AreChained runtime (c ∷ cs) k heads p here h =
    let rest =
      verify_collections-AreChained runtime cs (k + length (rows_or_none p c))
        (insert c (h.0.last) heads) p (here.1) (h.1) in
    let walked = walk-shift runtime c 0 _ k none _ _ (h.0.walked) in
    let e : k + length (rows_or_none p c) + total cs p
        ≡ k + (length (rows_or_none p c) + total cs p) =
      omega arith in
    (rest.0, rw (here.0, walked, ← e) (rest.1))

-- The step of `verify_collections` after a walk.
abbrev continued :
    Runtime → String → List String → Dict (Option String) → Payload → Walk → Result ChainReport
continued runtime c cs heads p (broken n reason) = ok (invalid n reason c)
continued runtime c cs heads p (head n last) =
    verify_collections runtime cs n (insert c last heads) p

verify_collections-cons :
    (runtime : Runtime) (c : String) (cs : List String) (k : ℕ) (heads : Dict (Option String))
    (p : Payload)
    → rows_at p c ≡ ok (rows_or_none p c)
    → verify_collections runtime (c ∷ cs) k heads p
      ≡ (walk runtime c k none (rows_or_none p c) >>= continued runtime c cs heads p)
unfolding verify_collections
verify_collections-cons runtime c cs k heads p here = rw here refl

continued-valid :
    (runtime : Runtime) (c : String) (cs : List String) (n : ℕ)
    (heads heads' : Dict (Option String)) (p : Payload) (w : Walk)
    → continued runtime c cs heads p w ≡ ok (valid n heads')
    → (m : ℕ) × (last : Option String) × (w ≡ head m last)
      × (verify_collections runtime cs m (insert c last heads) p ≡ ok (valid n heads'))
continued-valid runtime c cs n heads heads' p (broken m reason) h = cc
continued-valid runtime c cs n heads heads' p (head m last) h = (m, last, refl, h)

-- What is reported as valid are accepted chains.
pub AreChained-verify_collections :
    (runtime : Runtime) (cs : List String) (k n : ℕ) (heads heads' : Dict (Option String))
    (p : Payload)
    → HasAll cs p
    → verify_collections runtime cs k heads p ≡ ok (valid n heads')
    → AreChained runtime cs p
AreChained-verify_collections runtime [] k n heads heads' p here h = tt
AreChained-verify_collections runtime (c ∷ cs) k n heads heads' p here h =
    let step =
      >>=-eq-ok (walk runtime c k none (rows_or_none p c)) (continued runtime c cs heads p)
        (sym (verify_collections-cons runtime c cs k heads p (here.0)) ∙ h) in
    let next = continued-valid runtime c cs n heads heads' p (step.0) (step.2) in
    (
      IsChained-walk runtime c k (next.0) (next.1) _ (step.1 ∙ ap ok (next.2)),
      AreChained-verify_collections runtime cs (next.0) n _ heads' p (here.1) (next.3),
    )
