-- ===== src/EvidenceLedger/Tamper.antt =====
-- The collection chains of src/phigraph/core_v3/ledger.py give tampering away: what was hashed
-- is determined by the head and the number of rows, up to a collision of the hash.
use mathlib.Core.Path.{ap₂}
use phigraph.Prelude.{
  ℕ, ◌+◌, String, ◌≡◌, ◌≢◌, refl, sym, ◌∙◌, Option, none, some, List, [], ◌∷◌, ◌⊎◌, inl, inr, arith,
  ◌==◌, eq_iff, length, Bool-cases,
}
use phigraph.Prelude.Sort.{Occurs}
use phigraph.Python.{Runtime}
use phigraph.Python.Values.{Json, str, obj, Fields, end, field, without, of_opt_str}
use phigraph.Python.Errors.{ok}
use phigraph.EvidenceLedger.Chain.{hash_payload, chain_hash, head, walk}
use phigraph.EvidenceLedger.Walks.{expected, walk-tail, walk_end, head-inj}

-- What is hashed for a row.
abbrev pub hashed_value : Json → String → Fields → Json
hashed_value previous_hash collection row = obj (
    field "previous_hash" previous_hash
      (field "collection" (str collection) (field "record" (obj (without "_chain" row)) end)))

-- The texts that are hashed, row by row.
unfoldable pub hashed_texts : Runtime → String → Option String → List Fields → List String
hashed_texts runtime c previous [] = []
hashed_texts runtime c previous (row ∷ rows) =
    runtime.dumps (hashed_value (of_opt_str previous) c row)
    ∷ hashed_texts runtime c (some (expected runtime c previous row)) rows

-- Two different texts, one of each list, with the same digest.
pub record Collides (runtime : Runtime) (xs ys : List String) : Type 0 where
  pub one : String
  pub other : String
  pub in_one : Occurs one xs
  pub in_other : Occurs other ys
  pub apart : one ≢ other
  pub same_hash : runtime.sha256 one ≡ runtime.sha256 other

Collides-cons :
    (runtime : Runtime) (x y : String) (xs ys : List String)
    → Collides runtime xs ys
    → Collides runtime (x ∷ xs) (y ∷ ys)
Collides-cons runtime x y xs ys h = record {
  one = h.one;
  other = h.other;
  in_one = inr (h.in_one);
  in_other = inr (h.in_other);
  apart = h.apart;
  same_hash = h.same_hash;
}

some-inj : {a b : String} → ◌≡◌ {A = Option String} (some a) (some b) → a ≡ b
some-inj h = cc

-- Whether two texts with one digest are the same or collide.
same_or_Collides :
    (runtime : Runtime) (x y : String) (xs ys : List String)
    → runtime.sha256 x ≡ runtime.sha256 y
    → (x ≡ y) ⊎ Collides runtime (x ∷ xs) (y ∷ ys)
same_or_Collides runtime x y xs ys h = elim (Bool-cases (x == y)) [
  | inl same ↦ inl ((eq_iff x y).0 same)
  | inr differ ↦ inr (record {
    one = x;
    other = y;
    in_one = inl refl;
    in_other = inl refl;
    apart = λ e. ground (arith, eq_iff x y);
    same_hash = h;
  })
]

module _ (runtime : Runtime) (c : String)
    (dumps_link : (p q : Option String) (row other : Fields)
      → runtime.dumps (hashed_value (of_opt_str p) c row)
        ≡ runtime.dumps (hashed_value (of_opt_str q) c other)
      → p ≡ q) where
  -- A digest is that of the text that is hashed.
  expected-sha256 :
      (previous : Option String) (row : Fields)
      → expected runtime c previous row
        ≡ runtime.sha256 (runtime.dumps (hashed_value (of_opt_str previous) c row))
  unfolding chain_hash hash_payload
  expected-sha256 previous row = refl

  tamper_from :
      (k m n : ℕ) (previous before last : Option String) (xs ys : List Fields)
      → length xs ≡ length ys
      → walk runtime c k previous xs ≡ ok (head m last)
      → walk runtime c k before ys ≡ ok (head n last)
      → ((previous ≡ before)
          × (hashed_texts runtime c previous xs ≡ hashed_texts runtime c before ys))
        ⊎ Collides runtime (hashed_texts runtime c previous xs) (hashed_texts runtime c before ys)
  unfolding hashed_texts
  tamper_from k m n previous before last [] [] same hx hy = inl (
    (head-inj (sym (walk_end runtime c k previous) ∙ hx)).1
        ∙ sym (head-inj (sym (walk_end runtime c k before) ∙ hy)).1,
    refl,
  )
  tamper_from k m n previous before last [] (y ∷ ys) same hx hy = absurd (omega (arith, same))
  tamper_from k m n previous before last (x ∷ xs) [] same hx hy = absurd (omega (arith, same))
  tamper_from k m n previous before last (x ∷ xs) (y ∷ ys) same hx hy =
      elim (tamper_from (k + 1) m n _ _ last xs ys (omega (arith, same))
        (walk-tail runtime c k m previous last x xs hx)
        (walk-tail runtime c k n before last y ys hy)) [
          | inr collision ↦ inr (Collides-cons runtime _ _ _ _ collision)
          | inl agree ↦
              let digest =
                sym (expected-sha256 previous x) ∙ some-inj (agree.0) ∙ expected-sha256 before y in
              elim (same_or_Collides runtime _ _ (hashed_texts runtime c _ xs)
                (hashed_texts runtime c _ ys) digest) [
                  | inl text ↦ inl (dumps_link previous before x y text, ap₂ ◌∷◌ text (agree.1))
                  | inr collision ↦ inr collision
                ]
        ]

  -- Two lists of as many rows that `verify_chain` walks to one head: either the same texts were
  -- hashed for their rows, one by one, or two of the hashed texts collide. The link before a row
  -- must be recoverable from its text.
  pub same_head-same_texts :
      (m n : ℕ) (last : Option String) (xs ys : List Fields)
      → length xs ≡ length ys
      → walk runtime c 0 none xs ≡ ok (head m last)
      → walk runtime c 0 none ys ≡ ok (head n last)
      → (hashed_texts runtime c none xs ≡ hashed_texts runtime c none ys)
        ⊎ Collides runtime (hashed_texts runtime c none xs) (hashed_texts runtime c none ys)
  same_head-same_texts m n last xs ys same hx hy =
      elim (tamper_from 0 m n none none last xs ys same hx hy) [
        | inl agree ↦ inl (agree.1)
        | inr collision ↦ inr collision
      ]
