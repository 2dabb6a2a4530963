-- ===== src/Prelude/Precedes.antt =====
-- Which of two elements comes first in a list, and in a sorted one.
use mathlib.Core.Path.{◌≡◌, sym, ◌∙◌}
use mathlib.Core.Logic.{◌≢◌, ◌⊎◌, inl, inr}
use mathlib.Core.List.{List, [], ◌∷◌}
use phigraph.Prelude.Order.{Order}
use phigraph.Prelude.Sort.{Occurs, All-Occurs, IsLeast, IsSorted}
use phigraph.Prelude.Sets.{IsDistinct}

-- `a` stands in the list, and `b` behind it.
abbrev pub Precedes : {A : Type 0} → A → A → List A → Type 0
Precedes a b [] = ⊥
Precedes a b (x ∷ xs) = ((a ≡ x) × Occurs b xs) ⊎ Precedes a b xs

pub Precedes-Occurs :
    {A : Type 0} (a b : A) (xs : List A) → Precedes a b xs → Occurs a xs × Occurs b xs
Precedes-Occurs a b [] h = elim h [ ]
Precedes-Occurs a b (x ∷ xs) (inl (e, o)) = (inl e, inr o)
Precedes-Occurs a b (x ∷ xs) (inr h) =
    let (first, second) = Precedes-Occurs a b xs h in (inr first, inr second)

-- In a list without repetition no element precedes itself.
pub Precedes-differ : {A : Type 0} (a b : A) (xs : List A) → IsDistinct xs → Precedes a b xs → a ≢ b
Precedes-differ a b [] d h e = elim h [ ]
Precedes-differ a b (x ∷ xs) d (inl (is, o)) e = d.0 (rw (← is) (rw e o))
Precedes-differ a b (x ∷ xs) d (inr h) e = Precedes-differ a b xs d.1 h e

-- Of two elements of a list one precedes the other.
Precedes-total :
    {A : Type 0} (a b : A) (xs : List A)
    → Occurs a xs
    → Occurs b xs
    → (a ≡ b) ⊎ (Precedes a b xs ⊎ Precedes b a xs)
Precedes-total a b [] m n = elim m [ ]
Precedes-total a b (x ∷ xs) (inl e) (inl f) = inl (e ∙ sym f)
Precedes-total a b (x ∷ xs) (inl e) (inr n) = inr (inl (inl (e, n)))
Precedes-total a b (x ∷ xs) (inr m) (inl f) = inr (inr (inl (f, m)))
Precedes-total a b (x ∷ xs) (inr m) (inr n) = elim (Precedes-total a b xs m n) [
  | inl e ↦ inl e
  | inr (inl h) ↦ inr (inl (inr h))
  | inr (inr h) ↦ inr (inr (inr h))
]

module _ {κ} {A : Type 0} {K : Type κ} (o : Order K) (key : A → K) where
  pub Precedes-IsLeast :
      (a b : A) (xs : List A) → IsSorted o key xs → Precedes a b xs → IsLeast o key a b
  Precedes-IsLeast a b [] s h = elim h [ ]
  Precedes-IsLeast a b (x ∷ xs) s (inl (e, m)) = rw e (All-Occurs (IsLeast o key x) xs s.0 m)
  Precedes-IsLeast a b (x ∷ xs) s (inr h) = Precedes-IsLeast a b xs s.1 h

  -- In a sorted list the lesser of two elements precedes the other.
  pub IsLeast-Precedes :
      (inj : (c d : A) → key c ≡ key d → c ≡ d) (a b : A) (xs : List A)
      → IsSorted o key xs
      → Occurs a xs
      → Occurs b xs
      → a ≢ b
      → IsLeast o key a b
      → Precedes a b xs
  IsLeast-Precedes inj a b xs s m n differ least = elim (Precedes-total a b xs m n) [
    | inl e ↦ absurd (differ e)
    | inr (inl h) ↦ h
    | inr (inr h) ↦
        absurd (differ (inj a b (o.antisym (key a) (key b) least (Precedes-IsLeast b a xs s h))))
  ]
