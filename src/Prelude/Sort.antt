-- ===== src/Prelude/Sort.antt =====
-- Python's stable `sorted(xs, key=key)`.
use Prim.Native.Nat.{suc}
use mathlib.Core.Path.{◌≡◌, refl}
use mathlib.Core.Logic.{◌⊎◌, inl, inr}
use mathlib.Core.Bool.{true}
use mathlib.Core.List.{List, [], ◌∷◌}
use native.Mathlib.Omega.{arith}
use phigraph.Prelude.Tests.{if◌then◌else◌, Bool-cases}
use phigraph.Prelude.Lists.{All, length}
use phigraph.Prelude.Order.{Order}

-- `a` is an element of the list.
abbrev pub Occurs : {A : Type 0} → A → List A → Type 0
Occurs a [] = ⊥
Occurs a (x ∷ xs) = (a ≡ x) ⊎ Occurs a xs

pub All-Occurs {κ} :
    {A : Type 0} (P : A → Type κ) {a : A} (xs : List A) → All P xs → Occurs a xs → P a
All-Occurs P [] h o = elim o [ ]
All-Occurs P (x ∷ xs) h (inl e) = rw e h.0
All-Occurs P (x ∷ xs) h (inr o) = All-Occurs P xs h.1 o

pub All_of_Occurs {κ} :
    {A : Type 0} (P : A → Type κ) (xs : List A) → ((a : A) → Occurs a xs → P a) → All P xs
All_of_Occurs P [] h = tt
All_of_Occurs P (x ∷ xs) h = (h x (inl refl), All_of_Occurs P xs (λ a o. h a (inr o)))

module _ {κ} {A : Type 0} {K : Type κ} (o : Order K) (key : A → K) where
  abbrev pub insert_by : A → List A → List A
  insert_by x [] = x ∷ []
  insert_by x (y ∷ ys) =
      let rest = insert_by x ys in if o.le (key x) (key y) then x ∷ y ∷ ys else y ∷ rest

  abbrev pub sort_by : List A → List A
  sort_by [] = []
  sort_by (x ∷ xs) = insert_by x (sort_by xs)

  abbrev pub IsLeast : A → A → Type 0
  IsLeast x y = o.le (key x) (key y) ≡ true

  abbrev pub IsSorted : List A → Type 0
  IsSorted [] = Unit
  IsSorted (x ∷ xs) = All (IsLeast x) xs × IsSorted xs

  Occurs-insert_by_self : (x : A) (xs : List A) → Occurs x (insert_by x xs)
  Occurs-insert_by_self x [] = inl refl
  Occurs-insert_by_self x (y ∷ ys) = elim (Bool-cases (o.le (key x) (key y))) [
    | inl before ↦ rw before (inl refl)
    | inr after ↦ rw after (inr (Occurs-insert_by_self x ys))
  ]

  Occurs-insert_by : (a x : A) (xs : List A) → Occurs a xs → Occurs a (insert_by x xs)
  Occurs-insert_by a x [] h = elim h [ ]
  Occurs-insert_by a x (y ∷ ys) h = elim (Bool-cases (o.le (key x) (key y))) [
    | inl before ↦ rw before (inr h)
    | inr after ↦ rw after (elim h [ inl e ↦ inl e | inr r ↦ inr (Occurs-insert_by a x ys r) ])
  ]

  pub Occurs-sort_by : (a : A) (xs : List A) → Occurs a xs → Occurs a (sort_by xs)
  Occurs-sort_by a [] h = elim h [ ]
  Occurs-sort_by a (x ∷ xs) (inl e) = rw e (Occurs-insert_by_self x (sort_by xs))
  Occurs-sort_by a (x ∷ xs) (inr r) = Occurs-insert_by a x (sort_by xs) (Occurs-sort_by a xs r)

  pub All-insert_by :
      (P : A → Type 0) (x : A) (xs : List A) → P x → All P xs → All P (insert_by x xs)
  All-insert_by P x [] p h = (p, tt)
  All-insert_by P x (y ∷ ys) p h = elim (Bool-cases (o.le (key x) (key y))) [
    | inl before ↦ rw before (p, h)
    | inr after ↦ rw after (h.0, All-insert_by P x ys p h.1)
  ]

  pub All-sort_by : (P : A → Type 0) (xs : List A) → All P xs → All P (sort_by xs)
  All-sort_by P [] h = tt
  All-sort_by P (x ∷ xs) h = All-insert_by P x (sort_by xs) h.0 (All-sort_by P xs h.1)

  -- What the sorted list holds the list holds.
  pub sort_by-Occurs : (a : A) (xs : List A) → Occurs a (sort_by xs) → Occurs a xs
  sort_by-Occurs a xs h =
      All-Occurs (λ b. Occurs b xs) (sort_by xs)
        (All-sort_by (λ b. Occurs b xs) xs (All_of_Occurs (λ b. Occurs b xs) xs (λ b m. m))) h

  All-trans : (x y : A) (xs : List A) → IsLeast x y → All (IsLeast y) xs → All (IsLeast x) xs
  All-trans x y [] h k = tt
  All-trans x y (z ∷ zs) h k = (o.trans (key x) (key y) (key z) h k.0, All-trans x y zs h k.1)

  pub insert_by-IsSorted : (x : A) (xs : List A) → IsSorted xs → IsSorted (insert_by x xs)
  insert_by-IsSorted x [] h = (tt, tt)
  insert_by-IsSorted x (y ∷ ys) h = elim (Bool-cases (o.le (key x) (key y))) [
    | inl before ↦ rw before ((before, All-trans x y ys before h.0), h)
    | inr after ↦ rw after (
      All-insert_by (IsLeast y) x ys (o.total (key x) (key y) after) h.0,
      insert_by-IsSorted x ys h.1,
    )
  ]

  pub sort_by-IsSorted : (xs : List A) → IsSorted (sort_by xs)
  sort_by-IsSorted [] = tt
  sort_by-IsSorted (x ∷ xs) = insert_by-IsSorted x (sort_by xs) (sort_by-IsSorted xs)

  pub insert_by_least : (x : A) (xs : List A) → All (IsLeast x) xs → insert_by x xs ≡ x ∷ xs
  insert_by_least x [] h = refl
  insert_by_least x (y ∷ ys) h = ground arith

  -- Sorting what is sorted changes nothing.
  pub sort_by_of_IsSorted : (xs : List A) → IsSorted xs → sort_by xs ≡ xs
  sort_by_of_IsSorted [] h = refl
  sort_by_of_IsSorted (x ∷ xs) h = rw (sort_by_of_IsSorted xs h.1) (insert_by_least x xs h.0)

  length-insert_by : (x : A) (xs : List A) → length (insert_by x xs) ≡ suc (length xs)
  length-insert_by x [] = refl
  length-insert_by x (y ∷ ys) = ground (arith, length-insert_by x ys)

  pub length-sort_by : (xs : List A) → length (sort_by xs) ≡ length xs
  length-sort_by [] = refl
  length-sort_by (x ∷ xs) = omega (arith, length-insert_by x (sort_by xs), length-sort_by xs)
