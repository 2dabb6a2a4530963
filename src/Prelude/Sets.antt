-- ===== src/Prelude/Sets.antt =====
-- Lists as sets: no repetition, and a sorted list without repetition is determined by its elements.
use mathlib.Core.Path.{◌≡◌, refl, sym, ap₂}
use mathlib.Core.Logic.{◌↔◌, ◌⊎◌, inl, inr}
use mathlib.Core.List.{List, [], ◌∷◌}
use mathlib.Core.Bool.{Bool, true, not, ◌&&◌}
use Prim.Native.String.{String}
use native.Mathlib.Omega.{arith}
use text.Mathlib.Text.{◌==◌}
use text.Mathlib.TextEquality.{eq_iff}
use phigraph.Prelude.Tests.{Bool-cases}
use phigraph.Prelude.Text.{contains}
use phigraph.Prelude.Lists.{All}
use phigraph.Prelude.Order.{Order}
use phigraph.Prelude.Sort.{
  Occurs, All-Occurs, insert_by, sort_by, All_of_Occurs, IsLeast, IsSorted, sort_by-Occurs,
  Occurs-sort_by, All-insert_by, sort_by-IsSorted,
}

-- No element stands twice.
abbrev pub IsDistinct : {A : Type 0} → List A → Type 0
IsDistinct [] = Unit
IsDistinct (x ∷ xs) = (¬ Occurs x xs) × IsDistinct xs

abbrev pub HaveSame : {A : Type 0} → List A → List A → Type 0
HaveSame {A} xs ys = (a : A) → Occurs a xs ↔ Occurs a ys

module _ {κ} {A : Type 0} {K : Type κ} (o : Order K) (key : A → K) where
  -- What was inserted, or was there before.
  insert_by_inverse :
      (a x : A) (xs : List A) → Occurs a (insert_by o key x xs) → (a ≡ x) ⊎ Occurs a xs
  insert_by_inverse a x xs h =
      All-Occurs (λ b. (b ≡ x) ⊎ Occurs b xs) (insert_by o key x xs)
        (All-insert_by o key (λ b. (b ≡ x) ⊎ Occurs b xs) x xs (inl refl)
          (All_of_Occurs (λ b. (b ≡ x) ⊎ Occurs b xs) xs (λ b old. inr old)))
        h

  insert_by-IsDistinct :
      (x : A) (xs : List A) → (¬ Occurs x xs) → IsDistinct xs → IsDistinct (insert_by o key x xs)
  insert_by-IsDistinct x [] new h = (new, tt)
  insert_by-IsDistinct x (y ∷ ys) new h = elim (Bool-cases (o.le (key x) (key y))) [
    | inl before ↦ rw before (new, h)
    | inr after ↦ rw after (
      λ again. elim (insert_by_inverse y x ys again) [
        | inl same ↦ new (inl (sym same))
        | inr old ↦ h.0 old
      ],
      insert_by-IsDistinct x ys (λ old. new (inr old)) h.1,
    )
  ]

  pub sort_by-IsDistinct : (xs : List A) → IsDistinct xs → IsDistinct (sort_by o key xs)
  sort_by-IsDistinct [] h = tt
  sort_by-IsDistinct (x ∷ xs) h =
      insert_by-IsDistinct x (sort_by o key xs) (λ again. h.0 (sort_by-Occurs o key x xs again))
        (sort_by-IsDistinct xs h.1)

  module _ (inj : (a b : A) → key a ≡ key b → a ≡ b) where
    -- Two least elements of one set are one.
    least_unique :
        (x y : A) (xs ys : List A)
        → All (IsLeast o key x) xs
        → All (IsLeast o key y) ys
        → HaveSame (x ∷ xs) (y ∷ ys)
        → x ≡ y
    least_unique x y xs ys hx hy same = elim ((same x).0 (inl refl)) [
      | inl e ↦ e
      | inr later ↦ elim ((same y).1 (inl refl)) [
        | inl e ↦ sym e
        | inr later' ↦ inj x y (
            o.antisym (key x) (key y) (All-Occurs (IsLeast o key x) xs hx later')
              (All-Occurs (IsLeast o key y) ys hy later))
      ]
    ]

    -- What is left of an element of `x ∷ xs` that occurs in `x ∷ ys` and is not `x`.
    tail_Occurs :
        (a x : A) (xs ys : List A)
        → (¬ Occurs x xs)
        → Occurs a xs
        → (Occurs a (x ∷ xs) → Occurs a (x ∷ ys))
        → Occurs a ys
    tail_Occurs a x xs ys new h f = elim (f (inr h)) [
      | inl e ↦ absurd (new (rw (← e) h))
      | inr later ↦ later
    ]

    -- A sorted list without repetition is determined by its elements.
    pub sorted_unique :
        (xs ys : List A)
        → IsSorted o key xs
        → IsSorted o key ys
        → IsDistinct xs
        → IsDistinct ys
        → HaveSame xs ys
        → xs ≡ ys
    sorted_unique [] [] sx sy dx dy same = refl
    sorted_unique [] (y ∷ ys) sx sy dx dy same = absurd ((same y).1 (inl refl))
    sorted_unique (x ∷ xs) [] sx sy dx dy same = absurd ((same x).0 (inl refl))
    sorted_unique (x ∷ xs) (y ∷ ys) sx sy dx dy same =
        let e = least_unique x y xs ys sx.0 sy.0 same in
        let new : ¬ Occurs x ys = rw e dy.0 in
        ap₂ ◌∷◌ e (
          sorted_unique xs ys sx.1 sy.1 dx.1 dy.1 (λ a. (
            λ h. tail_Occurs a x xs ys dx.0 h (λ k. rw e ((same a).0 k)),
            λ h. tail_Occurs a x ys xs new h (λ k. (same a).1 (rw (← e) k)),
          )))

    -- Sorting lists without repetition forgets all but their elements.
    pub sort_by_unique :
        (xs ys : List A)
        → IsDistinct xs
        → IsDistinct ys
        → HaveSame xs ys
        → sort_by o key xs ≡ sort_by o key ys
    sort_by_unique xs ys dx dy same =
        sorted_unique (sort_by o key xs) (sort_by o key ys) (sort_by-IsSorted o key xs)
          (sort_by-IsSorted o key ys) (sort_by-IsDistinct xs dx) (sort_by-IsDistinct ys dy)
          (λ a. (
            λ h. Occurs-sort_by o key a ys ((same a).0 (sort_by-Occurs o key a xs h)),
            λ h. Occurs-sort_by o key a xs ((same a).1 (sort_by-Occurs o key a ys h)),
          ))

-- A test for names.
abbrev pub is_distinct : List String → Bool
is_distinct [] = true
is_distinct (x ∷ xs) = not (contains xs x) && is_distinct xs

pub Occurs-contains : (x : String) (xs : List String) → contains xs x ≡ true → Occurs x xs
Occurs-contains x [] h = cc
Occurs-contains x (y ∷ ys) h = elim (Bool-cases (y == x)) [
  | inl same ↦ inl (sym ((eq_iff y x).0 same))
  | inr other ↦ inr (Occurs-contains x ys (ground arith))
]

pub contains-Occurs : (x : String) (xs : List String) → Occurs x xs → contains xs x ≡ true
contains-Occurs x [] o = elim o [ ]
contains-Occurs x (y ∷ ys) (inl e) = ground (arith, eq_iff y x, e)
contains-Occurs x (y ∷ ys) (inr o) = ground (arith, contains-Occurs x ys o)

pub IsDistinct-is_distinct : (xs : List String) → is_distinct xs ≡ true → IsDistinct xs
IsDistinct-is_distinct [] h = tt
IsDistinct-is_distinct (x ∷ xs) h = (
  (λ o. let again = contains-Occurs x xs o in ground arith),
  IsDistinct-is_distinct xs (ground arith),
)
