-- ===== src/Transactions/Locks/Normal.antt =====
-- The global lock order: what `normalize_lock_refs` of src/phigraph/core_v3/transactions.py returns.
use phigraph.Prelude.{
  ◌≡◌, refl, sym, ap, Bool, true, false, List, [], ◌∷◌, ◌↔◌, inl, inr, arith, ◌==◌, eq_iff, eqb_iff,
  Bool-cases,
}
use phigraph.Prelude.Sort.{Occurs, IsSorted, sort_by-IsSorted, Occurs-sort_by, sort_by-Occurs}
use phigraph.Prelude.Sets.{IsDistinct, HaveSame, sort_by-IsDistinct, sort_by_unique}
use phigraph.Transactions.Locks.{
  LockKind, chain, canonical, LockRef, kind_rank, kind_eq, lock_key, lock_order, lock_eq, has_lock,
  lock_set, normalize_lock_refs,
}

kind_rank-inj : (a b : LockKind) → kind_rank a ≡ kind_rank b → a ≡ b
kind_rank-inj chain chain h = refl
kind_rank-inj chain canonical h = let no : ⊥ = omega arith in absurd no
kind_rank-inj canonical chain h = let no : ⊥ = omega arith in absurd no
kind_rank-inj canonical canonical h = refl

pub lock_key-inj : (a b : LockRef) → lock_key a ≡ lock_key b → a ≡ b
lock_key-inj a b h = λ i. record {
  tenant_id = (h i).0;
  project_id = (h i).1.0;
  collection = (h i).1.1.0;
  kind = kind_rank-inj a.kind b.kind (ap (λ k. k.1.1.1.0) h) i;
  canonical_key = (h i).1.1.1.1;
}

lock_eq_refl : (a : LockRef) → lock_eq a a ≡ true
lock_eq_refl a = ground (
  arith,
  eq_iff a.tenant_id a.tenant_id,
  eq_iff a.project_id a.project_id,
  eq_iff a.collection a.collection,
  eq_iff a.canonical_key a.canonical_key,
)

lock_eq_sound : (a b : LockRef) → lock_eq a b ≡ true → a ≡ b
lock_eq_sound a b h =
    let t : a.tenant_id == b.tenant_id ≡ true = ground arith in
    let p : a.project_id == b.project_id ≡ true = ground arith in
    let c : a.collection == b.collection ≡ true = ground arith in
    let k : kind_eq a.kind b.kind ≡ true = ground arith in
    let n : a.canonical_key == b.canonical_key ≡ true = ground arith in
    λ i. record {
      tenant_id = (eq_iff a.tenant_id b.tenant_id).0 t i;
      project_id = (eq_iff a.project_id b.project_id).0 p i;
      collection = (eq_iff a.collection b.collection).0 c i;
      kind = kind_rank-inj a.kind b.kind ((eqb_iff _ _).0 k) i;
      canonical_key = (eq_iff a.canonical_key b.canonical_key).0 n i;
    }

true≢false : {b : Bool} → b ≡ true → b ≡ false → ⊥
true≢false h k = cc

-- The test `ref in refs`.
pub has_lock_iff : (a : LockRef) (refs : List LockRef) → (has_lock a refs ≡ true) ↔ Occurs a refs
has_lock_iff a [] = (λ h. cc, λ h. elim h [ ])
has_lock_iff a (x ∷ refs) = (
  λ h. elim (Bool-cases (lock_eq x a)) [
    | inl same ↦ inl (sym (lock_eq_sound x a same))
    | inr other ↦ inr ((has_lock_iff a refs).0 (rw other at h))
  ],
  λ h. elim h [
    | inl e ↦ rw e (rw (lock_eq_refl x) refl)
    | inr later ↦ rw ((has_lock_iff a refs).1 later) (ground arith)
  ],
)

lock_set-Occurs : (a : LockRef) (refs : List LockRef) → Occurs a (lock_set refs) ↔ Occurs a refs
lock_set-Occurs a [] = (λ h. h, λ h. h)
lock_set-Occurs a (x ∷ refs) = elim (Bool-cases (has_lock x refs)) [
  | inl known ↦ (
    λ h. inr ((lock_set-Occurs a refs).0 (rw known at h)),
    λ h. rw known (elim h [
      | inl e ↦ (lock_set-Occurs a refs).1 (rw e ((has_lock_iff x refs).0 known))
      | inr later ↦ (lock_set-Occurs a refs).1 later
    ]),
  )
  | inr new ↦ (
    λ h. elim (rw new at h) [ inl e ↦ inl e | inr later ↦ inr ((lock_set-Occurs a refs).0 later) ],
    λ h. rw new (elim h [ inl e ↦ inl e | inr later ↦ inr ((lock_set-Occurs a refs).1 later) ]),
  )
]

lock_set-IsDistinct : (refs : List LockRef) → IsDistinct (lock_set refs)
lock_set-IsDistinct [] = tt
lock_set-IsDistinct (x ∷ refs) = elim (Bool-cases (has_lock x refs)) [
  | inl known ↦ rw known (lock_set-IsDistinct refs)
  | inr new ↦ rw new (
    λ h.
        let twice = (has_lock_iff x refs).1 ((lock_set-Occurs x refs).0 h) in
        absurd (true≢false twice new),
    lock_set-IsDistinct refs,
  )
]

-- The normal form holds the references that were declared, each once, in the global order.
pub normalize_lock_refs-IsSorted :
    (refs : List LockRef)
    → IsSorted lock_order lock_key (normalize_lock_refs refs)
      × IsDistinct (normalize_lock_refs refs)
      × HaveSame (normalize_lock_refs refs) refs
unfolding normalize_lock_refs
normalize_lock_refs-IsSorted refs = (
  sort_by-IsSorted lock_order lock_key (lock_set refs),
  sort_by-IsDistinct lock_order lock_key (lock_set refs) (lock_set-IsDistinct refs),
  λ a. (
    λ h. (lock_set-Occurs a refs).0 (sort_by-Occurs lock_order lock_key a (lock_set refs) h),
    λ h. Occurs-sort_by lock_order lock_key a (lock_set refs) ((lock_set-Occurs a refs).1 h),
  ),
)

-- Two declarations of the same references, in any order and with any repetitions, have one normal
-- form.
pub normalize_lock_refs_same :
    (refs other : List LockRef)
    → HaveSame refs other
    → normalize_lock_refs refs ≡ normalize_lock_refs other
unfolding normalize_lock_refs
normalize_lock_refs_same refs other same =
    sort_by_unique lock_order lock_key lock_key-inj (lock_set refs) (lock_set other)
      (lock_set-IsDistinct refs) (lock_set-IsDistinct other)
      (λ a. (
        λ h. (lock_set-Occurs a other).1 ((same a).0 ((lock_set-Occurs a refs).0 h)),
        λ h. (lock_set-Occurs a refs).1 ((same a).1 ((lock_set-Occurs a other).0 h)),
      ))
