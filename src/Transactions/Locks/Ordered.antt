-- ===== src/Transactions/Locks/Ordered.antt =====
-- `normalize_lock_refs` of src/phigraph/core_v3/transactions.py puts references in the global lock
-- order of ADR-020: tenant, project, collection, the chain lock, canonical keys.
use phigraph.Prelude.{
  String, ◌≡◌, ◌≢◌, ◌↔◌, ◌⊎◌, inl, inr, refl, sym, ap, ◌∙◌, Bool, true, false, List, arith, leb,
  Bool-cases,
}
use phigraph.Prelude.Order.{lex_le, str_le, str_refl, str_total, str_antisym}
use phigraph.Prelude.Precedes.{
  Precedes, Precedes-Occurs, Precedes-differ, Precedes-IsLeast, IsLeast-Precedes,
}
use phigraph.Prelude.Sort.{Occurs, IsLeast}
use phigraph.Transactions.Locks.{
  LockKind, chain, canonical, LockRef, kind_rank, lock_key, lock_order, normalize_lock_refs,
}
use phigraph.Transactions.Locks.Normal.{lock_key-inj, normalize_lock_refs-IsSorted}

-- `s < t`
abbrev pub IsBelow : String → String → Type 0
IsBelow s t = str_le t s ≡ false

-- Where the tenant, the project and the collection are equal: the chain lock comes before the
-- canonical ones, and these are in the order of their keys.
pub data KindBefore (a b : LockRef) : Type 0 where
  by_kind : a.kind ≡ chain → b.kind ≡ canonical → KindBefore a b
  by_key : a.kind ≡ b.kind → IsBelow a.canonical_key b.canonical_key → KindBefore a b

-- The global lock order.
pub data ComesBefore (a b : LockRef) : Type 0 where
  by_tenant : IsBelow a.tenant_id b.tenant_id → ComesBefore a b
  by_project : a.tenant_id ≡ b.tenant_id → IsBelow a.project_id b.project_id → ComesBefore a b
  by_collection :
      a.tenant_id ≡ b.tenant_id
      → a.project_id ≡ b.project_id
      → IsBelow a.collection b.collection
      → ComesBefore a b
  in_collection :
      a.tenant_id ≡ b.tenant_id
      → a.project_id ≡ b.project_id
      → a.collection ≡ b.collection
      → KindBefore a b
      → ComesBefore a b

-- What a comparison of tuples says of its first components, and of the rest.
str_lex :
    (s t : String) (rest : Bool)
    → lex_le (str_le s t) (str_le t s) rest ≡ true
    → IsBelow s t ⊎ ((s ≡ t) × (rest ≡ true))
str_lex s t rest h = elim (Bool-cases (str_le t s)) [
  | inr below ↦ inl below
  | inl back ↦ inr (str_antisym s t (ground arith) back, ground arith)
]

below_lex :
    (s t : String) (rest : Bool) → IsBelow s t → lex_le (str_le s t) (str_le t s) rest ≡ true
below_lex s t rest below = ground (arith, str_total t s)

equal_lex :
    (s t : String) (rest : Bool)
    → s ≡ t
    → rest ≡ true
    → lex_le (str_le s t) (str_le t s) rest ≡ true
equal_lex s t rest e h = rw e (rw (str_refl t) h)

not_below : (s t : String) → IsBelow s t → s ≢ t
not_below s t below e = true≢false (str_refl t) (rw e at below)
  where
    true≢false : {b : Bool} → b ≡ true → b ≡ false → ⊥
    true≢false h k = cc

abbrev kind_le : LockKind → LockKind → Bool → Bool
kind_le k l rest = lex_le (leb (kind_rank k) (kind_rank l)) (leb (kind_rank l) (kind_rank k)) rest

kind_lex :
    (k l : LockKind) (rest : Bool)
    → kind_le k l rest ≡ true
    → ((k ≡ chain) × (l ≡ canonical)) ⊎ ((k ≡ l) × (rest ≡ true))
kind_lex chain chain rest h = inr (refl, h)
kind_lex chain canonical rest h = inl (refl, refl)
kind_lex canonical chain rest h = cc
kind_lex canonical canonical rest h = inr (refl, h)

kind_le-KindBefore :
    (a b : LockRef)
    → (a.kind ≡ b.kind → a.canonical_key ≡ b.canonical_key → ⊥)
    → kind_le a.kind b.kind (str_le a.canonical_key b.canonical_key) ≡ true
    → KindBefore a b
kind_le-KindBefore a b differ h = elim (kind_lex a.kind b.kind _ h) [
  | inl (first, second) ↦ by_kind first second
  | inr (same, le) ↦ by_key same (elim (Bool-cases (str_le b.canonical_key a.canonical_key)) [
    | inr below ↦ below
    | inl back ↦ absurd (differ same (str_antisym _ _ le back))
  ])
]

IsLeast-ComesBefore : (a b : LockRef) → a ≢ b → IsLeast lock_order lock_key a b → ComesBefore a b
IsLeast-ComesBefore a b differ h = elim (str_lex a.tenant_id b.tenant_id _ h) [
  | inl below ↦ by_tenant below
  | inr (tenant, h₁) ↦ elim (str_lex a.project_id b.project_id _ h₁) [
    | inl below ↦ by_project tenant below
    | inr (project, h₂) ↦ elim (str_lex a.collection b.collection _ h₂) [
      | inl below ↦ by_collection tenant project below
      | inr (collection, h₃) ↦ in_collection tenant project collection (
          kind_le-KindBefore a b
            (λ kind key. differ (λ i. record {
              tenant_id = tenant i;
              project_id = project i;
              collection = collection i;
              kind = kind i;
              canonical_key = key i;
            }))
            h₃)
    ]
  ]
]

kind_first :
    (a b : LockRef)
    → KindBefore a b
    → kind_le a.kind b.kind (str_le a.canonical_key b.canonical_key) ≡ true
kind_first a b (by_kind first second) = rw (first, second) refl
kind_first a b (by_key same below) =
    rw same (same_kind b.kind _ (below_le a.canonical_key b.canonical_key below))
  where
    same_kind : (k : LockKind) (rest : Bool) → rest ≡ true → kind_le k k rest ≡ true
    same_kind chain rest h = h
    same_kind canonical rest h = h

    below_le : (s t : String) → IsBelow s t → str_le s t ≡ true
    below_le s t below = str_total t s below

ComesBefore-IsLeast : (a b : LockRef) → ComesBefore a b → IsLeast lock_order lock_key a b
ComesBefore-IsLeast a b (by_tenant below) = below_lex _ _ _ below
ComesBefore-IsLeast a b (by_project tenant below) = equal_lex _ _ _ tenant (below_lex _ _ _ below)
ComesBefore-IsLeast a b (by_collection tenant project below) =
    equal_lex _ _ _ tenant (equal_lex _ _ _ project (below_lex _ _ _ below))
ComesBefore-IsLeast a b (in_collection tenant project collection kind) =
    equal_lex _ _ _ tenant
      (equal_lex _ _ _ project (equal_lex _ _ _ collection (kind_first a b kind)))

chain≢canonical : chain ≡ canonical → ⊥
chain≢canonical h = cc

ComesBefore-differ : (a b : LockRef) → ComesBefore a b → a ≢ b
ComesBefore-differ a b (by_tenant below) e = not_below _ _ below (ap (λ x. x.tenant_id) e)
ComesBefore-differ a b (by_project _ below) e = not_below _ _ below (ap (λ x. x.project_id) e)
ComesBefore-differ a b (by_collection _ _ below) e = not_below _ _ below (ap (λ x. x.collection) e)
ComesBefore-differ a b (in_collection _ _ _ (by_kind first second)) e =
    chain≢canonical (sym first ∙ ap (λ x. x.kind) e ∙ second)
ComesBefore-differ a b (in_collection _ _ _ (by_key _ below)) e =
    not_below _ _ below (ap (λ x. x.canonical_key) e)

-- In the normal form of any declaration one reference stands before another exactly if both are
-- declared and the first comes before the second by tenant, project, collection, the chain lock
-- before the canonical ones, and canonical key, each text by code points.
pub normalize_lock_refs-Precedes :
    (refs : List LockRef) (a b : LockRef)
    → Precedes a b (normalize_lock_refs refs) ↔ (Occurs a refs × Occurs b refs × ComesBefore a b)
normalize_lock_refs-Precedes refs a b =
    let (sorted, distinct, same) = normalize_lock_refs-IsSorted refs in
    (
      λ h.
          let (first, second) = Precedes-Occurs a b (normalize_lock_refs refs) h in
          (
            (same a).0 first,
            (same b).0 second,
            IsLeast-ComesBefore a b (Precedes-differ a b (normalize_lock_refs refs) distinct h)
                (Precedes-IsLeast lock_order lock_key a b (normalize_lock_refs refs) sorted h),
          ),
      λ (m, n, before).
          IsLeast-Precedes lock_order lock_key lock_key-inj a b (normalize_lock_refs refs) sorted
            ((same a).1 m) ((same b).1 n) (ComesBefore-differ a b before)
            (ComesBefore-IsLeast a b before),
    )
