-- ===== src/Transactions/Locks/Context.antt =====
-- What the lock context of a transaction admits: the writes whose locks were declared.
use phigraph.Prelude.{
  String, ◌≡◌, refl, Bool, true, false, List, [], ◌∷◌, ◌↔◌, ◌⊎◌, inl, inr, arith, ◌==◌, eq_iff,
  ◌&&◌, ◌||◌, not, some, contains, if◌then◌else◌,
}
use phigraph.Prelude.Sort.{Occurs}
use phigraph.Prelude.Sets.{HaveSame}
use phigraph.Python.Errors.{Error, Result, ok, err, undeclared_lock_ref}
use phigraph.Transactions.Locks.{
  LockKind, chain, canonical, LockRef, contains_pair, add_lock, build_lock_context,
  normalize_lock_refs, require_write_locks,
}
use phigraph.Transactions.Locks.Normal.{normalize_lock_refs-IsSorted}

-- Some reference of the list has the property.
abbrev pub Declares : (LockRef → Type 0) → List LockRef → Type 0
Declares P refs = (ref : LockRef) × Occurs ref refs × P ref

abbrev pub IsChainOf : String → LockRef → Type 0
IsChainOf collection ref = (ref.kind ≡ chain) × (ref.collection ≡ collection)

abbrev pub IsCanonicalOf : String → String → LockRef → Type 0
IsCanonicalOf collection key ref =
    (ref.kind ≡ canonical) × (ref.collection ≡ collection) × (ref.canonical_key ≡ key)

kind-cases : (k : LockKind) → (k ≡ chain) ⊎ (k ≡ canonical)
kind-cases chain = inl refl
kind-cases canonical = inr refl

chain≢canonical : {k : LockKind} → k ≡ chain → k ≡ canonical → ⊥
chain≢canonical h k = cc

Declares-cons :
    (P : LockRef → Type 0) (x : LockRef) (xs : List LockRef)
    → Declares P (x ∷ xs) ↔ (P x ⊎ Declares P xs)
Declares-cons P x xs = (
  λ (ref, at, h). elim at [ inl e ↦ inl (rw (← e) h) | inr later ↦ inr (ref, later, h) ],
  λ h. elim h [ inl now ↦ (x, inl refl, now) | inr (ref, later, k) ↦ (ref, inr later, k) ],
)

Declares-HaveSame :
    (P : LockRef → Type 0) (xs ys : List LockRef) → HaveSame xs ys → Declares P xs → Declares P ys
Declares-HaveSame P xs ys same (ref, at, h) = (ref, (same ref).0 at, h)

or_iff : (a b : Bool) → ((a || b) ≡ true) ↔ ((a ≡ true) ⊎ (b ≡ true))
or_iff a b = ground arith

pair_equal : {a b c d : String} → (a == b && c == d) ≡ true → (a ≡ b) × (c ≡ d)
pair_equal {a} {b} {c} {d} h = ground (arith, eq_iff a b, eq_iff c d)

equal_pair : {a b c d : String} → a ≡ b → c ≡ d → (a == b && c == d) ≡ true
equal_pair {a} {b} {c} {d} h k = ground (arith, eq_iff a b, eq_iff c d)

-- The two tests of `require_write_locks`, on their answers.
abbrev tests : Bool → Bool → Bool → Result (Unit {0})
tests in_chain in_keys linked =
    if linked && not in_chain
    then err (undeclared_lock_ref "Missing CHAIN lock for collection")
    else if not in_keys
    then err (undeclared_lock_ref "Missing CANONICAL lock for collection")
    else ok tt

err≢ok : {A : Type 0} {x : Error} {a : A} → err x ≡ ok a → ⊥
err≢ok h = cc

passed :
    (in_chain in_keys linked : Bool)
    → tests in_chain in_keys linked ≡ ok tt
    → (linked ≡ true → in_chain ≡ true) × (in_keys ≡ true)
passed true true linked h = (λ need. refl, refl)
passed false true false h = (λ need. cc, refl)
passed false true true h = absurd (err≢ok h)
passed true false true h = absurd (err≢ok h)
passed true false false h = absurd (err≢ok h)
passed false false true h = absurd (err≢ok h)
passed false false false h = absurd (err≢ok h)

passes :
    (in_chain in_keys linked : Bool)
    → (linked ≡ true → in_chain ≡ true)
    → in_keys ≡ true
    → tests in_chain in_keys linked ≡ ok tt
passes in_chain in_keys true h k = rw (h refl, k) refl
passes in_chain in_keys false h k = rw k refl

chain_locks_iff :
    (collection : String) (refs : List LockRef)
    → (contains (build_lock_context refs).chain_locks collection ≡ true)
      ↔ Declares (IsChainOf collection) refs
unfolding build_lock_context add_lock
chain_locks_iff collection [] = (λ h. cc, λ (ref, at, h). elim at [ ])
chain_locks_iff collection (x ∷ xs) =
    let rest = chain_locks_iff collection xs in
    let cons = Declares-cons (IsChainOf collection) x xs in
    elim (kind-cases x.kind) [
      | inl here ↦ (
        λ h. cons.1 (elim ((or_iff _ _).0 (rw here at h)) [
          | inl same ↦ inl (here, (eq_iff x.collection collection).0 same)
          | inr later ↦ inr (rest.0 later)
        ]),
        λ h. rw here (
            (or_iff _ _).1 (elim (cons.0 h) [
              | inl (k, same) ↦ inl ((eq_iff x.collection collection).1 same)
              | inr later ↦ inr (rest.1 later)
            ])),
      )
      | inr other ↦ (
        λ h. cons.1 (inr (rest.0 (rw other at h))),
        λ h. rw other (elim (cons.0 h) [
          | inl (k, same) ↦ absurd (chain≢canonical k other)
          | inr later ↦ rest.1 later
        ]),
      )
    ]

canonical_locks_iff :
    (collection key : String) (refs : List LockRef)
    → (contains_pair (build_lock_context refs).canonical_locks collection key ≡ true)
      ↔ Declares (IsCanonicalOf collection key) refs
unfolding build_lock_context add_lock
canonical_locks_iff collection key [] = (λ h. cc, λ (ref, at, h). elim at [ ])
canonical_locks_iff collection key (x ∷ xs) =
    let rest = canonical_locks_iff collection key xs in
    let cons = Declares-cons (IsCanonicalOf collection key) x xs in
    elim (kind-cases x.kind) [
      | inl other ↦ (
        λ h. cons.1 (inr (rest.0 (rw other at h))),
        λ h. rw other (elim (cons.0 h) [
          | inl (k, c, n) ↦ absurd (chain≢canonical other k)
          | inr later ↦ rest.1 later
        ]),
      )
      | inr here ↦ (
        λ h. cons.1 (elim ((or_iff _ _).0 (rw here at h)) [
          | inl same ↦ let (c, n) = pair_equal same in inl (here, c, n)
          | inr later ↦ inr (rest.0 later)
        ]),
        λ h. rw here (
            (or_iff _ _).1 (elim (cons.0 h) [
              | inl (k, c, n) ↦ inl (equal_pair c n)
              | inr later ↦ inr (rest.1 later)
            ])),
      )
    ]

-- In a transaction that declared `refs`, a write is admitted exactly when a canonical lock of its
-- collection and key is among them and, for a chain-linked collection, a chain lock of the
-- collection too.
pub require_write_locks_iff :
    (refs : List LockRef) (collection key : String) (linked : Bool)
    → (require_write_locks
          (some (build_lock_context (normalize_lock_refs refs)))
          collection
          key
          linked
        ≡ ok tt)
      ↔ ((linked ≡ true → Declares (IsChainOf collection) refs)
          × Declares (IsCanonicalOf collection key) refs)
unfolding require_write_locks
require_write_locks_iff refs collection key linked =
    let same = (normalize_lock_refs-IsSorted refs).2 in
    let chains = chain_locks_iff collection (normalize_lock_refs refs) in
    let keys = canonical_locks_iff collection key (normalize_lock_refs refs) in
    (
      λ h.
          let (declared, found) =
            passed (contains (build_lock_context (normalize_lock_refs refs)).chain_locks collection)
              _ linked h in
          (
            λ need. Declares-HaveSame _ _ _ same (chains.0 (declared need)),
            Declares-HaveSame _ _ _ same (keys.0 found),
          ),
      λ (declared, found).
          passes _ _ linked
            (λ need.
              chains.1 (Declares-HaveSame _ _ _ (λ a. ((same a).1, (same a).0)) (declared need)))
            (keys.1 (Declares-HaveSame _ _ _ (λ a. ((same a).1, (same a).0)) found)),
    )
