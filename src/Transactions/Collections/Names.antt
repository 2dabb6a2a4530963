-- ===== src/Transactions/Collections/Names.antt =====
-- The names of the collections: which are chain-linked, and that none holds a NUL.
use phigraph.Prelude.{
  not-eq_false, String, ◌≡◌, refl, Bool, true, false, List, [], ◌∷◌, arith, eq_iff, not, contains,
  nul_free, All,
}
use phigraph.Python.Errors.{ok, raise_if-eq-ok}
use phigraph.Transactions.Collections.{
  Access, validate_collection, allowed_collections, scoped_collections, cas_allowed_collections,
  append_scoped_collections, is_chain_linked_collection,
}

-- What holds of each name of a list holds of a name that is in it.
contains-All :
    (P : String → Bool) (c : String) (names : List String)
    → All (λ n. P n ≡ true) names
    → contains names c ≡ true
    → P c ≡ true
contains-All P c [] h e = cc
contains-All P c (n ∷ names) h e = ground (arith, eq_iff n c, contains-All P c names h.1)

pub append_scoped-nul_free :
    (c : String) → contains append_scoped_collections c ≡ true → nul_free c ≡ true
unfolding nul_free
append_scoped-nul_free c h =
    contains-All nul_free c append_scoped_collections
      (
        refl,
        (
          refl,
          (
            refl,
            (
              refl,
              (
                refl,
                (refl, (refl, (refl, (refl, (refl, (refl, (refl, (refl, (refl, (refl, tt)))))))))),
              ),
            ),
          ),
        ),
      )
      h

pub chain_linked-append :
    (c : String) → is_chain_linked_collection c ≡ true → contains append_scoped_collections c ≡ true
unfolding is_chain_linked_collection
chain_linked-append c h =
    contains-All (contains append_scoped_collections) c scoped_collections
      (refl, (refl, (refl, (refl, (refl, (refl, (refl, (refl, (refl, tt))))))))) h

-- No collection is both chain-linked and open to compare-and-set.
pub cas-not_linked :
    (c : String) → contains cas_allowed_collections c ≡ true → is_chain_linked_collection c ≡ false
unfolding is_chain_linked_collection
cas-not_linked c h = ground (
  arith,
  contains-All (λ n. not (is_chain_linked_collection n)) c cas_allowed_collections
      (refl, (refl, (refl, (refl, (refl, (refl, tt)))))) h,
)

pub cas-append :
    (c : String)
    → contains cas_allowed_collections c ≡ true
    → contains append_scoped_collections c ≡ true
cas-append c h =
    contains-All (contains append_scoped_collections) c cas_allowed_collections
      (refl, (refl, (refl, (refl, (refl, (refl, tt)))))) h

pub validate_collection-contains :
    (access : Access) (c : String)
    → validate_collection access c ≡ ok tt
    → contains (allowed_collections access) c ≡ true
unfolding validate_collection
validate_collection-contains access c h = not-eq_false _ (raise_if-eq-ok _ _ h)
