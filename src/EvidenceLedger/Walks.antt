-- ===== src/EvidenceLedger/Walks.antt =====
-- The walk of `verify_chain` over one collection (src/phigraph/core_v3/ledger.py): what it accepts,
-- and that it accepts what the ledger writes.
use phigraph.Prelude.{
  ℕ, suc, ◌+◌, String, ◌≡◌, refl, sym, ap, ◌∙◌, Bool, true, false, not, Option, none, some, List,
  [], ◌∷◌, ◌++◌, arith, eq_iff, length, if◌then◌else◌, not-eq_false,
}
use phigraph.Python.{Runtime}
use phigraph.Python.Values.{
  Json, null, bool, num, other_num, str, arr, obj, Fields, end, field, get, put, without,
  get-put_self, without-put, eq_opt_str, of_opt_str,
}
use phigraph.Python.Errors.{Result, ok, >>=-eq-ok}
use phigraph.EvidenceLedger.Chain.{
  chain_hash, link, rebuild_rows, get_in, or_null, last_hash, linked, Walk, head, broken, is_none,
  walk,
}

-- A walk that reaches its head has passed the test before it.
unbroken :
    (b : Bool) (k n : ℕ) (reason : String) (last : Option String) (rest : Result Walk)
    → (if b then ok (broken k reason) else rest) ≡ ok (head n last)
    → (b ≡ false) × (rest ≡ ok (head n last))
unbroken true k n reason last rest h = cc
unbroken false k n reason last rest h = (refl, h)

pub head-inj :
    {m n : ℕ} {p q : Option String}
    → ◌≡◌ {A = Result Walk} (ok (head m p)) (ok (head n q))
    → (m ≡ n) × (p ≡ q)
head-inj h = (cc, cc)

eq_opt_str_self :
    (previous : Option String) → eq_opt_str (some (of_opt_str previous)) previous ≡ true
eq_opt_str_self none = refl
eq_opt_str_self (some s) = ground (arith, eq_iff s s)

without_twice : (k : String) (d : Fields) → without k (without k d) ≡ without k d
unfolding without
without_twice k end = refl
without_twice k (field j v d) = ground (arith, without_twice k d)

or_null_text : (h : Option Json) (t : String) → eq_opt_str h (some t) ≡ true → or_null h ≡ str t
or_null_text (some (str s)) t e = ground (arith, eq_iff s t)
or_null_text none t e = cc
or_null_text (some null) t e = cc
or_null_text (some (bool b)) t e = cc
or_null_text (some (num n)) t e = cc
or_null_text (some (other_num n)) t e = cc
or_null_text (some (arr n)) t e = cc
or_null_text (some (obj n)) t e = cc

module _ (runtime : Runtime) (c : String) where
  -- The hash that a row has after `previous`.
  abbrev pub expected : Option String → Fields → String
  expected previous row = chain_hash runtime (of_opt_str previous) c row

  -- What the walk checks of a row.
  pub record Passes (previous : Option String) (row : Fields) : Type 0 where
    pub chain : is_none (get "_chain" row) ≡ false
    pub before :
        (b : Option Json) × (get_in (get "_chain" row) "previous_hash" ≡ ok b)
        × (eq_opt_str b previous ≡ true)
    pub own :
        (h : Option Json) × (get_in (get "_chain" row) "hash" ≡ ok h)
        × (eq_opt_str h (some (expected previous row)) ≡ true)

  walk-Passes :
      (k : ℕ) (previous : Option String) (row : Fields) (rows : List Fields)
      → Passes previous row
      → walk runtime c k previous (row ∷ rows)
        ≡ walk runtime c (k + 1) (some (expected previous row)) rows
  unfolding walk
  walk-Passes k previous row rows h = rw (h.chain, h.before.1, h.before.2, h.own.1, h.own.2) refl

  Passes-walk :
      (k n : ℕ) (previous last : Option String) (row : Fields) (rows : List Fields)
      → walk runtime c k previous (row ∷ rows) ≡ ok (head n last)
      → Passes previous row
  unfolding walk
  Passes-walk k n previous last row rows h =
      let one = unbroken _ _ _ _ _ _ h in
      let two = >>=-eq-ok (get_in (get "_chain" row) "previous_hash") _ one.1 in
      let three = unbroken (not (eq_opt_str (two.0) previous)) _ _ _ _ _ two.2 in
      let four = >>=-eq-ok (get_in (get "_chain" row) "hash") _ three.1 in
      let five =
        unbroken (not (eq_opt_str (four.0) (some (expected previous row)))) _ _ _ _ _ four.2 in
      record {
        chain = one.0;
        before = (two.0, two.1, not-eq_false _ three.0);
        own = (four.0, four.1, not-eq_false _ five.0);
      }

  -- The rest of an accepted list is accepted from the next hash.
  pub walk-tail :
      (k n : ℕ) (previous last : Option String) (row : Fields) (rows : List Fields)
      → walk runtime c k previous (row ∷ rows) ≡ ok (head n last)
      → walk runtime c (k + 1) (some (expected previous row)) rows ≡ ok (head n last)
  walk-tail k n previous last row rows h =
      rw (← walk-Passes k previous row rows (Passes-walk k n previous last row rows h)) h

  -- The walk counts the rows, and its head does not depend on where the count starts.
  pub walk-count :
      (k n : ℕ) (previous last : Option String) (rows : List Fields)
      → walk runtime c k previous rows ≡ ok (head n last)
      → n ≡ k + length rows
  unfolding walk
  walk-count k n previous last [] h = omega (arith, (head-inj h).0)
  walk-count k n previous last (row ∷ rows) h =
      omega (arith, walk-count (k + 1) n _ last rows (walk-tail k n previous last row rows h))

  pub walk-shift :
      (k n j : ℕ) (previous last : Option String) (rows : List Fields)
      → walk runtime c k previous rows ≡ ok (head n last)
      → walk runtime c j previous rows ≡ ok (head (j + length rows) last)
  unfolding walk
  walk-shift k n j previous last [] h =
      let e : j ≡ j + 0 = omega arith in rw (← e, (head-inj h).1) refl
  walk-shift k n j previous last (row ∷ rows) h =
      let e : j + 1 + length rows ≡ j + suc (length rows) = omega arith in
      walk-Passes j previous row rows (Passes-walk k n previous last row rows h)
      ∙ rw (← e) (walk-shift (k + 1) n (j + 1) _ last rows (walk-tail k n previous last row rows h))

  pub walk_end :
      (k : ℕ) (previous : Option String) → walk runtime c k previous [] ≡ ok (head k previous)
  unfolding walk
  walk_end k previous = refl

  -- A longer list is walked from where the shorter one ends.
  pub walk-append :
      (k n : ℕ) (previous last : Option String) (xs ys : List Fields)
      → walk runtime c k previous xs ≡ ok (head n last)
      → walk runtime c k previous (xs ++ ys) ≡ walk runtime c n last ys
  unfolding walk
  walk-append k n previous last [] ys h = rw ((head-inj h).0, (head-inj h).1) refl
  walk-append k n previous last (x ∷ xs) ys h =
      walk-Passes k previous x (xs ++ ys) (Passes-walk k n previous last x xs h)
      ∙ walk-append (k + 1) n _ last xs ys (walk-tail k n previous last x xs h)

  -- A row with the link of its predecessor and its own hash passes.
  Passes-link :
      (previous : Option String) (hash : String) (row : Fields)
      → get "_chain" row ≡ some (link (of_opt_str previous) hash)
      → expected previous row ≡ hash
      → Passes previous row
  unfolding get
  Passes-link previous hash row stored same = record {
    chain = rw stored refl;
    before = (some (of_opt_str previous), rw stored refl, eq_opt_str_self previous);
    own = (some (str hash), rw stored refl, rw same (eq_opt_str_self (some hash)));
  }

  expected-put :
      (previous : Option String) (v : Json) (row : Fields)
      → expected previous (put "_chain" v row) ≡ expected previous row
  unfolding chain_hash
  expected-put previous v row = rw without-put refl

  expected-without :
      (previous : Option String) (row : Fields)
      → expected previous (without "_chain" row) ≡ expected previous row
  unfolding chain_hash
  expected-without previous row = rw without_twice refl

  -- A row is accepted after the head that it links to, and its hash is the next head.
  pub walk-linked :
      (k : ℕ) (previous : Option String) (row : Fields)
      → walk runtime c k previous (linked runtime (of_opt_str previous) c row ∷ [])
        ≡ ok (head (k + 1) (some (expected previous row)))
  walk-linked k previous row =
      let same = expected-put previous (link (of_opt_str previous) (expected previous row)) row in
      let stored = linked runtime (of_opt_str previous) c row in
      walk-Passes k previous stored []
        (Passes-link previous (expected previous row) stored (get-put_self _ _ _) same)
      ∙ walk_end (k + 1) _
      ∙ ap (λ h. ok (head (k + 1) (some h))) same

  -- What `_rechain_payload` writes is accepted.
  pub walk-rebuild_rows :
      (k : ℕ) (previous : Option String) (rows : List Fields)
      → (last : Option String) × (walk runtime c k previous (rebuild_rows runtime c previous rows)
          ≡ ok (head (k + length rows) last))
  unfolding walk rebuild_rows
  walk-rebuild_rows k previous [] = (previous, let e : k ≡ k + 0 = omega arith in rw (← e) refl)
  walk-rebuild_rows k previous (row ∷ rows) =
      let hash = expected previous row in
      let stored = put "_chain" (link (of_opt_str previous) hash) (without "_chain" row) in
      let same : expected previous stored ≡ hash =
        expected-put previous _ _ ∙ expected-without previous row in
      let rest = walk-rebuild_rows (k + 1) (some hash) rows in
      let e : k + 1 + length rows ≡ k + suc (length rows) = omega arith in
      (
        rest.0,
        walk-Passes k previous stored (rebuild_rows runtime c (some hash) rows)
              (Passes-link previous hash stored (get-put_self _ _ _) same)
            ∙ ap (λ h. walk runtime c (k + 1) (some h) (rebuild_rows runtime c (some hash) rows))
                same
            ∙ rw (← e) (rest.1),
      )

  last_hash-Passes :
      (previous : Option String) (row : Fields)
      → Passes previous row
      → last_hash (row ∷ []) ≡ ok (str (expected previous row))
  unfolding last_hash
  last_hash-Passes previous row h = rw (h.own.1, or_null_text (h.own.0) _ (h.own.2)) refl

  last_hash-walk_cons :
      (k n : ℕ) (previous last : Option String) (row : Fields) (rows : List Fields)
      → walk runtime c k previous (row ∷ rows) ≡ ok (head n last)
      → last_hash (row ∷ rows) ≡ ok (of_opt_str last)
  unfolding last_hash
  last_hash-walk_cons k n previous last row [] h =
      last_hash-Passes previous row (Passes-walk k n previous last row [] h)
      ∙ ap (λ p. ok (of_opt_str p))
          (head-inj (sym (walk_end (k + 1) _) ∙ walk-tail k n previous last row [] h)).1
  last_hash-walk_cons k n previous last row (next ∷ rows) h =
      last_hash-walk_cons (k + 1) n _ last next rows
        (walk-tail k n previous last row (next ∷ rows) h)

  -- The head of an accepted list is the hash that the next row will link to.
  pub last_hash-walk :
      (k n : ℕ) (last : Option String) (rows : List Fields)
      → walk runtime c k none rows ≡ ok (head n last)
      → last_hash rows ≡ ok (of_opt_str last)
  unfolding last_hash
  last_hash-walk k n last [] h =
      ap (λ p. ok (of_opt_str p)) (head-inj (sym (walk_end k none) ∙ h)).1
  last_hash-walk k n last (row ∷ rows) h = last_hash-walk_cons k n none last row rows h
