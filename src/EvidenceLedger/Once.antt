-- ===== src/EvidenceLedger/Once.antt =====
-- `register_scoped_record_once` of src/phigraph/core_v3/ledger.py, called twice in a row.
use phigraph.Prelude.{
  String, ◌≡◌, ◌≢◌, refl, sym, ap, ◌∙◌, Bool, true, false, not, Option, none, some, List, [], ◌∷◌,
  ◌++◌, arith, ◌==◌, eq_iff, contains, Bool-cases, inl, inr, if◌then◌else◌,
}
use phigraph.Prelude.Sort.{Occurs, All-Occurs}
use phigraph.Python.{Runtime}
use phigraph.Python.Values.{Json, str, Fields, get, get-put, get-put_self}
use phigraph.Python.Errors.{Result, ok, ◌>>=◌, >>=-eq-ok}
use phigraph.Python.Dict.{insert}
use phigraph.EvidenceLedger.Chain.{
  Payload, collections, read_all, rows_at, rows_or_none, last_hash, chained, item_at, same_id,
  linked,
}
use phigraph.EvidenceLedger.Registers.{CallScope, with_scope}
use phigraph.EvidenceLedger.Extensions.{
  allowed, in_call_scope, find_scoped, once, once_row, register_scoped_record_once,
}
use phigraph.EvidenceLedger.Validity.{
  HasAll-read_all, rows_or_none-read_all, rows_or_none-insert_self,
}
use phigraph.EvidenceLedger.Writes.{allowed-Occurs, ok-pair_snd}
use phigraph.EvidenceLedger.Runs.{saved-ok}

-- The search reads the id of the row only.
find_scoped-id :
    (key : String) (row row' : Fields) (s : CallScope) (rows : List Fields)
    → get key row ≡ get key row'
    → find_scoped key row s rows ≡ find_scoped key row' s rows
unfolding find_scoped
find_scoped-id key row row' s [] h = refl
find_scoped-id key row row' s (x ∷ rows) h = rw (h, find_scoped-id key row row' s rows h) refl

-- A row that the search passes by does not end it.
abbrev passed : CallScope → Fields → Bool → Result (Option Fields) → Result (Option Fields)
passed s x same rest =
    if not same
    then rest
    else (in_call_scope s (get "scope" x) >>= λ here. if here then ok (some x) else rest)

nothing_found : {x : Fields} → ◌≡◌ {A = Result (Option Fields)} (ok (some x)) (ok none) → ⊥
nothing_found h = cc

ok-pair_fst :
    {x y : Fields} {a b : Bool} {p q : Payload}
    → ◌≡◌ {A = Result ((Fields × Bool) × Payload)} (ok ((x, a), p)) (ok ((y, b), q))
    → x ≡ y
ok-pair_fst h = cc

ok-stored :
    {x y : Fields} {p q : Payload}
    → ◌≡◌ {A = Result (Fields × Payload)} (ok (x, p)) (ok (y, q))
    → x ≡ y
ok-stored h = cc

ok-file :
    {x y : Fields} {p q : Payload}
    → ◌≡◌ {A = Result (Fields × Payload)} (ok (x, p)) (ok (y, q))
    → p ≡ q
ok-file h = cc

-- The rows of a collection that were just written.
rows_at-insert :
    (c : String) (rows : List Fields) (p : Payload)
    → Occurs c collections
    → rows_at (read_all collections (insert c rows p)) c ≡ ok rows
rows_at-insert c rows p o =
    All-Occurs
      (λ j.
        rows_at (read_all collections (insert c rows p)) j
        ≡ ok (rows_or_none (read_all collections (insert c rows p)) j))
      collections (HasAll-read_all collections (insert c rows p)) o
    ∙ ap ok
        (rows_or_none-read_all collections c (insert c rows p) ∙ rows_or_none-insert_self c rows p)

passed-none :
    (s : CallScope) (x : Fields) (same : Bool) (rest other : Result (Option Fields))
    (out : Result (Option Fields))
    → passed s x same rest ≡ ok none
    → (rest ≡ ok none → other ≡ out)
    → passed s x same other ≡ out
passed-none s x false rest other out h step = step h
passed-none s x true rest other out h step = elim (Bool-cases here.0) [
  | inl yes_here ↦ absurd (nothing_found (rw yes_here at here.2))
  | inr elsewhere ↦ rw (here.1, elsewhere) (step (rw elsewhere at here.2))
]
  where
    here :
        (b : Bool) × (in_call_scope s (get "scope" x) ≡ ok b)
        × ((if b then ok (some x) else rest) ≡ ok none)
    here = >>=-eq-ok (in_call_scope s (get "scope" x)) _ h

-- After a row of the scope with the id was put behind rows that have none, the search finds it.
find_scoped-append :
    (key : String) (row stored : Fields) (id : String) (s : CallScope) (rows : List Fields)
    → get key row ≡ some (str id)
    → get key stored ≡ some (str id)
    → in_call_scope s (get "scope" stored) ≡ ok true
    → find_scoped key row s rows ≡ ok none
    → find_scoped key row s (rows ++ stored ∷ []) ≡ ok (some stored)
unfolding find_scoped
find_scoped-append key row stored id s [] at there here e =
    let own : (id == id) ≡ true = (eq_iff id id).1 refl in rw (there, at, own, here) refl
find_scoped-append key row stored id s (x ∷ rows) at there here e =
    let other = >>=-eq-ok (item_at x key) _ e in
    let mine = >>=-eq-ok (item_at row key) _ (other.2) in
    rw (other.1, mine.1)
      (passed-none s x (same_id (other.0) (mine.0)) (find_scoped key row s rows)
        (find_scoped key row s (rows ++ stored ∷ [])) (ok (some stored)) (mine.2)
        (find_scoped-append key row stored id s rows at there here))

-- What is stored has the scope and the id.
stored_scope :
    (runtime : Runtime) (previous : Json) (c : String) (s : CallScope) (row : Fields)
    → in_call_scope s (get "scope" (linked runtime previous c (with_scope s row))) ≡ ok true
unfolding get in_call_scope
stored_scope runtime previous c s row =
    let tenant : (s.tenant_id == s.tenant_id) ≡ true = (eq_iff _ _).1 refl in
    let project : (s.project_id == s.project_id) ≡ true = (eq_iff _ _).1 refl in
    rw (get-put, get-put_self, tenant, project) refl

stored_id :
    (runtime : Runtime) (previous : Json) (c key : String) (s : CallScope) (row : Fields)
    → key ≢ "scope"
    → key ≢ "_chain"
    → get key (linked runtime previous c (with_scope s row)) ≡ get key row
stored_id runtime previous c key s row hs hc =
    let one : ("_chain" == key) ≡ false =
      ground (arith, eq_iff "_chain" key, λ (e : "_chain" ≡ key). hc (sym e)) in
    let two : ("scope" == key) ≡ false =
      ground (arith, eq_iff "scope" key, λ (e : "scope" ≡ key). hs (sym e)) in
    rw (get-put, one, get-put, two) refl

-- The record is there: the call returns it and writes nothing.
once_row-found :
    (runtime : Runtime) (c : String) (row existing : Fields) (key : String) (s : CallScope)
    (file p : Payload) (rows : List Fields)
    → rows_at p c ≡ ok rows
    → find_scoped key row s rows ≡ ok (some existing)
    → once_row runtime c row key s file p ≡ ok ((existing, false), file)
unfolding once_row
once_row-found runtime c row existing key s file p rows at found = rw (at, found) refl

-- The row that `chained` stores, and the file it makes.
chained-appends :
    (runtime : Runtime) (c : String) (row : Fields) (p file : Payload) (rows : List Fields)
    (stored : Fields)
    → chained runtime c row p rows ≡ ok (stored, file)
    → (previous : Json) × (stored ≡ linked runtime previous c row)
      × (file ≡ insert c (rows ++ stored ∷ []) p)
unfolding chained
chained-appends runtime c row p file rows stored e =
    let previous = >>=-eq-ok (last_hash rows) _ e in
    let same : linked runtime (previous.0) c row ≡ stored = ok-stored (previous.2) in
    let made : insert c (rows ++ linked runtime (previous.0) c row ∷ []) p ≡ file =
      ok-file (previous.2) in
    (previous.0, sym same, rw (← same) (sym made))

-- What a first call leaves, and what its record is.
once-leaves :
    (runtime : Runtime) (c : String) (row stored : Fields) (id key : String) (s : CallScope)
    (file file' : Payload) (made : Bool)
    → contains allowed c ≡ true
    → key ≢ "scope"
    → key ≢ "_chain"
    → get key row ≡ some (str id)
    → once_row runtime c row key s file (read_all collections file) ≡ ok ((stored, made), file')
    → (rows : List Fields) × (rows_at (read_all collections file') c ≡ ok rows)
      × (find_scoped key row s rows ≡ ok (some stored))
unfolding once_row
once-leaves runtime c row stored id key s file file' made permitted hs hc at e =
    let rows = >>=-eq-ok (rows_at (read_all collections file) c) _ e in
    let found = >>=-eq-ok (find_scoped key row s (rows.0)) _ (rows.2) in
    leaves (found.0) (rows.0) (rows.1) (found.1) (found.2)
  where
    leaves :
        (existing : Option Fields) (rows : List Fields)
        → rows_at (read_all collections file) c ≡ ok rows
        → find_scoped key row s rows ≡ ok existing
        → once file existing (chained runtime c (with_scope s row) (read_all collections file) rows)
          ≡ ok ((stored, made), file')
        → (rows : List Fields) × (rows_at (read_all collections file') c ≡ ok rows)
          × (find_scoped key row s rows ≡ ok (some stored))
    leaves (some existing) rows there found k =
        let same : file ≡ file' = ok-pair_snd k in
        let returned : existing ≡ stored = ok-pair_fst k in
        (rows, rw (← same) there, rw (← returned) found)
    leaves none rows there found k =
        let new =
          >>=-eq-ok (chained runtime c (with_scope s row) (read_all collections file) rows) _ k in
        let linked_row =
          chained-appends runtime c (with_scope s row) (read_all collections file) (new.0.1) rows
            (new.0.0) (new.1) in
        let returned : new.0.0 ≡ stored = ok-pair_fst (new.2) in
        let same : new.0.1 ≡ file' = ok-pair_snd (new.2) in
        let is_stored = sym returned ∙ linked_row.1 in
        (
          rows ++ stored ∷ [],
          rw (← same, linked_row.2, ← returned)
              (rows_at-insert c (rows ++ new.0.0 ∷ []) (read_all collections file)
                (allowed-Occurs c permitted)),
          find_scoped-append key row stored id s rows at
              (rw is_stored (stored_id runtime (linked_row.0) c key s row hs hc ∙ at))
              (rw is_stored (stored_scope runtime (linked_row.0) c s row)) found,
        )

-- After `register_scoped_record_once` has returned a record, a call with any row of the same id in
-- the same scope returns that record as not created, and leaves the file as it is. The id is a
-- text, under a key that is not `scope` or `_chain`.
pub register_once_again :
    (runtime : Runtime) (c : String) (row row' stored : Fields) (id key : String) (s : CallScope)
    (file file' : Payload) (made : Bool)
    → contains allowed c ≡ true
    → key ≢ "scope"
    → key ≢ "_chain"
    → get key row ≡ some (str id)
    → get key row' ≡ some (str id)
    → register_scoped_record_once runtime c row key s file ≡ (ok (stored, made), file')
    → register_scoped_record_once runtime c row' key s file' ≡ (ok (stored, false), file')
unfolding register_scoped_record_once
register_once_again runtime c row row' stored id key s file file' made permitted hs hc at at' e =
    let first = saved-ok file _ (rw permitted at e) in
    let left = once-leaves runtime c row stored id key s file file' made permitted hs hc at first in
    let same = find_scoped-id key row row' s (left.0) (at ∙ sym at') in
    rw
      (
        permitted,
        once_row-found runtime c row' stored key s file' _ (left.0) (left.1) (sym same ∙ left.2),
      )
      refl
