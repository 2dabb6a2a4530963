-- ===== src/ScopedLedger/Verify/Groups.antt =====
-- The groups of `_verify_json_state`: each holds the rows of its scope and collection, in order.
use mathlib.Core.List.{append-nil, append_assoc, map-append}
use phigraph.Prelude.{
  ◌≡◌, refl, sym, ap, ◌∙◌, Bool, true, false, ◌||◌, List, [], ◌∷◌, ◌++◌, arith, eq_iff, map, filter,
  filter-append, All, All-imp, Bool-cases, inl, inr, ◌↔◌,
}
use phigraph.ScopedLedger.Rows.{StoredRow, ChainRowView}
use phigraph.ScopedLedger.Verify.{
  Filter, GroupKey, Groups, key_eq, group_key, view_of, add_to_group, is_grouped, group_rows,
  is_seen,
}

pub key_eq_iff : (a b : GroupKey) → (key_eq a b ≡ true) ↔ (a ≡ b)
key_eq_iff (a, (b, c)) (d, (e, f)) = ground (arith, eq_iff a d, eq_iff b e, eq_iff c f)

flip : (a b : GroupKey) → key_eq a b ≡ true → key_eq b a ≡ true
flip a b h = (key_eq_iff b a).1 (sym ((key_eq_iff a b).0 h))

abbrev pub matches : GroupKey → StoredRow → Bool
matches key row = key_eq (group_key row) key

-- A group holds what was read so far of its key.
pub record IsGroup (f : Filter) (done : List StoredRow) (g : GroupKey × List ChainRowView)
    : Type 0 where
  pub rows : g.1 ≡ map view_of (filter (matches g.0) done)
  pub grouped : is_grouped f g.0 ≡ true

abbrev pub HasUniqueGroups : Groups → Type 0
HasUniqueGroups [] = Unit
HasUniqueGroups ((k, rows) ∷ groups) = (is_seen k groups ≡ false) × HasUniqueGroups groups

pub record AreGroups (f : Filter) (done : List StoredRow) (groups : Groups) : Type 0 where
  pub each : All (IsGroup f done) groups
  pub unique : HasUniqueGroups groups
  pub rest :
      (key : GroupKey)
      → is_seen key groups ≡ false
      → is_grouped f key ≡ true
      → filter (matches key) done ≡ []

or-false : (a b : Bool) → (a || b) ≡ false → (a ≡ false) × (b ≡ false)
or-false a b h = ground arith

module _ (f : Filter) (done : List StoredRow) (row : StoredRow) where
  filter-matches_one :
      (key : GroupKey)
      → matches key row ≡ true
      → filter (matches key) (done ++ row ∷ []) ≡ filter (matches key) done ++ row ∷ []
  filter-matches_one key h = rw filter-append (rw h refl)

  filter-matches_none :
      (key : GroupKey)
      → matches key row ≡ false
      → filter (matches key) (done ++ row ∷ []) ≡ filter (matches key) done
  filter-matches_none key h = rw filter-append (rw h (append-nil _))

  IsGroup-other :
      (g : GroupKey × List ChainRowView)
      → matches g.0 row ≡ false
      → IsGroup f done g
      → IsGroup f (done ++ row ∷ []) g
  IsGroup-other g h w = record { rows = rw (filter-matches_none g.0 h) w.rows; grouped = w.grouped }

  others :
      (groups : Groups)
      → is_seen (group_key row) groups ≡ false
      → All (IsGroup f done) groups
      → All (IsGroup f (done ++ row ∷ [])) groups
  unfolding is_seen
  others [] h w = tt
  others ((k, rows) ∷ groups) h w = (
    IsGroup-other (k, rows)
        (ground (arith, key_eq_iff k (group_key row), key_eq_iff (group_key row) k)) w.0,
    others groups (ground arith) w.1,
  )

  is_seen-add_to_group :
      (key k : GroupKey) (view : ChainRowView) (groups : Groups)
      → is_seen key (add_to_group k view groups) ≡ (key_eq k key || is_seen key groups)
  unfolding is_seen add_to_group
  is_seen-add_to_group key k view [] = refl
  is_seen-add_to_group key k view ((j, rows) ∷ groups) = ground (
    arith,
    is_seen-add_to_group key k view groups,
    key_eq_iff j k,
    key_eq_iff j key,
    key_eq_iff k key,
  )

  add_to_group_unique :
      (k : GroupKey) (view : ChainRowView) (groups : Groups)
      → HasUniqueGroups groups
      → HasUniqueGroups (add_to_group k view groups)
  unfolding is_seen add_to_group
  add_to_group_unique k view [] h = (refl, tt)
  add_to_group_unique k view ((j, rows) ∷ groups) h = elim (Bool-cases (key_eq j k)) [
    | inl same ↦ rw same h
    | inr other ↦ rw other (
      is_seen-add_to_group j k view groups ∙ ground (arith, key_eq_iff j k, key_eq_iff k j),
      add_to_group_unique k view groups h.1,
    )
  ]

  add_to_group-each :
      (groups : Groups)
      → is_grouped f (group_key row) ≡ true
      → (is_seen (group_key row) groups ≡ false → filter (matches (group_key row)) done ≡ [])
      → HasUniqueGroups groups
      → All (IsGroup f done) groups
      → All (IsGroup f (done ++ row ∷ [])) (add_to_group (group_key row) (view_of row) groups)
  unfolding is_seen add_to_group
  add_to_group-each [] grouped new u w =
      let self = (key_eq_iff (group_key row) (group_key row)).1 refl in
      let held = filter-matches_one (group_key row) self ∙ ap (λ l. l ++ row ∷ []) (new refl) in
      (record { rows = sym (ap (map view_of) held); grouped = grouped }, tt)
  add_to_group-each ((j, rows) ∷ groups) grouped new u w =
      elim (Bool-cases (key_eq j (group_key row))) [
        | inl same ↦ rw same (
          record {
            rows =
                ap (λ l. l ++ view_of row ∷ []) w.0.rows
                ∙ sym (
                    ap (map view_of) (filter-matches_one j (flip j (group_key row) same))
                    ∙ map-append view_of (filter (matches j) done) (row ∷ []));
            grouped = w.0.grouped;
          },
          others groups (rw ((key_eq_iff j (group_key row)).0 same) at u.0) w.1,
        )
        | inr other ↦ rw other (
          IsGroup-other (j, rows)
              (ground (arith, key_eq_iff j (group_key row), key_eq_iff (group_key row) j)) w.0,
          add_to_group-each groups grouped (λ e. new (rw (other, e))) u.1 w.1,
        )
      ]

-- Reading one row more.
AreGroups-add :
    (f : Filter) (done : List StoredRow) (row : StoredRow) (groups : Groups)
    → is_grouped f (group_key row) ≡ true
    → AreGroups f done groups
    → AreGroups f (done ++ row ∷ []) (add_to_group (group_key row) (view_of row) groups)
AreGroups-add f done row groups grouped w = record {
  each =
      add_to_group-each f done row groups grouped (λ e. w.rest (group_key row) e grouped) w.unique
        w.each;
  unique = add_to_group_unique f done row (group_key row) (view_of row) groups w.unique;
  rest = λ key unseen g.
      let (ne, old) =
        or-false (key_eq (group_key row) key) (is_seen key groups) (
          sym (is_seen-add_to_group f done row key (group_key row) (view_of row) groups)
          ∙ unseen) in
      filter-matches_none f done row key ne ∙ w.rest key old g;
}

AreGroups-skip :
    (f : Filter) (done : List StoredRow) (row : StoredRow) (groups : Groups)
    → is_grouped f (group_key row) ≡ false
    → AreGroups f done groups
    → AreGroups f (done ++ row ∷ []) groups
AreGroups-skip f done row groups skipped w = record {
  each = All-imp (λ g h. IsGroup-other f done row g (not_match g.0 h.grouped) h) groups w.each;
  unique = w.unique;
  rest = λ key unseen g. filter-matches_none f done row key (not_match key g) ∙ w.rest key unseen g;
}
  where
    not_match : (key : GroupKey) → is_grouped f key ≡ true → matches key row ≡ false
    not_match key g = elim (Bool-cases (matches key row)) [
      | inl same ↦ let e = (key_eq_iff (group_key row) key).0 same in absurd (cc)
      | inr other ↦ other
    ]

AreGroups-group_rows :
    (f : Filter) (done rows : List StoredRow) (groups : Groups)
    → AreGroups f done groups
    → AreGroups f (done ++ rows) (group_rows f groups rows)
unfolding group_rows
AreGroups-group_rows f done [] groups w = rw (append-nil done) w
AreGroups-group_rows f done (row ∷ rows) groups w = rw (← append_assoc done (row ∷ []) rows) (
    AreGroups-group_rows f (done ++ row ∷ []) rows _
      (elim (Bool-cases (is_grouped f (group_key row))) [
        | inl grouped ↦ rw grouped (AreGroups-add f done row groups grouped w)
        | inr skipped ↦ rw skipped (AreGroups-skip f done row groups skipped w)
      ]))

-- All groups together, for the rows of a store.
pub group_rows-AreGroups :
    (f : Filter) (rows : List StoredRow) → AreGroups f rows (group_rows f [] rows)
unfolding is_seen
group_rows-AreGroups f rows =
    AreGroups-group_rows f [] rows []
      (record { each = tt; unique = tt; rest = λ key unseen g. refl })
