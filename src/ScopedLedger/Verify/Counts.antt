-- ===== src/ScopedLedger/Verify/Counts.antt =====
-- How many rows the groups of `_verify_json_state` hold, and that sorting them loses none.
use phigraph.Prelude.{
  ℕ, ◌+◌, ◌≡◌, refl, ap, ◌∙◌, Bool, ◌&&◌, ◌||◌, List, [], ◌∷◌, arith, length, length-append, filter,
  Bool-cases, inl, inr, if◌then◌else◌,
}
use phigraph.Prelude.Sort.{sort_by, insert_by}
use phigraph.Transactions.Collections.{is_chain_linked_collection}
use phigraph.ScopedLedger.Rows.{StoredRow, ChainRowView}
use phigraph.ScopedLedger.Verify.{
  Filter, GroupKey, Groups, key_eq, group_key, view_of, is_grouped, group_rows, is_seen,
  group_order, add_to_group,
}
use phigraph.ScopedLedger.Verify.Groups.{key_eq_iff}

-- What is counted of the groups: the rows of the chain-linked ones.
abbrev pub group_size : GroupKey → List ChainRowView → ℕ
group_size (t, (p, c)) rows = if is_chain_linked_collection c then length rows else 0

abbrev pub total : Groups → ℕ
total [] = 0
total ((k, rows) ∷ groups) = group_size k rows + total groups

total-add_to_group :
    (k : GroupKey) (view : ChainRowView) (groups : Groups)
    → total (add_to_group k view groups) ≡ group_size k (view ∷ []) + total groups
unfolding add_to_group
total-add_to_group k view [] = refl
total-add_to_group k view (((t, (p, c)), rows) ∷ groups) =
    elim (Bool-cases (key_eq (t, (p, c)) k)) [
      | inl same ↦
          rw (same, ← (key_eq_iff (t, (p, c)) k).0 same)
            (ground (arith, length-append rows (view ∷ [])))
      | inr other ↦ rw other (omega (arith, total-add_to_group k view groups))
    ]

abbrev pub is_verified : Filter → StoredRow → Bool
is_verified f row = is_grouped f (group_key row) && is_chain_linked_collection row.collection

pub total-group_rows :
    (f : Filter) (groups : Groups) (rows : List StoredRow)
    → total (group_rows f groups rows) ≡ total groups + length (filter (is_verified f) rows)
unfolding group_rows
total-group_rows f groups [] = omega arith
total-group_rows f groups (row ∷ rows) = elim (Bool-cases (is_grouped f (group_key row))) [
  | inl grouped ↦ rw grouped (
      ground (
        arith,
        total-group_rows f (add_to_group (group_key row) (view_of row) groups) rows,
        total-add_to_group (group_key row) (view_of row) groups,
      ))
  | inr skipped ↦ rw skipped (total-group_rows f groups rows)
]

abbrev pub key_of : GroupKey × List ChainRowView → GroupKey
key_of g = g.0

total-insert_by :
    (g : GroupKey × List ChainRowView) (groups : Groups)
    → total (insert_by group_order key_of g groups) ≡ total (g ∷ groups)
total-insert_by g [] = refl
total-insert_by g (h ∷ groups) = elim (Bool-cases (group_order.le (key_of g) (key_of h))) [
  | inl before ↦ rw before refl
  | inr after ↦ rw after (omega (arith, total-insert_by g groups))
]

pub total-sort_by : (groups : Groups) → total (sort_by group_order key_of groups) ≡ total groups
total-sort_by [] = refl
total-sort_by (g ∷ groups) =
    omega (arith, total-insert_by g (sort_by group_order key_of groups), total-sort_by groups)

is_seen-insert_by :
    (key : GroupKey) (g : GroupKey × List ChainRowView) (groups : Groups)
    → is_seen key (insert_by group_order key_of g groups) ≡ is_seen key (g ∷ groups)
unfolding is_seen
is_seen-insert_by key g [] = refl
is_seen-insert_by key g (h ∷ groups) = elim (Bool-cases (group_order.le (key_of g) (key_of h))) [
  | inl before ↦ rw before refl
  | inr after ↦ rw after (ground (arith, is_seen-insert_by key g groups))
]

pub is_seen-sort_by :
    (key : GroupKey) (groups : Groups)
    → is_seen key (sort_by group_order key_of groups) ≡ is_seen key groups
unfolding is_seen
is_seen-sort_by key [] = refl
is_seen-sort_by key (g ∷ groups) =
    is_seen-insert_by key g (sort_by group_order key_of groups)
    ∙ ap (λ b. key_eq g.0 key || b) (is_seen-sort_by key groups)
