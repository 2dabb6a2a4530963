-- ===== src/ScopedLedger/Verify/Loops.antt =====
-- The loops of `_verify_json_state` over the groups and over the rows outside chains, on a
-- well-formed store.
use phigraph.Prelude.{
  ℕ, ◌+◌, ◌≤◌, String, ◌≡◌, refl, sym, ap, ◌∙◌, Bool, true, false, Option, none, some, List, [],
  ◌∷◌, arith, eq_iff, map, length, length-map, filter, All, All-imp, All-filter, Bool-cases,
  Option-cases, inl, inr, nul_free,
}
use phigraph.Python.{Runtime}
use phigraph.Python.Errors.{ok}
use phigraph.Python.Dict.{Dict, lookup, values, insert}
use phigraph.Transactions.Collections.{is_chain_linked_collection}
use phigraph.ScopedLedger.Rows.{StoredRow, ChainRowView, head_key, chain_scope_label}
use phigraph.ScopedLedger.Rows.Laws.{IsSound}
use phigraph.ScopedLedger.Validate.{validate_linked_chain_group, validate_sorted_rows}
use phigraph.ScopedLedger.Store.{StoreState}
use phigraph.ScopedLedger.Append.{in_scope}
use phigraph.ScopedLedger.Query.{rows_of}
use phigraph.ScopedLedger.Invariant.{
  HasUniqueKeys, IsLinked, head_sequence, head_hash, IsWellFormed,
}
use phigraph.ScopedLedger.Verify
use phigraph.ScopedLedger.Verify.{
  Filter, VerifyReport, GroupKey, Groups, key_eq, group_key, view_of, is_grouped, group_rows,
  is_seen, group_order, opt_head_view, head_view, head_group, add_to_group, verify_groups,
  verify_orphans, verify_standalone, is_orphan, is_standalone, sorted_groups, start_report,
  verify_json_state,
}
use phigraph.ScopedLedger.Verify.Rows.{validate_standalone_row-IsSound}
use phigraph.ScopedLedger.Verify.Chains.{validate_linked_chain_group-IsLinked}
use phigraph.ScopedLedger.Verify.Groups.{IsGroup, key_eq_iff, matches}
use phigraph.ScopedLedger.Verify.Counts.{total}

All-filter_holds {ℓ} :
    {A : Type ℓ} (p : A → Bool) (xs : List A) → All (λ x. p x ≡ true) (filter p xs)
All-filter_holds p [] = tt
All-filter_holds p (x ∷ xs) = elim (Bool-cases (p x)) [
  | inl in_it ↦ rw in_it (in_it, All-filter_holds p xs)
  | inr out ↦ rw out (All-filter_holds p xs)
]

pub All-values {κ} :
    {V : Type 0} (P : V → Type κ) (d : Dict V) → All (λ e. P e.1) d → All P (values d)
All-values P [] h = tt
All-values P (e ∷ d) h = (h.0, All-values P d h.1)

IsLinked-le :
    (n : ℕ) (prev : Option String) (rows : List StoredRow) (m : ℕ) (last : Option String)
    → IsLinked n prev rows m last
    → n ≤ m
IsLinked-le n prev [] m last h = omega arith
IsLinked-le n prev (row ∷ rows) m last h =
    omega (arith, IsLinked-le (n + 1) (some row.chain_hash) rows m last h.2)

-- In a dict every entry is found under its own key.
pub entries_found :
    {V : Type 0} (d : Dict V) → HasUniqueKeys d → All (λ e. lookup e.0 d ≡ some e.1) d
unfolding lookup
entries_found [] u = tt
entries_found ((k, v) ∷ d) u = (
  ground (arith, eq_iff k k),
  All-imp {P = λ e. lookup e.0 d ≡ some e.1} (λ e h. ground (arith, eq_iff k e.0)) d
      (entries_found d u.1),
)

no_chain : (row : StoredRow) (rows : List StoredRow) → IsLinked 0 none (row ∷ rows) 0 none → ⊥
no_chain row rows h = omega (arith, IsLinked-le 1 (some row.chain_hash) rows 0 none h.2)

standalone_unlinked :
    (f : Filter) (row : StoredRow) → is_standalone f row ≡ true → row.chain_linked ≡ false
unfolding is_standalone
standalone_unlinked f row h = ground arith

module _ (runtime : Runtime) (state : StoreState) (w : IsWellFormed runtime state) where
  pub all-IsSound : All (IsSound runtime) (values state.records)
  all-IsSound =
      All-values (IsSound runtime) state.records (All-imp (λ e h. h.sound) state.records w.rows)

  -- The rows of one key against the head that is stored for it.
  group_accepted :
      (t p c : String) (rows : List StoredRow)
      → All (IsSound runtime) rows
      → All (λ r. matches (t, (p, c)) r ≡ true) rows
      → is_chain_linked_collection c ≡ true
      → (nul_free t ≡ true
          → nul_free p ≡ true
          → IsLinked 0 none rows
              (head_sequence (lookup (head_key t p c) state.heads))
              (head_hash (lookup (head_key t p c) state.heads)))
      → validate_linked_chain_group runtime
          (map view_of rows)
          (opt_head_view (lookup (head_key t p c) state.heads))
        ≡ ok (length rows)
  unfolding validate_linked_chain_group validate_sorted_rows
  group_accepted t p c [] sound here linked chains = refl
  group_accepted t p c (row ∷ rows) sound here linked chains =
      let own = (key_eq_iff (group_key row) (t, (p, c))).0 here.0 in
      let chain =
        chains (ap (λ k. nul_free k.0) (sym own) ∙ sound.0.tenant_free)
          (ap (λ k. nul_free k.1.0) (sym own) ∙ sound.0.project_free) in
      elim (Option-cases (lookup (head_key t p c) state.heads)) [
        | inl missing ↦ absurd (no_chain row rows (rw missing at chain))
        | inr (head, at_head) ↦ rw at_head (
            validate_linked_chain_group-IsLinked runtime row rows head.last_sequence
              head.last_chain_hash sound
              (All-imp {P = λ r. matches (t, (p, c)) r ≡ true}
                (λ r m.
                  ap (λ k. is_chain_linked_collection k.1.1)
                    ((key_eq_iff (group_key r) (t, (p, c))).0 m)
                  ∙ linked)
                (row ∷ rows) here)
              (rw at_head at chain))
      ]

  IsGroup-accepted :
      (f : Filter) (t p c : String) (rows : List ChainRowView)
      → IsGroup f (values state.records) ((t, (p, c)), rows)
      → is_chain_linked_collection c ≡ true
      → validate_linked_chain_group runtime rows
          (opt_head_view (lookup (head_key t p c) state.heads))
        ≡ ok (length rows)
  unfolding rows_of in_scope
  IsGroup-accepted f t p c rows g linked =
      let mine = filter (matches (t, (p, c))) (values state.records) in
      rw g.rows (
        group_accepted t p c mine (All-filter (IsSound runtime) _ _ all-IsSound)
          (All-filter_holds (matches (t, (p, c))) (values state.records)) linked
          (λ ht hp. w.chains t p c ht hp linked)
        ∙ ap ok (sym (length-map mine view_of)))

  pub verify_groups-accepts :
      (f : Filter) (report : VerifyReport) (groups : Groups)
      → All (IsGroup f (values state.records)) groups
      → (out : VerifyReport) × (verify_groups runtime state report groups ≡ ok out)
        × (out.valid ≡ report.valid)
        × (out.checked ≡ report.checked + total groups)
  unfolding verify_groups
  verify_groups-accepts f report [] g = (report, refl, refl, omega arith)
  verify_groups-accepts f report (((t, (p, c)), rows) ∷ groups) g =
      elim (Bool-cases (is_chain_linked_collection c)) [
        | inr skipped ↦
            let (out, runs, valid, checked) = verify_groups-accepts f report groups g.1 in
            (out, rw skipped runs, valid, rw skipped (omega arith))
        | inl linked ↦
            let head = opt_head_view (lookup (head_key t p c) state.heads) in
            let next : VerifyReport = record report {
              checked = report.checked + length rows;
              heads = insert (chain_scope_label t p c) (Verify.head_hash head) report.heads;
            } in
            let (out, runs, valid, checked) = verify_groups-accepts f next groups g.1 in
            (
              out,
              rw (linked, IsGroup-accepted f t p c rows g.0 linked) runs,
              valid,
              rw linked (omega arith),
            )
      ]

  pub verify_standalone-accepts :
      (f : Filter) (n : ℕ) (rows : List StoredRow)
      → All (IsSound runtime) rows
      → verify_standalone runtime f n rows ≡ ok (n + length (filter (is_standalone f) rows))
  unfolding verify_standalone
  verify_standalone-accepts f n [] s = ap ok (omega arith)
  verify_standalone-accepts f n (row ∷ rows) s = elim (Bool-cases (is_standalone f row)) [
    | inr skipped ↦ rw skipped (verify_standalone-accepts f n rows s.1)
    | inl checked ↦
        rw
          (
            checked,
            validate_standalone_row-IsSound runtime row s.0
                (sym s.0.flag ∙ standalone_unlinked f row checked),
          )
          (verify_standalone-accepts f (n + 1) rows s.1 ∙ ap ok (omega arith))
  ]
