-- ===== src/ScopedLedger/Verify/Accepts.antt =====
-- `verify_scoped_chain` accepts every well-formed store, whatever the filters.
use phigraph.Prelude.{
  contains, ℕ, ◌+◌, String, ◌≡◌, refl, sym, ap, subst, ◌∙◌, Bool, true, false, ◌&&◌, Option, none,
  some, List, [], ◌∷◌, arith, eq_iff, length, filter, All,
}
use phigraph.Prelude.Sort.{All-sort_by}
use phigraph.Python.{Runtime}
use phigraph.Python.Errors.{ok}
use phigraph.Python.Dict.{Dict, lookup, values}
use phigraph.Transactions.Collections.{is_chain_linked_collection}
use phigraph.ScopedLedger.Rows.{StoredRow, Head, fits, scope_matches}
use phigraph.ScopedLedger.Validate.{invalid_orphan_head}
use phigraph.ScopedLedger.Store.{StoreState}
use phigraph.ScopedLedger.Append.{in_scope}
use phigraph.ScopedLedger.Query.{rows_of}
use phigraph.ScopedLedger.Invariant.{IsLinked, IsHeadEntry, IsWellFormed}
use phigraph.ScopedLedger.Verify.{
  verified_collections, Filter, VerifyReport, Groups, is_grouped, group_rows, is_seen, group_order,
  head_view, head_group, verify_orphans, is_orphan, is_standalone, sorted_groups, start_report,
  verify_json_state,
}
use phigraph.ScopedLedger.Verify.Groups.{IsGroup, group_rows-AreGroups}
use phigraph.ScopedLedger.Verify.Counts.{
  is_verified, key_of, total-group_rows, total-sort_by, is_seen-sort_by,
}
use phigraph.ScopedLedger.Verify.Loops.{
  entries_found, all-IsSound, verify_groups-accepts, verify_standalone-accepts,
}

verify_orphans-accepts :
    (f : Filter) (groups : Groups) (heads : List Head)
    → All (λ head. (is_orphan f groups head && invalid_orphan_head (head_view head)) ≡ false) heads
    → verify_orphans f groups heads ≡ ok tt
unfolding verify_orphans
verify_orphans-accepts f groups [] h = refl
verify_orphans-accepts f groups (head ∷ heads) h =
    rw h.0 (verify_orphans-accepts f groups heads h.1)

-- Both parts of a conjunction that fails by its second.
and-false : (a b : Bool) → (a ≡ true → b ≡ false) → (a && b) ≡ false
and-false true b h = h refl
and-false false b h = refl

is_orphan_unseen :
    (f : Filter) (groups : Groups) (head : Head)
    → is_orphan f groups head ≡ true
    → (is_seen (head_group head) groups ≡ false)
      × (is_chain_linked_collection head.collection ≡ true)
      × (fits f.collection head.collection ≡ true)
      × (scope_matches head.tenant_id head.project_id f.tenant_id f.project_id ≡ true)
unfolding is_orphan
is_orphan_unseen f groups head h = ground arith

-- What the filter names is looked at, if it is chain-linked.
fits-verified :
    (o : Option String) (c : String)
    → is_chain_linked_collection c ≡ true
    → fits o c ≡ true
    → contains (verified_collections o) c ≡ true
unfolding is_chain_linked_collection
fits-verified none c linked fit = linked
fits-verified (some d) c linked fit = ground (arith, eq_iff c d, eq_iff d c)

unstarted :
    (n : ℕ) (last : Option String)
    → IsLinked 0 none [] n last
    → invalid_orphan_head (record { last_sequence = n; last_chain_hash = last }) ≡ false
unfolding invalid_orphan_head
unstarted n last h = ground arith

module _ (runtime : Runtime) (state : StoreState) (w : IsWellFormed runtime state)
    (f : Filter) where
  abbrev rows : List StoredRow
  rows = values state.records

  -- A head with no rows is at sequence 0 and has no hash.
  orphan_fresh :
      (k : String) (head : Head)
      → IsHeadEntry (k, head)
      → lookup k state.heads ≡ some head
      → is_orphan f (sorted_groups f state) head ≡ true
      → invalid_orphan_head (head_view head) ≡ false
  unfolding rows_of in_scope is_grouped
  orphan_fresh k head entry found orphan =
      let (unseen, linked, fit, scope) = is_orphan_unseen f (sorted_groups f state) head orphan in
      let absent =
        (group_rows-AreGroups f rows).rest (head_group head)
          (sym (is_seen-sort_by (head_group head) (group_rows f [] rows)) ∙ unseen)
          (rw (fits-verified f.collection head.collection linked fit, scope) refl) in
      let at_key = ap (λ j. lookup j state.heads) (sym entry.keyed) ∙ found in
      let chain = rw at_key at (
        w.chains head.tenant_id head.project_id head.collection entry.tenant_free entry.project_free
          linked) in
      unstarted head.last_sequence head.last_chain_hash
        (subst (λ l. IsLinked 0 none l head.last_sequence head.last_chain_hash) absent chain)

  heads_fresh :
      (d : Dict Head)
      → All IsHeadEntry d
      → All (λ e. lookup e.0 state.heads ≡ some e.1) d
      → All
          (λ head.
            (is_orphan f (sorted_groups f state) head && invalid_orphan_head (head_view head))
            ≡ false)
          (values d)
  heads_fresh [] h l = tt
  heads_fresh ((k, head) ∷ d) h l =
      (and-false _ _ (orphan_fresh k head h.0 l.0), heads_fresh d h.1 l.1)

  -- On a well-formed store the verification raises nothing, whatever the filters. It reports that
  -- the store is valid, and as many rows as there are chain-linked rows and rows outside chains
  -- that the filters let through.
  pub verify_json_state-accepts :
      (report : VerifyReport) × (verify_json_state runtime f state ≡ ok report)
      × (report.valid ≡ true)
      × (report.checked
          ≡ length (filter (is_verified f) rows) + length (filter (is_standalone f) rows))
  unfolding verify_json_state
  verify_json_state-accepts =
      let groups = group_rows f [] rows in
      let (report, runs, valid, checked) =
        verify_groups-accepts runtime state w f start_report (sorted_groups f state) (
          All-sort_by group_order key_of (IsGroup f rows) groups
            (group_rows-AreGroups f rows).each) in
      let orphans =
        verify_orphans-accepts f (sorted_groups f state) (values state.heads)
          (heads_fresh state.heads w.heads (entries_found state.heads w.unique_heads)) in
      let standalone =
        verify_standalone-accepts runtime state w f 0 rows (all-IsSound runtime state w) in
      (
        record report { checked = report.checked + (0 + length (filter (is_standalone f) rows)) },
        rw (runs, orphans, standalone) refl,
        valid,
        omega (arith, checked, total-sort_by groups, total-group_rows f [] rows),
      )
