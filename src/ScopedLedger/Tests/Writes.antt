-- ===== src/ScopedLedger/Tests/Writes.antt =====
-- Appends and compare-and-sets on the sample store.
use phigraph.Prelude.{
  map, take, drop, String, ◌≡◌, ◌≢◌, refl, true, false, some, none, ◌==◌, arith, eq_iff, with_nul,
  nul_free, List, [], ◌∷◌,
}
use phigraph.Python.Errors.{ok, err, duplicate_canonical_key, version_conflict}
use phigraph.Python.Dict.{lookup, insert}
use phigraph.Python.Values.{Fields, end, get, put, without}
use phigraph.Transactions.Collections.{extract_record_id, is_chain_linked_collection}
use phigraph.Transactions.Hashes.{canonical_scoped_payload_hash}
use phigraph.ScopedLedger.Rows.{row_of, build_row, with_scope, scoped_key, head_key}
use phigraph.ScopedLedger.Rows.Laws.{scoped_key-inj, scoped_key_clash}
use phigraph.ScopedLedger.Store.{empty_state, read_json_state, write_json_state}
use phigraph.ScopedLedger.Append.{
  ScopedRecordResult, json_append, append_at, append_linked, append_standalone, store_linked,
  store_standalone, next_mutable_sequence, in_scope,
}
use phigraph.ScopedLedger.Append.Replay.{json_append_conflict, get_row-json_append}
use phigraph.ScopedLedger.Append.Isolation.{get_row-json_append_other}
use phigraph.ScopedLedger.Cas.{
  CompareAndSetResult, json_cas, cas_at, apply_cas, check_expected, replaced,
}
use phigraph.ScopedLedger.Cas.Versions.{json_cas-get_row}
use phigraph.ScopedLedger.History.{json_cas_twice}
use phigraph.ScopedLedger.Query.{get_row, list_rows, rows_of, to_public}
use phigraph.ScopedLedger.Query.Listing.{list_rows-page}
use phigraph.ScopedLedger.Invariant.{IsWellFormed}
use phigraph.ScopedLedger.Invariant.OfCas.{json_cas-IsWellFormed}
use phigraph.ScopedLedger.Invariant.Operations.{json_append-IsWellFormed}
use phigraph.ScopedLedger.Invariant.RoundTrip.{read_json_state-write_json_state}
use phigraph.ScopedLedger.Abstract.{Write, append_write, cas_write, replay}
use phigraph.ScopedLedger.Abstract.Refines.{view, run_writes, writes_of, run_writes_refines}
use phigraph.ScopedLedger.Tests.Samples.{
  runtime, envelope_request, envelope, changed_envelope, claim_request, claim, closed_claim,
  claim_cas, one_record, two_records, value_or, show_json, show_items, show_fields,
  empty-IsWellFormed,
}

apart : (a b : String) → (a == b) ≡ false → a ≢ b
apart a b h = ground (arith, eq_iff a b)

abbrev envelope_result : ScopedRecordResult
envelope_result =
    value_or (record { value = end; created = false })
      (json_append runtime "now" envelope_request true envelope empty_state).0

abbrev claim_result : CompareAndSetResult
claim_result =
    value_or (record { value = end; updated = false; previous = none })
      (json_cas runtime "later" claim_cas closed_claim two_records).0

envelope_stored :
    (json_append runtime "now" envelope_request true envelope empty_state).0 ≡ ok envelope_result
unfolding json_append append_at append_linked store_linked build_row row_of extract_record_id lookup
    insert get put
envelope_stored = refl

claim_replaced : (json_cas runtime "later" claim_cas closed_claim two_records).0 ≡ ok claim_result
unfolding json_append append_at append_linked append_standalone store_linked store_standalone
    next_mutable_sequence in_scope build_row row_of extract_record_id lookup insert get put json_cas
    cas_at apply_cas check_expected replaced scoped_key head_key is_chain_linked_collection
claim_replaced = refl

one_record-IsWellFormed : IsWellFormed runtime one_record
unfolding is_chain_linked_collection nul_free
one_record-IsWellFormed =
    json_append-IsWellFormed runtime "now" envelope_request
      (record { tenant_free = refl; project_free = refl; known = refl }) envelope empty_state
      (empty-IsWellFormed runtime)

two_records-IsWellFormed : IsWellFormed runtime two_records
unfolding is_chain_linked_collection nul_free
two_records-IsWellFormed =
    json_append-IsWellFormed runtime "now" claim_request
      (record { tenant_free = refl; project_free = refl; known = refl }) claim one_record
      one_record-IsWellFormed

json_append-IsWellFormed_example :
    IsWellFormed runtime
      (json_append runtime "now" claim_request
        (is_chain_linked_collection "claims")
        claim
        one_record).1
unfolding nul_free
json_append-IsWellFormed_example =
    json_append-IsWellFormed runtime "now" claim_request
      (record { tenant_free = refl; project_free = refl; known = refl }) claim one_record
      one_record-IsWellFormed

json_cas-IsWellFormed_example :
    IsWellFormed runtime (json_cas runtime "later" claim_cas closed_claim two_records).1
unfolding nul_free
json_cas-IsWellFormed_example =
    json_cas-IsWellFormed runtime "later" claim_cas
      (record { tenant_free = refl; project_free = refl; known = refl }) closed_claim two_records
      two_records-IsWellFormed

read_json_state-write_json_state_example :
    read_json_state (write_json_state two_records) ≡ two_records
read_json_state-write_json_state_example =
    read_json_state-write_json_state runtime two_records two_records-IsWellFormed

-- What comes after the compare-and-set: a repeated append, one that updates the claim again, and one
-- that raises.
abbrev further : List (String × Write)
further =
    ("later", append_write envelope_request true envelope)
    ∷ ("later", cas_write (record claim_cas { expected_version = some 2 }) claim)
    ∷ ("later", cas_write claim_cas closed_claim)
    ∷ []

json_cas_twice_example :
    json_cas runtime "even later" claim_cas claim
      (run_writes runtime further (json_cas runtime "later" claim_cas closed_claim two_records).1).1
    ≡ (
      err (version_conflict "stale expected_version"),
      (run_writes runtime further
          (json_cas runtime "later" claim_cas closed_claim two_records).1).1,
    )
json_cas_twice_example =
    json_cas_twice runtime "later" claim_cas closed_claim two_records 1 claim_result further
      "even later" claim_cas claim refl refl refl claim_replaced

json_cas-get_row_example :
    (p : Fields) × (claim_result.previous ≡ some p)
    × (get_row "tenant" "project" "claims" "c1" two_records ≡ ok p)
    × (get_row "tenant" "project" "claims" "c1"
          (json_cas runtime "later" claim_cas closed_claim two_records).1
        ≡ ok claim_result.value)
json_cas-get_row_example =
    json_cas-get_row runtime "later" claim_cas closed_claim two_records claim_result claim_replaced

-- What comes after the envelope: a claim, and its update.
abbrev about_claim : List (String × Write)
about_claim =
    ("now", append_write claim_request false claim)
    ∷ ("later", cas_write claim_cas closed_claim)
    ∷ []

other_payload :
    canonical_scoped_payload_hash runtime (with_scope "tenant" "project" envelope)
    ≢ canonical_scoped_payload_hash runtime (with_scope "tenant" "project" changed_envelope)
unfolding canonical_scoped_payload_hash with_scope put without show_json show_items show_fields
other_payload = apart _ _ refl

json_append_conflict_example :
    json_append runtime "later" envelope_request true changed_envelope one_record
    ≡ (err (duplicate_canonical_key "Duplicate canonical key"), one_record)
json_append_conflict_example =
    json_append_conflict runtime "now" envelope_request true envelope empty_state envelope_result
      "later" changed_envelope envelope_stored other_payload

get_row-json_append_example :
    get_row "tenant" "project" "decision_envelopes" "e1" one_record ≡ ok envelope_result.value
get_row-json_append_example =
    get_row-json_append runtime "now" envelope_request true envelope empty_state envelope_result
      envelope_stored

-- Another tenant's record under the same collection and key.
get_row-json_append_other_example :
    get_row "tenant" "project" "decision_envelopes" "e1"
      (json_append runtime "now"
        (record envelope_request { tenant_id = "other" })
        true
        changed_envelope
        one_record).1
    ≡ get_row "tenant" "project" "decision_envelopes" "e1" one_record
unfolding nul_free
get_row-json_append_other_example =
    get_row-json_append_other runtime "now" (record envelope_request { tenant_id = "other" }) true
      changed_envelope one_record "tenant" "project" "decision_envelopes" "e1" refl refl refl refl
      refl refl (λ h. apart "other" "tenant" refl h.0)

scoped_key-inj_example :
    (claim_request.tenant_id ≡ claim_cas.tenant_id)
    × (claim_request.project_id ≡ claim_cas.project_id)
    × (claim_request.collection ≡ claim_cas.collection)
    × (claim_request.canonical_key ≡ claim_cas.canonical_key)
unfolding nul_free
scoped_key-inj_example =
    scoped_key-inj "tenant" "project" "claims" "c1" "tenant" "project" "claims" "c1" refl refl refl
      refl refl refl refl

scoped_key_clash_example :
    scoped_key (with_nul "a" "b") "c" "claims" "k" ≡ scoped_key "a" (with_nul "b" "c") "claims" "k"
scoped_key_clash_example = scoped_key_clash "a" "b" "c" "claims" "k"

list_rows-page_example :
    list_rows "tenant" "project" "decision_envelopes" 10 0 two_records
    ≡ map to_public (take 10 (drop 0 (rows_of "tenant" "project" "decision_envelopes" two_records)))
unfolding nul_free is_chain_linked_collection
list_rows-page_example =
    list_rows-page runtime two_records two_records-IsWellFormed "tenant" "project"
      "decision_envelopes" 10 0 refl refl refl

-- An envelope, another one under its key, a claim, and two compare-and-sets from its first version.
abbrev writes : List (String × Write)
writes =
    ("t0", append_write envelope_request true envelope)
    ∷ ("t1", append_write envelope_request true changed_envelope)
    ∷ ("t2", append_write claim_request false claim)
    ∷ ("t3", cas_write claim_cas closed_claim)
    ∷ ("t4", cas_write claim_cas claim)
    ∷ []

run_writes_refines_example :
    ((run_writes runtime writes empty_state).0
      ≡ (replay runtime (writes_of writes) (view empty_state)).0)
    × (view (run_writes runtime writes empty_state).1
        ≡ (replay runtime (writes_of writes) (view empty_state)).1)
run_writes_refines_example = run_writes_refines runtime writes empty_state
