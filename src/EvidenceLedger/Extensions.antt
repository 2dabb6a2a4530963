-- ===== src/EvidenceLedger/Extensions.antt =====
-- `register_scoped_record`, `register_scoped_record_once` and `update_scoped_record` of
-- src/phigraph/core_v3/ledger.py.
use phigraph.Prelude.{
  String, Bool, true, false, not, Option, none, some, List, [], ◌∷◌, contains, if◌then◌else◌,
}
use phigraph.Python.{Runtime}
use phigraph.Python.Values.{Json, obj, Fields, end, get, put, eq_opt_str}
use phigraph.Python.Errors.{Result, ok, err, value_error, key_error, ◌>>=◌}
use phigraph.Python.Dict.{insert}
use phigraph.EvidenceLedger.Chain.{
  Payload, collections, read_all, rows_at, item_at, same_id, get_in, append, chained, saved,
  rechain_payload,
}
use phigraph.EvidenceLedger.Registers.{CallScope, with_scope}

-- The collections that these operations write.
abbrev pub allowed : List String
allowed =
    "decision_envelopes" ∷ "authority_decisions" ∷ "execution_requests" ∷ "gateway_decisions"
    ∷ "shadow_execution_receipts" ∷ "shadow_outcomes" ∷ "replay_reports" ∷ "historical_comparisons"
    ∷ []

-- The scoped row in place of the one with its link.
abbrev pub returned_row : Fields → Result Fields × Payload → Result Fields × Payload
returned_row scoped (err e, file) = (err e, file)
returned_row scoped (ok stored, file) = (ok scoped, file)

-- `if collection not in allowed: raise ...` before the rest.
abbrev pub if_allowed : {A : Type 0} → Bool → Payload → Result A × Payload → Result A × Payload
if_allowed false file outcome = (err (value_error "Unsupported scoped extension collection"), file)
if_allowed true file outcome = outcome

abbrev pub where_allowed : {A : Type 0} → String → Payload → Result A × Payload → Result A × Payload
where_allowed collection file outcome = if_allowed (contains allowed collection) file outcome

unfoldable pub register_scoped_record :
    Runtime → String → Fields → String → CallScope → Payload → Result Fields × Payload
unfolding append
register_scoped_record runtime collection row unique_key s file =
    let scoped = with_scope s row in
    where_allowed collection file
      (returned_row scoped (append runtime collection scoped unique_key file))

-- `scope.get("tenant_id") == tenant_id and scope.get("project_id") == project_id`
unfoldable pub in_call_scope : CallScope → Option Json → Result Bool
in_call_scope s scope = do
  tenant_id ← get_in scope "tenant_id"
  project_id ← get_in scope "project_id"
  ok (
      if eq_opt_str tenant_id (some (s.tenant_id))
      then eq_opt_str project_id (some (s.project_id))
      else false)

-- The first row with the id in the scope.
unfoldable pub find_scoped : String → Fields → CallScope → List Fields → Result (Option Fields)
find_scoped key row s [] = ok none
find_scoped key row s (existing ∷ rows) =
    let rest = find_scoped key row s rows in
    item_at existing key >>= λ other. item_at row key >>= λ id.
    if not (same_id other id)
    then rest
    else (in_call_scope s (get "scope" existing) >>= λ here.
        if here then ok (some existing) else rest)

abbrev pub created : Fields × Payload → (Fields × Bool) × Payload
created (stored, file) = ((stored, true), file)

-- What is found is returned as it is, and nothing is written.
abbrev pub once :
    Payload → Option Fields → Result (Fields × Payload) → Result ((Fields × Bool) × Payload)
once file (some existing) new = ok ((existing, false), file)
once file none new = new >>= λ r. ok (created r)

unfoldable pub once_row :
    Runtime
    → String
    → Fields
    → String
    → CallScope
    → Payload
    → Payload
    → Result ((Fields × Bool) × Payload)
once_row runtime collection row unique_key s file payload = do
  rows ← rows_at payload collection
  existing ← find_scoped unique_key row s rows
  once file existing (chained runtime collection (with_scope s row) payload rows)

unfoldable pub register_scoped_record_once :
    Runtime → String → Fields → String → CallScope → Payload → Result (Fields × Bool) × Payload
unfolding once_row
register_scoped_record_once runtime collection row unique_key s file =
    where_allowed collection file
      (saved file (once_row runtime collection row unique_key s file (read_all collections file)))

-- `existing.get("scope", {})`
abbrev pub scope_or_empty : Option Json → Json
scope_or_empty none = obj end
scope_or_empty (some scope) = scope

abbrev pub replaced : Bool → Fields → List Fields → Result (Fields × List Fields)
replaced true scoped rows = ok (scoped, scoped ∷ rows)
replaced false scoped rows = err (key_error "scoped_record_not_found")

-- The row with its id is found: it is replaced, where it is of the scope.
abbrev pub replaced_here : CallScope → Fields → Fields → List Fields → Result (Fields × List Fields)
replaced_here s existing row rows = in_call_scope s (get "scope" existing) >>= λ here.
    replaced here (put "scope" (scope_or_empty (get "scope" existing)) row) rows

abbrev pub after_row : Fields → Fields × List Fields → Result (Fields × List Fields)
after_row existing (scoped, rows) = ok (scoped, existing ∷ rows)

-- The scoped row, and the rows with it in the place of the first one with its id.
unfoldable pub update_rows :
    String → Fields → CallScope → List Fields → Result (Fields × List Fields)
update_rows key row s [] = item_at row key >>= λ id. err (key_error "scoped_record_not_found")
update_rows key row s (existing ∷ rows) =
    let rest = update_rows key row s rows in
    item_at existing key >>= λ other. item_at row key >>= λ id.
    if same_id other id then replaced_here s existing row rows else (rest >>= after_row existing)

unfoldable pub update_row :
    Runtime → String → Fields → String → CallScope → Payload → Result (Fields × Payload)
update_row runtime collection row unique_key s payload = do
  rows ← rows_at payload collection
  (scoped, rows') ← update_rows unique_key row s rows
  ok (scoped, rechain_payload runtime collections (insert collection rows' payload))

unfoldable pub update_scoped_record :
    Runtime → String → Fields → String → CallScope → Payload → Result Fields × Payload
unfolding update_row
update_scoped_record runtime collection row unique_key s file =
    where_allowed collection file
      (saved file (update_row runtime collection row unique_key s (read_all collections file)))
