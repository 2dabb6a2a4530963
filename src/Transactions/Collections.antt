-- ===== src/Transactions/Collections.antt =====
-- The collections of src/phigraph/core_v3/transactions.py, what each admits, and record ids.
pub mod Names
use phigraph.Prelude.{
  String, Bool, false, Option, none, some, List, [], ◌∷◌, ◌++◌, ◌==◌, contains, not, if◌then◌else◌,
  filter,
}
use Prim.Native.String.{◌++◌ as text_append}
use phigraph.Python.{Runtime}
use phigraph.Python.Values.{Json, str, Fields, get}
use phigraph.Python.Errors.{Result, ok, err, value_error, raise_if}
use phigraph.Python.Dict.{Dict, lookup}

abbrev pub scoped_collections : List String
scoped_collections =
    "decision_envelopes" ∷ "authority_decisions" ∷ "execution_requests" ∷ "gateway_decisions"
    ∷ "gateway_decision_events" ∷ "shadow_execution_receipts" ∷ "shadow_outcomes" ∷ "replay_reports"
    ∷ "historical_comparisons" ∷ []

abbrev pub legacy_migratable_scoped_collections : List String
legacy_migratable_scoped_collections =
    filter (λ collection. not (collection == "gateway_decision_events")) scoped_collections

abbrev pub gateway_decision_event_types : List String
gateway_decision_event_types = "GATEWAY_DECISION_CREATED" ∷ "SIMULATION_RECORDED" ∷ []

abbrev pub cas_allowed_collections : List String
cas_allowed_collections =
    "claims" ∷ "evidence" ∷ "verifications" ∷ "actions" ∷ "policy_decisions" ∷ "outcomes" ∷ []

abbrev pub chain_linked_collections : List String
chain_linked_collections = scoped_collections

abbrev pub append_scoped_collections : List String
append_scoped_collections = scoped_collections ++ cas_allowed_collections

abbrev pub read_scoped_collections : List String
read_scoped_collections = scoped_collections ++ cas_allowed_collections

abbrev pub collection_record_id_keys : Dict String
collection_record_id_keys =
    ("decision_envelopes", "envelope_id")
    ∷ ("authority_decisions", "authority_decision_id")
    ∷ ("execution_requests", "plan_id")
    ∷ ("gateway_decisions", "gateway_decision_id")
    ∷ ("gateway_decision_events", "event_id")
    ∷ ("shadow_execution_receipts", "receipt_id")
    ∷ ("shadow_outcomes", "outcome_id")
    ∷ ("replay_reports", "replay_id")
    ∷ ("historical_comparisons", "comparison_id")
    ∷ ("claims", "claim_id")
    ∷ ("evidence", "evidence_id")
    ∷ ("verifications", "verification_id")
    ∷ ("actions", "action_id")
    ∷ ("policy_decisions", "decision_id")
    ∷ ("outcomes", "outcome_id")
    ∷ []

abbrev pub legacy_canonical_key_fields : Dict String
legacy_canonical_key_fields =
    ("decision_envelopes", "envelope_id")
    ∷ ("authority_decisions", "authority_decision_id")
    ∷ ("execution_requests", "plan_id")
    ∷ ("gateway_decisions", "plan_id")
    ∷ ("shadow_execution_receipts", "plan_id")
    ∷ ("shadow_outcomes", "shadow_receipt_id")
    ∷ ("replay_reports", "manifest_hash")
    ∷ ("historical_comparisons", "comparison_key")
    ∷ []

unfoldable pub is_chain_linked_collection : String → Bool
is_chain_linked_collection collection = contains chain_linked_collections collection

-- Which of its three flags the caller sets; with none of them the default applies.
pub data Access : Type 0 where
  cas append read scoped : Access

abbrev pub allowed_collections : Access → List String
allowed_collections cas = cas_allowed_collections
allowed_collections append = append_scoped_collections
allowed_collections read = read_scoped_collections
allowed_collections scoped = scoped_collections

unfoldable pub validate_collection : Access → String → Result (Unit {0})
validate_collection access collection =
    raise_if (not (contains (allowed_collections access) collection))
      (value_error "Unsupported collection for scoped operation")

-- `str(v)`
unfoldable pub str_value : Runtime → Json → String
str_value runtime (str s) = s
str_value runtime v = runtime.str_of v

require_id : Runtime → Option Json → Result String
require_id runtime none = err (value_error "Missing required field")
require_id runtime (some v) = ok (str_value runtime v)

id_conflicts : Runtime → Option Json → String → Bool
unfolding str_value
id_conflicts runtime none record_id = false
id_conflicts runtime (some v) record_id = not (str_value runtime v == record_id)

record_id_by : Runtime → Option String → Fields → Option String → Result String
unfolding require_id id_conflicts
record_id_by runtime none r given = err (value_error "No record id mapping for collection")
record_id_by runtime (some id_key) r none = require_id runtime (get id_key r)
record_id_by runtime (some id_key) r (some record_id) =
    if id_conflicts runtime (get id_key r) record_id
    then err (value_error "conflicts with explicit record_id")
    else ok record_id

unfoldable pub extract_record_id : Runtime → String → Fields → Option String → Result String
unfolding record_id_by
extract_record_id runtime collection r given =
    record_id_by runtime (lookup collection collection_record_id_keys) r given

unfoldable pub gateway_event_canonical_key : String → String → Result String
gateway_event_canonical_key plan_id event_type =
    if not (contains gateway_decision_event_types event_type)
    then err (value_error "unsupported gateway decision event type")
    else ok (text_append plan_id (text_append ":" event_type))
