-- ===== src/Grdi/Tests/Plans.antt =====
-- A plan, projected and read back from its rows.
use phigraph.Prelude.{String, ◌≡◌, ◌↔◌, refl, true, Option, some, List, [], ◌∷◌, map, ◌==◌}
use Prim.Native.String.{◌++◌ as text_append}
use phigraph.Prelude.Sort.{Occurs}
use phigraph.Python.Values.{null, str, Fields, end, field, get, put}
use phigraph.Python.Errors.{ok}
use phigraph.ScopedLedger.Tests.Samples.{runtime, show_json}
use phigraph.Grdi.Models.{
  Host, ExecutionRequest, action_hash, check_request, any_blank, GatewayDecision,
  eligible_for_shadow, not_simulated, not_executed,
}
use phigraph.Grdi.Dicts.{gateway_decision_to_dict, request_to_dict}
use phigraph.Grdi.Arguments.{made}
use phigraph.Grdi.Rows.{gateway_from_row, execution_request_from_row}
use phigraph.Grdi.Rows.RoundTrip.{gateway_from_row-to_dict, request_from_row-to_dict}
use phigraph.Grdi.Events.{Uuid, build_gateway_decision_event_record}
use phigraph.Grdi.Projection.{Event, event_of, is_simulation, project_gateway_state}
use phigraph.Grdi.Projection.Simulated.{project_gateway_state-simulated}

abbrev uuid : Uuid
uuid = record { namespace_url = "url"; uuid5 = λ namespace name. text_append "uuid:" name }

abbrev decision : GatewayDecision
decision = record {
  gateway_decision_id = "gd1";
  plan_id = "ep1";
  envelope_id = "de1";
  authority_decision_id = "ad1";
  eligibility = eligible_for_shadow;
  reasons = "all_gateway_conditions_satisfied" ∷ [];
  policy_id = "policy";
  policy_version = "1.0.0";
  simulation_state = not_simulated;
  execution_state = not_executed;
  decided_at = "2026-01-01";
  version = "0.5.0";
}

abbrev row : String → String → Fields
row event_type at = build_gateway_decision_event_record uuid "t" "p" "ep1" "gd1" event_type at "" ""

abbrev event : String → String → String → Event
event event_type at id = record { occurred_at = at; event_id = id; row = row event_type at }

abbrev events : List Event
events =
    event "SIMULATION_RECORDED" "2026-01-03" "uuid:t/p/ep1:SIMULATION_RECORDED"
    ∷ event "GATEWAY_DECISION_CREATED" "2026-01-02" "uuid:t/p/ep1:GATEWAY_DECISION_CREATED"
    ∷ []

recorded :
    event_of (row "SIMULATION_RECORDED" "2026-01-03")
    ≡ some (event "SIMULATION_RECORDED" "2026-01-03" "uuid:t/p/ep1:SIMULATION_RECORDED")
unfolding event_of get build_gateway_decision_event_record
    phigraph.Grdi.Events.deterministic_event_id
recorded = refl

simulated_state :
    get "simulation_state" (project_gateway_state decision events) ≡ some (str "SIMULATED")
unfolding get project_gateway_state phigraph.Prelude.Order.str_le
    build_gateway_decision_event_record
simulated_state = refl

project_gateway_state-simulated_example :
    (get "simulation_state" (project_gateway_state decision events) ≡ some (str "SIMULATED"))
    ↔ ((e : Event) × Occurs e events × (is_simulation e ≡ true))
project_gateway_state-simulated_example = project_gateway_state-simulated decision events

gateway_from_row-to_dict_example :
    gateway_from_row "now"
      (put "scope" (str "s") (put "_chain" null (gateway_decision_to_dict decision)))
    ≡ made decision
gateway_from_row-to_dict_example = gateway_from_row-to_dict "now" null (str "s") decision

abbrev plain : Host
plain = record {
  runtime = runtime;
  strip = λ s. s;
  hmac = λ key text. text;
  compare_digest = λ a b. ok (a == b);
}

abbrev action : Fields
action = field "action" (str "deploy") end

abbrev request : ExecutionRequest
request = record {
  plan_id = "ep1";
  envelope_id = "de1";
  authority_decision_id = "ad1";
  tenant_id = "t";
  project_id = "p";
  requested_by = "alice";
  requested_action = action;
  action_hash = action_hash plain action;
  expected_effects = "deployed" ∷ [];
  rollback_strategy = end;
  created_at = "2026-01-01";
  version = "0.5.0";
}

request_is_accepted : check_request plain request ≡ ok tt
unfolding check_request any_blank action_hash show_json
request_is_accepted = refl

request_from_row-to_dict_example :
    execution_request_from_row plain "now"
      (put "scope" (str "s") (put "_chain" null (request_to_dict request)))
    ≡ made request
request_from_row-to_dict_example =
    request_from_row-to_dict plain "now" null (str "s") request request_is_accepted
