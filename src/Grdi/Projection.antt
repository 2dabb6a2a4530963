-- ===== src/Grdi/Projection.antt =====
-- The state of a plan, from its signed gateway decision and its events
-- (src/phigraph/grdi/projection.py).
pub mod Simulated
use phigraph.Prelude.{String, Bool, Option, none, some, List, [], ◌∷◌, if◌then◌else◌}
use phigraph.Prelude.Order.{pair_order, str_order}
use phigraph.Prelude.Sort.{sort_by}
use phigraph.Python.Values.{
  Json, null, str, arr, obj, Items, nil, cons, Fields, end, field, get, eq_opt_str,
}
use phigraph.Python.Errors.{Result, ok, err, key_error}
use phigraph.Grdi.Models.{
  GatewayDecision, ShadowSimulationState, not_simulated, simulated, not_executed,
}
use phigraph.Grdi.Dicts.{
  simulation_value, execution_value, eligibility_value, gateway_decision_to_dict,
}

-- An event as the projection takes it: its row, with what `sorted` reads of it,
-- `row.get("occurred_at", "")` and `row.get("event_id", "")`. These are texts of every row that the
-- program writes.
pub record Event : Type 0 where
  pub occurred_at : String
  pub event_id : String
  pub row : Fields

-- `row.get(k, "")` where it is a text
abbrev pub text_or_empty : Option Json → Option String
text_or_empty none = some ""
text_or_empty (some (str s)) = some s
text_or_empty _ = none

-- The event that a row is, unless a time or an id is no text.
abbrev pub event_from : Option String → Option String → Fields → Option Event
event_from (some at) (some id) row = some (record { occurred_at = at; event_id = id; row = row })
event_from _ _ row = none

unfoldable pub event_of : Fields → Option Event
event_of row =
    event_from (text_or_empty (get "occurred_at" row)) (text_or_empty (get "event_id" row)) row

abbrev pub event_key : Event → String × String
event_key e = (e.occurred_at, e.event_id)

-- `event.get("event_type") == "SIMULATION_RECORDED"`
abbrev pub is_simulation : Event → Bool
is_simulation e = eq_opt_str (get "event_type" e.row) (some "SIMULATION_RECORDED")

-- The loop of `project_gateway_state`
abbrev pub replay_events : ShadowSimulationState → List Event → ShadowSimulationState
replay_events state [] = state
replay_events state (e ∷ rest) = replay_events (if is_simulation e then simulated else state) rest

abbrev pub state_row : GatewayDecision → ShadowSimulationState → Fields
state_row g simulation = field "simulation_state" (str (simulation_value simulation)) (
    field "execution_state" (str (execution_value g.execution_state))
      (field "eligibility" (str (eligibility_value g.eligibility)) end))

unfoldable pub project_gateway_state : GatewayDecision → List Event → Fields
project_gateway_state g events =
    state_row g
      (replay_events not_simulated (sort_by (pair_order str_order str_order) event_key events))

abbrev pub rows : List Event → Items
rows [] = nil
rows (e ∷ rest) = cons (obj e.row) (rows rest)

-- `d.get(k)` as a value
abbrev pub or_null : Option Json → Json
or_null none = null
or_null (some v) = v

abbrev pub shown : Option Fields → Json
shown none = null
shown (some d) = obj d

abbrev pub flow_state : GatewayDecision → Fields → Json → Fields
flow_state g authority simulation =
    field "verification" (or_null (get "verification_state" authority)) (
      field "authorization" (or_null (get "authorization_state" authority)) (
        field "gateway_eligibility" (str (eligibility_value g.eligibility)) (
          field "simulation" simulation
            (field "execution" (str (execution_value not_executed)) end))))

-- `request["plan_id"]`, and the projection behind it.
abbrev pub with_plan_id : Option Json → (Json → Fields) → Result Fields
with_plan_id none k = err (key_error "plan_id")
with_plan_id (some v) k = ok (k v)

unfoldable pub build_plan_projection :
    (request : Fields) (g : GatewayDecision) (authority : Fields) (events : List Event)
    (shadow_receipt : Option Fields)
    → Result Fields
build_plan_projection request g authority events shadow_receipt =
    let current = project_gateway_state g events in
    let simulation = or_null (get "simulation_state" current) in
    with_plan_id (get "plan_id" request) (λ plan_id. field "plan_id" plan_id (
      field "execution_request" (obj request) (
        field "signed_gateway_decision" (obj (gateway_decision_to_dict g)) (
          field "current_gateway_state" (obj current) (
            field "gateway_events" (arr (rows events)) (
              field "flow_state" (obj (flow_state g authority simulation)) (
                field "gateway_decision" (obj (gateway_decision_to_dict g))
                  (field "shadow_receipt" (shown shadow_receipt) end))))))))
