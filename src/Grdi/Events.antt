-- ===== src/Grdi/Events.antt =====
-- The events of a gateway decision (src/phigraph/grdi/events.py).
use phigraph.Prelude.{String}
use Prim.Native.String.{◌++◌ as text_append}
use phigraph.Python.Errors.{Result}
use phigraph.Python.Values.{str, obj, Fields, end, field}
use phigraph.Transactions.Collections.{gateway_event_canonical_key}

-- The module `uuid`: `str(uuid5(namespace, name))`, and `str(NAMESPACE_URL)`.
pub record Uuid : Type 0 where
  pub namespace_url : String
  pub uuid5 : String → String → String

-- `GRDI_GATEWAY_EVENTS_PROTOCOL_VERSION`
abbrev pub gateway_events_version : String
gateway_events_version = "0.1.0"

-- `GRDI_EVENT_NAMESPACE`
unfoldable pub event_namespace : Uuid → String
event_namespace u = u.uuid5 u.namespace_url "https://phi47.cl/grdi/gateway-decision-events/v0.1.0"

unfoldable pub deterministic_event_id : Uuid → String → String → String → String → String
deterministic_event_id u tenant_id project_id plan_id event_type = u.uuid5 (event_namespace u) (
    text_append tenant_id (
      text_append "/" (
        text_append project_id
          (text_append "/" (text_append plan_id (text_append ":" event_type))))))

unfoldable pub build_gateway_decision_event_record :
    (u : Uuid)
    (tenant_id project_id plan_id gateway_decision_id event_type occurred_at source_record_id
      shadow_receipt_id : String)
    → Fields
build_gateway_decision_event_record u tenant_id project_id plan_id gateway_decision_id event_type
      occurred_at source_record_id shadow_receipt_id =
    field "event_id" (str (deterministic_event_id u tenant_id project_id plan_id event_type)) (
      field "plan_id" (str plan_id) (
        field "gateway_decision_id" (str gateway_decision_id) (
          field "event_type" (str event_type) (
            field "occurred_at" (str occurred_at) (
              field "tenant_id" (str tenant_id) (
                field "project_id" (str project_id) (
                  field "source_record_id" (str source_record_id) (
                    field "shadow_receipt_id" (str shadow_receipt_id) (
                      field "version" (str gateway_events_version) (
                        field "scope"
                          (obj (
                            field "tenant_id" (str tenant_id)
                              (field "project_id" (str project_id) end)))
                          end))))))))))

abbrev pub gateway_event_canonical : String → String → Result String
gateway_event_canonical plan_id event_type = gateway_event_canonical_key plan_id event_type
