-- ===== src/Grdi/Projection/Simulated.antt =====
-- What the projection of a plan tells of its events (src/phigraph/grdi/projection.py).
use phigraph.Prelude.{
  ◌≡◌, ◌↔◌, ◌⊎◌, inl, inr, refl, sym, ap, true, some, List, [], ◌∷◌, arith, Bool-cases,
}
use phigraph.Prelude.Order.{pair_order, str_order}
use phigraph.Prelude.Sort.{Occurs, Occurs-sort_by, sort_by-Occurs}
use phigraph.Python.Values.{str, get}
use phigraph.Grdi.Models.{GatewayDecision, ShadowSimulationState, not_simulated, simulated}
use phigraph.Grdi.Dicts.{simulation_value}
use phigraph.Grdi.Projection.{Event, event_key, is_simulation, replay_events, project_gateway_state}

replay_events-Occurs :
    (e : Event) (events : List Event) (state : ShadowSimulationState)
    → Occurs e events ⊎ (state ≡ simulated)
    → is_simulation e ≡ true
    → replay_events state events ≡ simulated
replay_events-Occurs e [] state (inl o) h = elim o [ ]
replay_events-Occurs e [] state (inr s) h = s
replay_events-Occurs d (e ∷ rest) state (inl (inl m)) h =
    replay_events-Occurs d rest _ (inr (ground (arith, ap is_simulation m))) h
replay_events-Occurs d (e ∷ rest) state (inl (inr o)) h = replay_events-Occurs d rest _ (inl o) h
replay_events-Occurs d (e ∷ rest) state (inr s) h =
    replay_events-Occurs d rest _ (inr (ground arith)) h

Occurs-replay_events :
    (events : List Event)
    → replay_events not_simulated events ≡ simulated
    → (e : Event) × Occurs e events × (is_simulation e ≡ true)
Occurs-replay_events [] h = cc
Occurs-replay_events (e ∷ rest) h = elim (Bool-cases (is_simulation e)) [
  | inl is ↦ (e, inl refl, is)
  | inr other ↦
      let r = Occurs-replay_events rest (rw (sym h) (rw other refl)) in (r.0, inr r.1, r.2)
]

value_simulated :
    (state : ShadowSimulationState)
    → some (str (simulation_value state)) ≡ some (str "SIMULATED")
    → state ≡ simulated
value_simulated simulated h = refl
value_simulated not_simulated h = cc

-- The projection shows a plan as simulated exactly if one of its events, wherever it stands, is of
-- type SIMULATION_RECORDED.
pub project_gateway_state-simulated :
    (g : GatewayDecision) (events : List Event)
    → (get "simulation_state" (project_gateway_state g events) ≡ some (str "SIMULATED"))
      ↔ ((e : Event) × Occurs e events × (is_simulation e ≡ true))
unfolding project_gateway_state get
project_gateway_state-simulated g events = (
  λ h.
      let r = Occurs-replay_events _ (value_simulated _ h) in
      (r.0, sort_by-Occurs (pair_order str_order str_order) event_key r.0 events r.1, r.2),
  λ r.
      let o = Occurs-sort_by (pair_order str_order str_order) event_key r.0 events r.1 in
      rw (replay_events-Occurs r.0 _ not_simulated (inl o) r.2) refl,
)
