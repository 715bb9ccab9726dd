-- ===== src/Sdk/Graph/Gates.antt =====
-- The gates of a graph run: what lets a run past one.
use navigator_orchestrator_a.Prelude.{
  ◌≡◌, true, false, Option, none, some, [], arith, Dict, Value, truthy, non_empty,
}
use navigator_orchestrator_a.Sdk.Context.{ok}
use navigator_orchestrator_a.Sdk.Templates.{Step}
use navigator_orchestrator_a.Sdk.Events.{World}
use navigator_orchestrator_a.Sdk.Graph.{
  GraphState, NodeOut, update, interrupt, gate_node, gate_is_required, gate_payload_of,
  resolve_path, not_required, produced_by,
}

-- Why a gate was passed with this update.
pub data Passed (step : Step) (pool : Dict Value) : Option Value → GraphState → Type 0 where
  -- a human's verdict, which the gate produces as it is
  approved :
      (verdict : Value) → Passed step pool (some verdict) (produced_by step "human" verdict [])
  -- the gate has a condition, and the run's pool holds something falsy there
  waived :
      (resumed_with : Option Value) (found : Value)
      → non_empty step.when ≡ true
      → resolve_path pool step.when ≡ some found
      → truthy found ≡ false
      → Passed step pool resumed_with (produced_by step "engine" (not_required step) [])

-- What a gate does: it is passed for one of these reasons, or pauses the run.
pub data Gated (step : Step) (pool : Dict Value) : Option Value → NodeOut → Type 0 where
  opens :
      (resumed_with : Option Value) (u : GraphState)
      → Passed step pool resumed_with u
      → Gated step pool resumed_with (update u)
  pauses : Gated step pool none (interrupt (gate_payload_of step pool))

asked :
    (step : Step) (resumed_with : Option Value) (state : GraphState) (w : World)
    → gate_is_required step state.pool ≡ true
    → (out : NodeOut) × (gate_node step resumed_with state w ≡ (ok out, w))
      × Gated step state.pool resumed_with out
unfolding gate_node
asked step none state w on = (interrupt (gate_payload_of step state.pool), ground arith, pauses)
asked step (some verdict) state w on =
    let u = produced_by step "human" verdict [] in
    (update u, ground arith, opens (some verdict) u (approved verdict))
