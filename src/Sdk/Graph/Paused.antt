-- ===== src/Sdk/Graph/Paused.antt =====
-- A run to a gate that returned: where it is paused, and what it did before.
use navigator_orchestrator_a.Prelude.{
  ◌≡◌, refl, sym, ◌∙◌, ap, true, List, [], ◌∷◌, Dict, Value, map, length, nat, str, arr, items_of,
  sort_by, str_lt, non_empty, arith, some, none, get,
}
use navigator_orchestrator_a.Sdk.Context.{ok}
use navigator_orchestrator_a.Sdk.Templates.{Step, Template}
use navigator_orchestrator_a.Sdk.Events.{
  started, awaiting_human, Origin, World, M, ◌>>=◌, pure, record_row,
}
use navigator_orchestrator_a.Sdk.Runner.{
  Setting, StepRecord, RunResult, record_names, run_steps, preflight, at_step,
}
use navigator_orchestrator_a.Sdk.Runner.Completion.{bind-ok, run_steps-StepsRan}
use navigator_orchestrator_a.Sdk.Graph.{
  GraphState, recorder_names, gate_payload_of, paused, paused_step, payload_keys, finish, result_of,
}
use navigator_orchestrator_a.Sdk.Graph.Equivalence.{state_of}
use navigator_orchestrator_a.Sdk.Graph.Pausing.{pauses_at, run_to_gate}

-- A pause returns the state, the step that paused and what it asks.
finish-paused :
    (origin : Origin) (template : Template) (state : GraphState) (payload : Dict Value)
    (w w' : World) (r : RunResult)
    → finish origin template (paused state payload) w ≡ (ok r, w')
    → r ≡ result_of origin template state (paused_step payload) (some payload)
unfolding finish
finish-paused origin template state payload w w' r e =
    let outcome = result_of origin template state (paused_step payload) (some payload) in
    let given : Dict Value =
      ("doc", elim (get payload "doc") [ some d ↦ d | none ↦ str "" ])
      ∷ ("keys", arr (items_of (map (λ k. str k) (sort_by str_lt (payload_keys payload)))))
      ∷ [] in
    let ended =
      record_row recorder_names origin "run" awaiting_human (at_step (paused_step payload)) [] in
    let a =
      bind-ok (record_row recorder_names origin (paused_step payload) awaiting_human given [])
        (λ _. ended >>= λ _. pure outcome) w w' r e in
    let b = bind-ok ended (λ _. pure outcome) a.between w' r a.second in
    let same : outcome ≡ r = ground (arith, b.second) in sym same

-- A run that returned from the gate `g`: paused there, with the steps before it done and no others.
pub record PausedAt (before : List Step) (g : Step) (r : RunResult) : Type 0 where
  pub at_gate : r.paused_at ≡ g.name
  pub done : map (λ s. s.step) r.steps ≡ map (λ s. s.name) before

pub run_to_gate-PausedAt :
    (origin : Origin) (setting : Setting) (template : Template) (before : List Step) (g : Step)
    (w w' : World) (r : RunResult)
    → non_empty g.name ≡ true
    → run_to_gate origin setting template before g w ≡ (ok r, w')
    → PausedAt before g r
unfolding run_to_gate gate_payload_of paused_step result_of get
run_to_gate-PausedAt origin setting template before g w w' r named e =
    let first =
      record_row record_names origin "run" started (("steps", nat (length template.steps)) ∷ [])
        [] in
    let steps : M (Dict Value × List StepRecord) =
      λ x. run_steps origin setting before x.ctx.params [] x in
    let after : M RunResult = steps >>= pauses_at origin template g in
    let checks : M RunResult = preflight record_names origin setting template >>= λ _. after in
    let a = bind-ok first (λ _. checks) w w' r e in
    let b =
      bind-ok (preflight record_names origin setting template) (λ _. after) a.between w' r
        a.second in
    let c = bind-ok steps (pauses_at origin template g) b.between w' r b.second in
    let ran =
      run_steps-StepsRan origin setting before b.between.ctx.params c.value.0 [] c.value.1 b.between
        c.between c.first in
    let made =
      finish-paused origin template (state_of c.value.0 c.value.1 c.between)
        (gate_payload_of g c.value.0) c.between w' r c.second in
    record {
      at_gate = ap (λ x. x.paused_at) made ∙ rw named refl;
      done = ap (λ x. map (λ s. s.step) x.steps) made ∙ ran.records;
    }
