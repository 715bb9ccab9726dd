-- ===== src/Sdk/Graph.antt =====
-- sdk/graph.py: the graph runner. LangGraph is outside the repository: `build_graph` makes the calls
-- of the source, and what `add_node` and `ainvoke` do is an argument, in the record `LangGraph`.
pub mod Chain
pub mod Gates
pub mod Guards
pub mod Rows
pub mod Equivalence
pub mod SameRun
pub mod Pausing
pub mod Paused
mod Twins
mod Tests
use navigator_orchestrator_a.Prelude.{
  ℕ, String, Bool, true, false, not, ◌&&◌, if◌then◌else◌, Option, none, some, is_some, List, [],
  ◌∷◌, ◌++◌, map, length, drop, any, select, Dict, get, put, merge, keys, Value, str, nat, obj, arr,
  items_of, fields_of, field_names, at_keys, truthy, non_empty, one_of, split_at, join, join_all,
  repr, sort_by, str_lt, str_eq,
}
use navigator_orchestrator_a.Sdk.Context.{Ctx, Exn, Result, ok, err, raised, judge_error}
use navigator_orchestrator_a.Sdk.Templates.{
  Step, Template, Executor, gate, same_executor, engine_implemented, executor_name, hook_names,
}
use navigator_orchestrator_a.Sdk.Events.{
  EventStatus, started, succeeded, awaiting_human, resumed, Origin, World, M, ◌>>=◌, ◌>>◌, pure,
  raise, record_row,
}
use navigator_orchestrator_a.Sdk.Runner.{
  StepRecord, RunResult, Setting, Chosen, choose_hook, cleared, execute, step_raised, preflight,
  at_step, lift,
}
use navigator_orchestrator_a.Sdk.Judge
use navigator_orchestrator_a.Sdk.Judge.{
  Judge, Model, Verdict, run_judge, ref, anchors, node_name, summary,
}

-- {key: pool[key] for key in names if key in pool}
shown : List String → Dict Value → Dict Value → Dict Value
shown [] pool found = found
shown (key ∷ names) pool found =
    shown names pool (elim (get pool key) [ none ↦ found | some v ↦ put found key v ])

unfoldable pub gate_payload_of : Step → Dict Value → Dict Value
unfolding shown
gate_payload_of step pool =
    ("step", str step.name)
    ∷ ("doc", str step.doc)
    ∷ ("payload", obj (fields_of (shown step.kwargs pool [])))
    ∷ []

-- _resolve_path; `none` is _UNRESOLVED
unfoldable pub resolve_path : Dict Value → String → Option Value
unfolding at_keys fields_of
resolve_path pool path = at_keys (split_at b'.' path) (obj (fields_of pool))

unfoldable pub gate_is_required : Step → Dict Value → Bool
gate_is_required step pool =
    if not (non_empty step.when)
    then true
    else elim (resolve_path pool step.when) [ none ↦ true | some v ↦ truthy v ]

pub record GraphState : Type 0 where
  pub pool : Dict Value
  pub notes : List String
  pub steps : List StepRecord

-- What a node returns: the parts of the state that it adds, or the payload of an interrupt.
pub data NodeOut : Type 0 where
  update : GraphState → NodeOut
  interrupt : Dict Value → NodeOut

-- A node is run with the value that a resume hands its `interrupt`, if there is one.
abbrev pub Node : Type 0
Node = Option Value → GraphState → M NodeOut

-- The reducers: _merge_pool and _extend.
unfoldable pub reduce : GraphState → GraphState → GraphState
unfolding merge
reduce left right = record {
  pool = merge left.pool right.pool;
  notes = left.notes ++ right.notes;
  steps = left.steps ++ right.steps;
}

-- The parameters of _Recorder.__call__.
abbrev pub recorder_names : List String
recorder_names = "self" ∷ "step" ∷ "status" ∷ []

unfoldable pub produced_by : Step → String → Value → List String → GraphState
produced_by step source value notes = record {
  pool = (step.produces, value) ∷ [];
  notes = notes;
  steps =
      record {
        step = step.name;
        executor = executor_name step.executor;
        source = source;
        produced = step.produces;
      }
      ∷ [];
}

unfoldable pub not_required : Step → Value
not_required step = obj (
    fields_of (
      ("verdict", str "not_required")
      ∷ ("reason", str (join step.when " is not set for this run"))
      ∷ []))

unfoldable pub gate_node : Step → Node
unfolding not_required gate_is_required gate_payload_of
gate_node step resumed_with state =
    if not (gate_is_required step state.pool)
    then pure (update (produced_by step "engine" (not_required step) []))
    else elim resumed_with [
      | none ↦ pure (interrupt (gate_payload_of step state.pool))
      | some verdict ↦ pure (update (produced_by step "human" verdict []))
    ]

unfoldable pub choose_graph : Setting → Step → Dict Value → Result Chosen
choose_graph setting step pool =
    if engine_implemented step.executor
    then ok (record { fn = none; source = "engine"; kwargs = [] })
    else choose_hook setting step pool

unfoldable pub step_node : Origin → Setting → Step → Node
step_node origin setting step resumed_with state = do
  chosen ← lift (choose_graph setting step state.pool)
  before ← (λ w. (ok (length w.ctx.notes), w))
  produced ← execute recorder_names origin setting step chosen state.pool
  added ← (λ w. (ok (drop before w.ctx.notes), w))
  pure (update (produced_by step chosen.source produced added))

-- _make_node
unfoldable pub make_node : Origin → Setting → Step → Node
make_node origin setting step =
    if same_executor step.executor gate then gate_node step else step_node origin setting step

verdict_key : Judge → String
verdict_key j = join "verdict_" j.id

-- The `try` of a judge's node, with its handlers.
unfoldable pub judged : Origin → Model → Judge → Dict Value → M Verdict
judged origin model j pool w =
    let (r, c) = run_judge model j (cleared w.ctx) pool in
    elim r [
      | ok v ↦ (ok v, record w { ctx = c })
      | err e ↦
          (step_raised recorder_names origin (node_name j) e >> raise e) (record w { ctx = c })
    ]

-- What a judge's node returns, with the notes that it added.
unfoldable pub verdict_of : Judge → Verdict → List String → GraphState
unfolding verdict_key
verdict_of j verdict added = record {
  pool = (verdict_key j, obj (fields_of (summary verdict))) ∷ [];
  notes = added;
  steps =
      record { step = node_name j; executor = "judge"; source = ref j; produced = verdict_key j }
      ∷ [];
}

-- The row of a verdict, and the node's update.
unfoldable pub verdict_given : Origin → Judge → ℕ → Verdict → M NodeOut
verdict_given origin j before verdict = do
  (λ w.
      record_row recorder_names origin (node_name j) succeeded []
        (merge (summary verdict) w.ctx.detail) w)
  added ← (λ w. (ok (drop before w.ctx.notes), w))
  pure (update (verdict_of j verdict added))

-- _make_judge_node
unfoldable pub make_judge_node : Origin → Model → Judge → Node
make_judge_node origin model j resumed_with state = do
  record_row recorder_names origin (node_name j) started
      (("executor", str "judge") ∷ ("source", str (ref j)) ∷ []) []
  before ← (λ w. (ok (length w.ctx.notes), w))
  verdict ← judged origin model j state.pool
  verdict_given origin j before verdict

-- The calls that `build_graph` makes of the StateGraph, in their order.
pub record StateGraph : Type 0 where
  pub nodes : List (String × Node)
  pub edges : List (String × String)

abbrev pub start : String
start = "__start__"

abbrev pub end : String
end = "__end__"

-- What `ainvoke` returns: the final state, or the state at a pause and the interrupt's payload.
pub data Outcome : Type 0 where
  finished : GraphState → Outcome
  paused : GraphState → Dict Value → Outcome

-- What the code uses of LangGraph, which is outside the repository: `add_node` of a StateGraph, which
-- gives the nodes that it then has, or raises; how many nodes a run may pass; and a compiled graph:
-- `invoke` from a state, on the thread of a new run, and `resume` with a verdict from what the
-- checkpointer has.
pub record LangGraph : Type 0 where
  pub add_node : List (String × Node) → String → Node → Result (List (String × Node))
  pub recursion_limit : ℕ
  pub invoke : StateGraph → GraphState → M Outcome
  pub resume : StateGraph → Value → M Outcome

-- The next call of the builder, if the last one did not raise.
abbrev pub next :
    Result (StateGraph × String)
    → (StateGraph × String → Result (StateGraph × String))
    → Result (StateGraph × String)
next (ok b) f = f b
next (err e) f = err e

-- add_node(name, node); add_edge(previous, name)
unfoldable pub add : LangGraph → String → Node → StateGraph × String → Result (StateGraph × String)
add langgraph name node (g, previous) = elim (langgraph.add_node g.nodes name node) [
  | err e ↦ err e
  | ok nodes ↦ ok (record { nodes = nodes; edges = g.edges ++ (previous, name) ∷ [] }, name)
]

unfoldable pub add_judges :
    LangGraph → Origin → Model → List Judge → StateGraph × String → Result (StateGraph × String)
add_judges langgraph origin model [] b = ok b
add_judges langgraph origin model (j ∷ js) b =
    next (add langgraph (node_name j) (make_judge_node origin model j) b)
      (add_judges langgraph origin model js)

-- _attached
unfoldable pub attached_before : List Judge → String → List Judge
attached_before judges name = select (λ j. one_of name j.before) judges

unfoldable pub attached_after : List Judge → String → List Judge
attached_after judges name = select (λ j. one_of name j.after) judges

unfoldable pub add_steps :
    LangGraph
    → Origin
    → Setting
    → Model
    → List Judge
    → List Step
    → StateGraph × String
    → Result (StateGraph × String)
add_steps langgraph origin setting model judges [] b = ok b
add_steps langgraph origin setting model judges (step ∷ steps) b =
    let b1 = add_judges langgraph origin model (attached_before judges step.name) b in
    let b2 = next b1 (add langgraph step.name (make_node origin setting step)) in
    let b3 = next b2 (add_judges langgraph origin model (attached_after judges step.name)) in
    next b3 (add_steps langgraph origin setting model judges steps)

judge_error_of : String → Exn
judge_error_of = raised judge_error "JudgeError"

-- The first loop of _check_placements, with the judges seen so far.
clash : List Judge → List Judge → Option Exn
unfolding judge_error_of ref node_name
clash seen [] = none
clash seen (j ∷ js) = elim (select (λ k. str_eq (node_name k) (node_name j)) seen) [
  | [] ↦ clash (j ∷ seen) js
  | k ∷ ks ↦ some (
      judge_error_of (
        join "judges " (
          join (ref k) (
            join " and " (
              join (ref j) (
                join " would both be node " (
                  join (repr (node_name j))
                    ". Two versions of one judge cannot both guard a run: retire the old file, or give one a different id.")))))))
]

-- The second loop.
misplaced : Template → List String → List Judge → Option Exn
unfolding judge_error_of ref node_name anchors hook_names
misplaced template names [] = none
misplaced template names (j ∷ js) =
    let rest = misplaced template names js in
    if not (any (λ a. one_of a names) (anchors j))
    then some (
        judge_error_of (
          join "judge " (
            join (ref j) (
              join " attaches before/after " (
                join (join_all ", " (anchors j)) (
                  join ", none of which " (
                    join (repr template.name) (
                      join " has (steps: " (
                        join (elim names [ [] ↦ "none" | n ∷ ns ↦ join_all ", " (n ∷ ns) ])
                          ")")))))))))
    else if one_of (node_name j) names
    then some (
        judge_error_of (
          join "judge " (
            join (ref j) (
              join " would take the node name " (
                join (repr (node_name j)) (
                  join ", which is already a step in "
                    (join (repr template.name) "; rename one")))))))
    else rest

unfoldable pub check_placements : Template → List Judge → Option Exn
unfolding clash misplaced
check_placements template judges = elim (clash [] judges) [
  | some e ↦ some e
  | none ↦ misplaced template (hook_names template) judges
]

-- graph.add_edge(previous, END)
unfoldable pub close_chain : StateGraph × String → StateGraph
close_chain (g, previous) = record g { edges = g.edges ++ (previous, end) ∷ [] }

unfoldable pub build_graph :
    LangGraph → Origin → Setting → Model → Template → List Judge → Result StateGraph
unfolding add_steps add_judges add close_chain
build_graph langgraph origin setting model template judges =
    elim (check_placements template judges) [
      | some e ↦ err e
      | none ↦
          elim (add_steps langgraph origin setting model judges template.steps
            (record { nodes = []; edges = [] }, start)) [
              | err e ↦ err e
              | ok b ↦ ok (close_chain b)
            ]
    ]

unfoldable pub result_of : Origin → Template → GraphState → String → Option (Dict Value) → RunResult
result_of origin template state paused_at payload = record {
  workflow = template.name;
  run_id = origin.run_id;
  pool = state.pool;
  steps = state.steps;
  notes = state.notes;
  paused_at = paused_at;
  gate = payload;
}

-- str(payload.get("step") or "gate"), for the payloads that gates make
unfoldable pub paused_step : Dict Value → String
paused_step payload = elim (get payload "step") [
  | some (str s) ↦ if non_empty s then s else "gate"
  | _ ↦ "gate"
]

unfoldable pub payload_keys : Dict Value → List String
payload_keys payload = elim (get payload "payload") [ some (obj fs) ↦ field_names fs | _ ↦ [] ]

unfoldable pub finish : Origin → Template → Outcome → M RunResult
unfolding result_of paused_step payload_keys
finish origin template (finished state) = do
  record_row recorder_names origin "run" succeeded (("steps", nat (length state.steps)) ∷ []) []
  pure (result_of origin template state "" none)
finish origin template (paused state payload) = do
  record_row recorder_names origin (paused_step payload) awaiting_human
      (("doc", elim (get payload "doc") [ some d ↦ d | none ↦ str "" ])
        ∷ ("keys", arr (items_of (map (λ k. str k) (sort_by str_lt (payload_keys payload)))))
        ∷ [])
      []
  record_row recorder_names origin "run" awaiting_human (at_step (paused_step payload)) []
  pure (result_of origin template state (paused_step payload) (some payload))

abbrev pub initial : Dict Value → GraphState
initial params = record { pool = params; notes = []; steps = [] }

unfoldable pub run_template_graph :
    LangGraph → Origin → Setting → Model → Template → List Judge → M RunResult
unfolding build_graph finish preflight
run_template_graph langgraph origin setting model template judges = do
  record_row recorder_names origin "run" started (("steps", nat (length template.steps)) ∷ []) []
  preflight recorder_names origin setting template
  g ← lift (build_graph langgraph origin setting model template judges)
  out ← (λ w. langgraph.invoke g (initial w.ctx.params) w)
  finish origin template out

not_resumable : String → Exn
not_resumable run_id = Exn.blocked (
    join "run " (
      join run_id
        " cannot be resumed: it was recorded without a checkpointer, so there is no state to continue from. Runs started with --block are never resumable (SPEC-NSP-003 §2.2.1)."))

-- `checkpointed` is whether there is a checkpointer; the verdict is the answer to the pause. The
-- recorder is a new one, so its counter starts again.
unfoldable pub resume_template_graph :
    LangGraph → Bool → Dict Value → Origin → Setting → Model → Template → List Judge → M RunResult
unfolding not_resumable
resume_template_graph langgraph checkpointed verdict origin setting model template judges w =
    if not checkpointed
    then raise (not_resumable origin.run_id) w
    else (do
      record_row recorder_names origin "run" resumed
          (("verdict", elim (get verdict "verdict") [ some v ↦ v | none ↦ str "approve" ]) ∷ []) []
      g ← lift (build_graph langgraph origin setting model template judges)
      out ← langgraph.resume g (obj (fields_of verdict))
      finish origin template out)
        (record w { seq = 0 })
