-- ===== src/Sdk/Graph/SameRun.antt =====
-- A graph run of a template without gates, and without judges, is the sequential run.
use navigator_orchestrator_a.Prelude.{
  String, ◌≡◌, refl, sym, subst, ◌∙◌, ap, inl, inr, List, [], ◌∷◌, ◌++◌, Dict, Value, none, map,
  length, All, nat, suc, ◌<◌,
}
use navigator_orchestrator_a.Sdk.Context.{ok, Result-cases}
use navigator_orchestrator_a.Sdk.Templates.{Step, Template, Requirement, hook_names}
use navigator_orchestrator_a.Sdk.Templates.Shapes.{IsDistinct}
use navigator_orchestrator_a.Sdk.Events.{
  started, succeeded, Origin, World, M, ◌>>=◌, pure, record_row, clashes,
}
use navigator_orchestrator_a.Sdk.Preflight.{missing_requirements, backend_requirements}
use navigator_orchestrator_a.Sdk.Runner.{
  Setting, StepRecord, RunResult, checked, record_names, run_steps, lift, closed, result, preflight,
  run_template,
}
use navigator_orchestrator_a.Sdk.Runner.Completion.{record_row-OneRow}
use navigator_orchestrator_a.Sdk.Runner.Success.{preflight-ok}
use navigator_orchestrator_a.Sdk.Judge.{Model}
use navigator_orchestrator_a.Sdk.Graph.{
  GraphState, Node, recorder_names, StateGraph, start, end, attached_before, attached_after,
  make_node, finished, LangGraph, build_graph, check_placements, finish, initial,
  run_template_graph, result_of,
}
use navigator_orchestrator_a.Sdk.Graph.Rows.{
  record_row-agree, bind-agree, bind-agree_on, checked-agree,
}
use navigator_orchestrator_a.Sdk.Graph.Chain.{path, plan, build_graph-plan, ArePlain, TakesNodes}
use navigator_orchestrator_a.Sdk.Graph.Equivalence.{
  run_chain, Tame, state_of, finishes, nodes_of, run_chain-run_steps,
}

-- LangGraph runs a chain of nodes of plain and distinct names, at least one and fewer than its bound
-- on the steps of a run, one after the other up to an interrupt, on a thread without a checkpoint;
-- where a node interrupts, with a checkpointer.
abbrev pub RunsChains : LangGraph → Type 0
RunsChains langgraph =
    (ns : List (String × Node)) (state : GraphState) (w : World)
    → ArePlain (map (λ n. n.0) ns)
    → IsDistinct (map (λ n. n.0) ns)
    → 0 < length ns
    → length ns < langgraph.recursion_limit
    → langgraph.invoke (record { nodes = ns; edges = path start (map (λ n. n.0) ns ++ end ∷ []) })
        state w
      ≡ run_chain ns state w

pub plan-nodes_of :
    (origin : Origin) (setting : Setting) (model : Model) (steps : List Step)
    → plan origin setting model [] steps ≡ nodes_of origin setting steps
unfolding plan nodes_of attached_before attached_after
plan-nodes_of origin setting model [] = refl
plan-nodes_of origin setting model (step ∷ steps) =
    ap (λ l. (step.name, make_node origin setting step) ∷ l)
      (plan-nodes_of origin setting model steps)

pub names-nodes_of :
    (origin : Origin) (setting : Setting) (steps : List Step)
    → map (λ n. n.0) (nodes_of origin setting steps) ≡ map (λ s. s.name) steps
unfolding nodes_of
names-nodes_of origin setting [] = refl
names-nodes_of origin setting (step ∷ steps) =
    ap (λ l. step.name ∷ l) (names-nodes_of origin setting steps)

pub length-nodes_of :
    (origin : Origin) (setting : Setting) (steps : List Step)
    → length (nodes_of origin setting steps) ≡ length steps
unfolding nodes_of
length-nodes_of origin setting [] = refl
length-nodes_of origin setting (step ∷ steps) = ap suc (length-nodes_of origin setting steps)

-- The names of the steps are plain and distinct, and they are as many as a run may have.
pub record Chainable (langgraph : LangGraph) (template : Template) : Type 0 where
  pub plain : ArePlain (hook_names template)
  pub distinct : IsDistinct (hook_names template)
  pub some_step : 0 < length template.steps
  pub few : length template.steps < langgraph.recursion_limit

module _ (langgraph : LangGraph) (takes : TakesNodes langgraph) (origin : Origin)
    (setting : Setting) (model : Model) (template : Template)
    (fit : Chainable langgraph template) where
  -- The graph that the template makes.
  unfoldable pub chained : List (String × Node)
  chained = nodes_of origin setting template.steps

  pub chain_graph : StateGraph
  unfolding chained
  chain_graph = record { nodes = chained; edges = path start (map (λ n. n.0) chained ++ end ∷ []) }

  pub build_graph-chained : build_graph langgraph origin setting model template [] ≡ ok chain_graph
  unfolding chain_graph chained check_placements hook_names
  build_graph-chained =
      let ns = plan origin setting model [] template.steps in
      let same : ns ≡ chained = plan-nodes_of origin setting model template.steps in
      let named : hook_names template ≡ map (λ n. n.0) ns =
        sym (ap (map (λ n. n.0)) same ∙ names-nodes_of origin setting template.steps) in
      build_graph-plan langgraph origin setting model template [] takes refl
        (subst ArePlain named fit.plain) (subst IsDistinct named fit.distinct)
      ∙ ap
          (λ (l : List (String × Node)).
            ok (record { nodes = l; edges = path start (map (λ n. n.0) l ++ end ∷ []) }))
          same

  pub invoke-chained :
      (u : World)
      → RunsChains langgraph
      → u.ctx.notes ≡ []
      → langgraph.invoke chain_graph (initial u.ctx.params) u
        ≡ run_chain chained (state_of u.ctx.params [] u) u
  unfolding chain_graph chained hook_names
  invoke-chained u law clean =
      let named = sym (names-nodes_of origin setting template.steps) in
      let long = sym (length-nodes_of origin setting template.steps) in
      law chained (initial u.ctx.params) u (subst ArePlain named fit.plain)
        (subst IsDistinct named fit.distinct) (subst (λ n. 0 < n) long fit.some_step)
        (subst (λ n. n < langgraph.recursion_limit) long fit.few)
      ∙ ap
          (λ (n : List String).
            run_chain chained (record { pool = u.ctx.params; notes = n; steps = [] }) u)
          (sym clean)

pub preflight-agree :
    (origin : Origin) (setting : Setting) (template : Template) (w : World)
    → preflight recorder_names origin setting template w
      ≡ preflight record_names origin setting template w
unfolding preflight
preflight-agree origin setting template w =
    let next : List String → List Requirement → M (Unit {0}) = λ names credentials.
      checked names origin (missing_requirements (template.requires ++ credentials) setting.env)
        (template.requires ++ credentials) in
    bind-agree (lift (backend_requirements setting.env template setting.backends))
      (lift (backend_requirements setting.env template setting.backends)) (next recorder_names)
      (next record_names) w refl
      (λ credentials u. checked-agree origin _ (template.requires ++ credentials) u)

finish-closed :
    (origin : Origin) (template : Template) (pool : Dict Value) (done : List StepRecord) (w : World)
    → finish origin template (finished (state_of pool done w)) w
      ≡ closed origin template (pool, done) w
unfolding finish closed
finish-closed origin template pool done w =
    let given : Dict Value = ("steps", nat (length done)) ∷ [] in
    bind-agree (record_row recorder_names origin "run" succeeded given [])
      (record_row record_names origin "run" succeeded given [])
      (λ _. pure (result_of origin template (state_of pool done w) "" none))
      (λ _. pure (result origin template pool done w.ctx.notes)) w
      (unfold clashes in
        record_row-agree recorder_names record_names origin "run" succeeded given [] w refl)
      (λ _ u. unfold result_of result in refl)

finishes-closed :
    (origin : Origin) (template : Template) (m : M (Dict Value × List StepRecord)) (w : World)
    → ((m >>= finishes) >>= finish origin template) w ≡ (m >>= closed origin template) w
finishes-closed origin template m w = elim (Result-cases (m w).0) [
  | inl (found, q) ↦
      rw (q, ◌>>=◌) (rw (q, ◌>>=◌) (finish-closed origin template found.0 found.1 (m w).1))
  | inr (x, q) ↦ rw (q, ◌>>=◌) (rw (q, ◌>>=◌) refl)
]

module _ (langgraph : LangGraph) (takes : TakesNodes langgraph) (law : RunsChains langgraph)
    (origin : Origin) (setting : Setting) (model : Model) (template : Template)
    (tame : All (Tame setting) template.steps) (fit : Chainable langgraph template) where
  abbrev graph : StateGraph
  graph = chain_graph langgraph takes origin setting model template fit

  -- The steps of the sequential run.
  steps : M (Dict Value × List StepRecord)
  steps u = run_steps origin setting template.steps u.ctx.params [] u

  invoke-steps :
      (u : World)
      → u.ctx.notes ≡ []
      → langgraph.invoke graph (initial u.ctx.params) u ≡ (steps >>= finishes) u
  unfolding chained steps
  invoke-steps u clean =
      invoke-chained langgraph takes origin setting model template fit u law clean
      ∙ run_chain-run_steps origin setting template.steps u.ctx.params [] u tame

  -- From the graph on.
  tail-agree :
      (u : World)
      → u.ctx.notes ≡ []
      → (lift (build_graph langgraph origin setting model template []) >>= λ g.
            (λ w. langgraph.invoke g (initial w.ctx.params) w) >>= finish origin template)
          u
        ≡ (steps >>= closed origin template) u
  tail-agree u clean =
      ap
        (λ r.
          (lift r >>= λ g.
          (λ w. langgraph.invoke g (initial w.ctx.params) w) >>= finish origin template)
            u)
        (build_graph-chained langgraph takes origin setting model template fit)
      ∙ bind-agree (λ w. langgraph.invoke graph (initial w.ctx.params) w) (steps >>= finishes)
          (finish origin template) (finish origin template) u (invoke-steps u clean) (λ _ _. refl)
      ∙ finishes-closed origin template steps u

-- The graph runner is the sequential runner, where both apply. If LangGraph takes nodes of new and
-- plain names and runs a chain of them one after the other, reducing their updates, then on a
-- template that has no gate, with no judges, which has a step and fewer than LangGraph's bound on
-- the steps of a run, whose steps have plain and distinct names (not empty, without `:` or `|`, not
-- beginning with two underscores, and no key of the state) and whose hooks only add to the notes
-- and put no name of a recorder's parameter in the detail, a graph run from a context without notes
-- is the sequential run: the same result or the same exception, the same rows, and the same context.
pub run_template_graph-run_template :
    (langgraph : LangGraph) (origin : Origin) (setting : Setting) (model : Model)
    (template : Template) (w : World)
    → TakesNodes langgraph
    → RunsChains langgraph
    → All (Tame setting) template.steps
    → Chainable langgraph template
    → w.ctx.notes ≡ []
    → run_template_graph langgraph origin setting model template [] w
      ≡ run_template origin setting template w
unfolding run_template_graph run_template steps
run_template_graph-run_template langgraph origin setting model template w takes law tame fit clean =
    let begin : List String → M (Unit {0}) = λ names.
      record_row names origin "run" started (("steps", nat (length template.steps)) ∷ []) [] in
    let by_graph : M RunResult =
      lift (build_graph langgraph origin setting model template []) >>= λ g.
      (λ u. langgraph.invoke g (initial u.ctx.params) u) >>= finish origin template in
    let in_order : M RunResult =
      (λ u. run_steps origin setting template.steps u.ctx.params [] u) >>= closed origin template in
    bind-agree_on (begin recorder_names) (begin record_names)
      (λ _. preflight recorder_names origin setting template >>= λ _. by_graph)
      (λ _. preflight record_names origin setting template >>= λ _. in_order) w
      (unfold clashes in
        record_row-agree recorder_names record_names origin "run" started _ [] w refl)
      (λ a u e.
        let first = record_row-OneRow record_names origin "run" started _ [] w u a e in
        bind-agree_on (preflight recorder_names origin setting template)
          (preflight record_names origin setting template) (λ _. by_graph) (λ _. in_order) u
          (preflight-agree origin setting template u)
          (λ b x f.
            let (ready, pre) = preflight-ok origin setting template u x b f in
            tail-agree langgraph takes law origin setting model template tame fit x
              (ap (λ c. c.notes) (pre.context ∙ first.context) ∙ clean)))
