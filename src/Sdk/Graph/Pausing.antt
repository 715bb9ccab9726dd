-- ===== src/Sdk/Graph/Pausing.antt =====
-- A graph run that comes to a gate: what ran before it, and nothing behind it.
use navigator_orchestrator_a.Prelude.{
  String, ◌≡◌, refl, ◌∙◌, ap, inl, inr, true, false, List, [], ◌∷◌, ◌++◌, Dict, Value, length, All,
  nat, non_empty,
}
use navigator_orchestrator_a.Sdk.Context.{Ctx, ok, Result-cases}
use navigator_orchestrator_a.Sdk.Templates.{Step, Template, gate, same_executor}
use navigator_orchestrator_a.Sdk.Events.{
  started, Origin, World, M, ◌>>=◌, ◌>>◌, record_row, clashes,
}
use navigator_orchestrator_a.Sdk.Runner.{
  Setting, StepRecord, RunResult, record_names, run_steps, lift, preflight,
}
use navigator_orchestrator_a.Sdk.Runner.Completion.{record_row-OneRow}
use navigator_orchestrator_a.Sdk.Runner.Success.{preflight-ok}
use navigator_orchestrator_a.Sdk.Judge.{Model}
use navigator_orchestrator_a.Sdk.Graph.{
  GraphState, Node, recorder_names, StateGraph, make_node, gate_node, gate_is_required,
  gate_payload_of, Outcome, paused, LangGraph, build_graph, finish, initial, run_template_graph,
}
use navigator_orchestrator_a.Sdk.Graph.Rows.{record_row-agree, bind-agree, bind-agree_on}
use navigator_orchestrator_a.Sdk.Graph.Chain.{TakesNodes}
use navigator_orchestrator_a.Sdk.Graph.Equivalence.{
  run_chain, Tame, state_of, goes_on, nodes_of, run_chain-append,
}
use navigator_orchestrator_a.Sdk.Graph.SameRun.{
  RunsChains, Chainable, chained, chain_graph, build_graph-chained, invoke-chained, preflight-agree,
}

-- The end of a run at the gate `g`, with the pool and the records so far.
abbrev pub pauses_at : Origin → Template → Step → Dict Value × List StepRecord → M RunResult
pauses_at origin template g found w =
    finish origin template (paused (state_of found.0 found.1 w) (gate_payload_of g found.0)) w

-- The sequential run of the steps before the gate, and the pause.
unfoldable pub run_to_gate : Origin → Setting → Template → List Step → Step → M RunResult
run_to_gate origin setting template before g = do
  record_row record_names origin "run" started (("steps", nat (length template.steps)) ∷ []) []
  preflight record_names origin setting template
  found ← (λ w. run_steps origin setting before w.ctx.params [] w)
  pauses_at origin template g found

nodes_of-append :
    (origin : Origin) (setting : Setting) (xs ys : List Step)
    → nodes_of origin setting (xs ++ ys) ≡ nodes_of origin setting xs ++ nodes_of origin setting ys
unfolding nodes_of
nodes_of-append origin setting [] ys = refl
nodes_of-append origin setting (x ∷ xs) ys =
    ap (λ l. (x.name, make_node origin setting x) ∷ l) (nodes_of-append origin setting xs ys)

-- A gate that is required interrupts the chain.
run_chain-gate :
    (origin : Origin) (setting : Setting) (g : Step) (rest : List Step) (state : GraphState)
    (w : World)
    → same_executor g.executor gate ≡ true
    → gate_is_required g state.pool ≡ true
    → run_chain (nodes_of origin setting (g ∷ rest)) state w
      ≡ (ok (paused state (gate_payload_of g state.pool)), w)
unfolding nodes_of make_node gate_node
run_chain-gate origin setting g rest state w is_gate asks = rw is_gate (rw asks refl)

-- The pause, as a graph run returns it.
abbrev at_gate : Step → Dict Value × List StepRecord → M Outcome
at_gate g found w = (ok (paused (state_of found.0 found.1 w) (gate_payload_of g found.0)), w)

at_gate-pauses :
    (origin : Origin) (template : Template) (g : Step) (m : M (Dict Value × List StepRecord))
    (w : World)
    → ((m >>= at_gate g) >>= finish origin template) w ≡ (m >>= pauses_at origin template g) w
at_gate-pauses origin template g m w = elim (Result-cases (m w).0) [
  | inl (found, q) ↦ rw (q, ◌>>=◌) (rw (q, ◌>>=◌) refl)
  | inr (x, q) ↦ rw (q, ◌>>=◌) (rw (q, ◌>>=◌) refl)
]

goes_on-pauses :
    (origin : Origin) (setting : Setting) (template : Template) (g : Step) (rest : List Step)
    (m : M (Dict Value × List StepRecord)) (w : World)
    → same_executor g.executor gate ≡ true
    → ((found : Dict Value × List StepRecord) (u : World)
        → m w ≡ (ok found, u)
        → gate_is_required g found.0 ≡ true)
    → ((m >>= goes_on (nodes_of origin setting (g ∷ rest))) >>= finish origin template) w
      ≡ (m >>= pauses_at origin template g) w
goes_on-pauses origin setting template g rest m w is_gate asks =
    bind-agree (m >>= goes_on (nodes_of origin setting (g ∷ rest))) (m >>= at_gate g)
      (finish origin template) (finish origin template) w
      (bind-agree_on m m (goes_on (nodes_of origin setting (g ∷ rest))) (at_gate g) w refl
        (λ found u e.
          run_chain-gate origin setting g rest (state_of found.0 found.1 u) u is_gate
            (asks found u e)))
      (λ _ _. refl)
    ∙ at_gate-pauses origin template g m w

-- Whatever pool the steps before it leave, from this context, the gate asks a person.
abbrev pub Asked : Origin → Setting → List Step → Step → Ctx → Type 0
Asked origin setting before g c =
    (u v : World) (found : Dict Value × List StepRecord)
    → u.ctx ≡ c
    → run_steps origin setting before u.ctx.params [] u ≡ (ok found, v)
    → gate_is_required g found.0 ≡ true

module _ (langgraph : LangGraph) (takes : TakesNodes langgraph) (law : RunsChains langgraph)
    (origin : Origin) (setting : Setting) (model : Model) (template : Template)
    (before rest : List Step) (g : Step) (split : template.steps ≡ before ++ g ∷ rest)
    (tame : All (Tame setting) before) (is_gate : same_executor g.executor gate ≡ true) (c : Ctx)
    (asks : Asked origin setting before g c) (fit : Chainable langgraph template) where
  abbrev graph : StateGraph
  graph = chain_graph langgraph takes origin setting model template fit

  -- The sequential run of the steps before the gate.
  steps : M (Dict Value × List StepRecord)
  steps u = run_steps origin setting before u.ctx.params [] u

  invoke-goes_on :
      (u : World)
      → u.ctx.notes ≡ []
      → langgraph.invoke graph (initial u.ctx.params) u
        ≡ (steps >>= goes_on (nodes_of origin setting (g ∷ rest))) u
  unfolding chained steps
  invoke-goes_on u clean =
      invoke-chained langgraph takes origin setting model template fit u law clean
      ∙ ap (λ (ns : List (String × Node)). run_chain ns (state_of u.ctx.params [] u) u)
          (ap (λ l. nodes_of origin setting l) split
            ∙ nodes_of-append origin setting before (g ∷ rest))
      ∙ run_chain-append origin setting before u.ctx.params [] (nodes_of origin setting (g ∷ rest))
          u tame

  tail-pauses :
      (u : World)
      → u.ctx.notes ≡ []
      → u.ctx ≡ c
      → (lift (build_graph langgraph origin setting model template []) >>= λ x.
            (λ w. langgraph.invoke x (initial w.ctx.params) w) >>= finish origin template)
          u
        ≡ (steps >>= pauses_at origin template g) u
  unfolding steps
  tail-pauses u clean same =
      ap
        (λ r.
          (lift r >>= λ x.
          (λ w. langgraph.invoke x (initial w.ctx.params) w) >>= finish origin template)
            u)
        (build_graph-chained langgraph takes origin setting model template fit)
      ∙ bind-agree (λ w. langgraph.invoke graph (initial w.ctx.params) w)
          (steps >>= goes_on (nodes_of origin setting (g ∷ rest))) (finish origin template)
          (finish origin template) u (invoke-goes_on u clean) (λ _ _. refl)
      ∙ goes_on-pauses origin setting template g rest steps u is_gate
          (λ found v e. asks u v found same e)

-- As below, for a gate with a condition that always asks, after these steps.
pub run_template_graph-run_to_gate-Asked :
    (langgraph : LangGraph) (origin : Origin) (setting : Setting) (model : Model)
    (template : Template) (before rest : List Step) (g : Step) (w : World)
    → TakesNodes langgraph
    → RunsChains langgraph
    → template.steps ≡ before ++ g ∷ rest
    → All (Tame setting) before
    → same_executor g.executor gate ≡ true
    → Asked origin setting before g w.ctx
    → Chainable langgraph template
    → w.ctx.notes ≡ []
    → run_template_graph langgraph origin setting model template [] w
      ≡ run_to_gate origin setting template before g w
unfolding run_template_graph run_to_gate steps
run_template_graph-run_to_gate-Asked langgraph origin setting model template before rest g w takes
      law split tame is_gate asks fit clean =
    let begin : List String → M (Unit {0}) = λ names.
      record_row names origin "run" started (("steps", nat (length template.steps)) ∷ []) [] in
    let by_graph : M RunResult =
      lift (build_graph langgraph origin setting model template []) >>= λ x.
      (λ u. langgraph.invoke x (initial u.ctx.params) u) >>= finish origin template in
    let in_order : M RunResult =
      (λ u. run_steps origin setting before u.ctx.params [] u) >>= pauses_at origin template g in
    bind-agree_on (begin recorder_names) (begin record_names)
      (λ _. preflight recorder_names origin setting template >>= λ _. by_graph)
      (λ _. preflight record_names origin setting template >>= λ _. in_order) w
      (unfold clashes in
        record_row-agree recorder_names record_names origin "run" started _ [] w refl)
      (λ a u e.
        let first = record_row-OneRow record_names origin "run" started _ [] w u a e in
        bind-agree_on (preflight recorder_names origin setting template)
          (preflight record_names origin setting template) (λ _. by_graph) (λ _. in_order) u
          (preflight-agree origin setting template u)
          (λ b x f.
            let (ready, pre) = preflight-ok origin setting template u x b f in
            tail-pauses langgraph takes law origin setting model template before rest g split tame
              is_gate w.ctx asks fit x (ap (λ c. c.notes) (pre.context ∙ first.context) ∙ clean)
              (pre.context ∙ first.context)))

-- A run pauses at its first gate, with all before it done and nothing behind it begun. If LangGraph
-- takes nodes of new and plain names and runs a chain of them one after the other up to an
-- interrupt, then on a template whose steps are some `before` the gate `g`, the gate, which has no
-- condition, and any `rest`, with no judges, fewer steps than LangGraph's bound on a run, plain and
-- distinct names (not empty, without `:` or `|`, not beginning with two underscores, and no key of
-- the state) and steps before the gate that only add to the notes and put no reserved name in the
-- detail, a graph run from a context without notes is: the start and preflight of the
-- sequential run, the sequential run of `before`, and the two rows and the result of the pause,
-- with the pool, the records and the notes of that point; or the exception that one of these raised.
pub run_template_graph-run_to_gate :
    (langgraph : LangGraph) (origin : Origin) (setting : Setting) (model : Model)
    (template : Template) (before rest : List Step) (g : Step) (w : World)
    → TakesNodes langgraph
    → RunsChains langgraph
    → template.steps ≡ before ++ g ∷ rest
    → All (Tame setting) before
    → same_executor g.executor gate ≡ true
    → non_empty g.when ≡ false
    → Chainable langgraph template
    → w.ctx.notes ≡ []
    → run_template_graph langgraph origin setting model template [] w
      ≡ run_to_gate origin setting template before g w
unfolding gate_is_required
run_template_graph-run_to_gate langgraph origin setting model template before rest g w takes law
      split tame is_gate always fit clean =
    run_template_graph-run_to_gate-Asked langgraph origin setting model template before rest g w
      takes law split tame is_gate (λ u v found same e. rw always refl) fit clean
