-- ===== src/Sdk/Graph/Equivalence.antt =====
-- The two runners do the same: on a template without gates, and without judges, a graph run is the
-- sequential run.
use navigator_orchestrator_a.Prelude.{
  append-nil, String, ◌≡◌, refl, sym, ◌∙◌, ap, inl, inr, false, none, List, [], ◌∷◌, ◌++◌, arith,
  Dict, put, merge, Value, length, drop, All,
}
use navigator_orchestrator_a.Sdk.Context.{Ctx, Exn, ok, err, Result-cases}
use navigator_orchestrator_a.Sdk.Templates.{Step, gate, same_executor}
use navigator_orchestrator_a.Sdk.Events.{Origin, World, M, ◌>>=◌, pure}
use navigator_orchestrator_a.Sdk.Runner.{
  Setting, Chosen, StepRecord, perform, cleared, execute, choose, record_names, run_steps,
  step_record,
}
use navigator_orchestrator_a.Sdk.Runner.Completion.{execute-StepRows}
use navigator_orchestrator_a.Sdk.Graph.{
  GraphState, update, interrupt, Node, reduce, produced_by, recorder_names, choose_graph, step_node,
  make_node, Outcome, finished, paused,
}
use navigator_orchestrator_a.Sdk.Graph.Rows.{Unreserved, execute-agree}

-- What LangGraph does with a chain of nodes: each in turn, its update reduced into the state, up to
-- an interrupt.
abbrev pub run_chain : List (String × Node) → GraphState → M Outcome
run_chain [] state = pure (finished state)
run_chain (n ∷ ns) state = n.1 none state >>= λ out. elim out [
  | update u ↦ run_chain ns (reduce state u)
  | interrupt payload ↦ pure (paused state payload)
]

-- What a step of an equivalent run is like: no gate, nothing reserved in its detail, and its hook
-- adds to the notes and takes none away.
pub record Tame (setting : Setting) (step : Step) : Type 0 where
  pub no_gate : same_executor step.executor gate ≡ false
  pub unreserved :
      (chosen : Chosen) (pool : Dict Value) (c : Ctx)
      → choose setting step pool ≡ ok chosen
      → Unreserved setting step chosen pool c
  pub appends :
      (chosen : Chosen) (pool : Dict Value) (c : Ctx)
      → choose setting step pool ≡ ok chosen
      → (added : List String) × ((perform setting step chosen pool (cleared c)).1.notes
          ≡ c.notes ++ added)

drop-append : {A : Type 0} (xs ys : List A) → drop (length xs) (xs ++ ys) ≡ ys
drop-append [] ys = refl
drop-append (x ∷ xs) ys = drop-append xs ys

choose_graph-choose :
    (setting : Setting) (step : Step) (pool : Dict Value)
    → same_executor step.executor gate ≡ false
    → choose_graph setting step pool ≡ choose setting step pool
unfolding choose_graph choose
choose_graph-choose setting step pool h = ground arith

-- A node whose step cannot be bound to a hook.
step_node-unchosen :
    (origin : Origin) (setting : Setting) (step : Step) (state : GraphState) (w : World) (x : Exn)
    → choose_graph setting step state.pool ≡ err x
    → step_node origin setting step none state w ≡ (err x, w)
unfolding step_node
step_node-unchosen origin setting step state w x e = ground arith

step_node-raised :
    (origin : Origin) (setting : Setting) (step : Step) (state : GraphState) (w w' : World)
    (x : Exn) (chosen : Chosen)
    → choose_graph setting step state.pool ≡ ok chosen
    → execute recorder_names origin setting step chosen state.pool w ≡ (err x, w')
    → step_node origin setting step none state w ≡ (err x, w')
unfolding step_node
step_node-raised origin setting step state w w' x chosen e f = ground arith

step_node-returned :
    (origin : Origin) (setting : Setting) (step : Step) (state : GraphState) (w w' : World)
    (v : Value) (chosen : Chosen)
    → choose_graph setting step state.pool ≡ ok chosen
    → execute recorder_names origin setting step chosen state.pool w ≡ (ok v, w')
    → step_node origin setting step none state w ≡ (
      ok (update (produced_by step chosen.source v (drop (length w.ctx.notes) w'.ctx.notes))),
      w',
    )
unfolding step_node
step_node-returned origin setting step state w w' v chosen e f = ground arith

run_steps-unchosen :
    (origin : Origin) (setting : Setting) (step : Step) (steps : List Step) (pool : Dict Value)
    (done : List StepRecord) (w : World) (x : Exn)
    → choose setting step pool ≡ err x
    → run_steps origin setting (step ∷ steps) pool done w ≡ (err x, w)
unfolding run_steps
run_steps-unchosen origin setting step steps pool done w x e = ground arith

run_steps-raised :
    (origin : Origin) (setting : Setting) (step : Step) (steps : List Step) (pool : Dict Value)
    (done : List StepRecord) (w w' : World) (x : Exn) (chosen : Chosen)
    → choose setting step pool ≡ ok chosen
    → execute record_names origin setting step chosen pool w ≡ (err x, w')
    → run_steps origin setting (step ∷ steps) pool done w ≡ (err x, w')
unfolding run_steps
run_steps-raised origin setting step steps pool done w w' x chosen e f = ground arith

run_steps-returned :
    (origin : Origin) (setting : Setting) (step : Step) (steps : List Step) (pool : Dict Value)
    (done : List StepRecord) (w w' : World) (v : Value) (chosen : Chosen)
    → choose setting step pool ≡ ok chosen
    → execute record_names origin setting step chosen pool w ≡ (ok v, w')
    → run_steps origin setting (step ∷ steps) pool done w
      ≡ run_steps origin setting steps
          (put pool step.produces v)
          (done ++ step_record step chosen.source ∷ [])
          w'
unfolding run_steps
run_steps-returned origin setting step steps pool done w w' v chosen e f = ground arith

-- The state of a graph run that has come as far as a sequential one.
abbrev pub state_of : Dict Value → List StepRecord → World → GraphState
state_of pool done w = record { pool = pool; notes = w.ctx.notes; steps = done }

-- The end of the loop, as a graph run returns it.
abbrev pub finishes : Dict Value × List StepRecord → M Outcome
finishes found w = (ok (finished (state_of found.0 found.1 w)), w)

-- The rest of the chain, from there.
abbrev pub goes_on : List (String × Node) → Dict Value × List StepRecord → M Outcome
goes_on rest found w = run_chain rest (state_of found.0 found.1 w) w

unfoldable pub nodes_of : Origin → Setting → List Step → List (String × Node)
nodes_of origin setting [] = []
nodes_of origin setting (step ∷ steps) =
    (step.name, make_node origin setting step) ∷ nodes_of origin setting steps

reduce-state_of :
    (step : Step) (source : String) (v : Value) (pool : Dict Value) (done : List StepRecord)
    (w w' : World) (added : List String)
    → w'.ctx.notes ≡ w.ctx.notes ++ added
    → reduce
        (state_of pool done w)
        (produced_by step source v (drop (length w.ctx.notes) w'.ctx.notes))
      ≡ state_of (put pool step.produces v) (done ++ step_record step source ∷ []) w'
unfolding reduce produced_by merge step_record
reduce-state_of step source v pool done w w' added e =
    let notes : w.ctx.notes ++ drop (length w.ctx.notes) w'.ctx.notes ≡ w'.ctx.notes =
      rw e (ap (λ l. w.ctx.notes ++ l) (drop-append w.ctx.notes added)) in
    ap
      (λ (n : List String). record {
        pool = put pool step.produces v;
        notes = n;
        steps = done ++ step_record step source ∷ [];
      })
      notes

run_chain-raised :
    (name : String) (node : Node) (ns : List (String × Node)) (s : GraphState) (w w' : World)
    (x : Exn)
    → node none s w ≡ (err x, w')
    → run_chain ((name, node) ∷ ns) s w ≡ (err x, w')
run_chain-raised name node ns s w w' x e = rw (e, run_chain, ◌>>=◌) (ap (λ p. (err x, p.1)) e)

run_chain-updated :
    (name : String) (node : Node) (ns : List (String × Node)) (s u : GraphState) (w w' : World)
    → node none s w ≡ (ok (update u), w')
    → run_chain ((name, node) ∷ ns) s w ≡ run_chain ns (reduce s u) w'
run_chain-updated name node ns s u w w' e =
    rw (e, run_chain, ◌>>=◌) (ap (λ p. run_chain ns (reduce s u) p.1) e)

make_node-step :
    (origin : Origin) (setting : Setting) (step : Step)
    → same_executor step.executor gate ≡ false
    → make_node origin setting step ≡ step_node origin setting step
unfolding make_node
make_node-step origin setting step h = rw h refl

pair-eta : {A B : Type 0} (p : A × B) (a : A) → p.0 ≡ a → p ≡ (a, p.1)
pair-eta p a e = ap (λ x. (x, p.1)) e

pub run_chain-append :
    (origin : Origin) (setting : Setting) (steps : List Step) (pool : Dict Value)
    (done : List StepRecord) (rest : List (String × Node)) (w : World)
    → All (Tame setting) steps
    → run_chain (nodes_of origin setting steps ++ rest) (state_of pool done w) w
      ≡ (run_steps origin setting steps pool done >>= goes_on rest) w
unfolding nodes_of
run_chain-append origin setting [] pool done rest w tame = unfold run_steps in refl
run_chain-append origin setting (step ∷ steps) pool done rest w (t, tame) =
    let s = state_of pool done w in
    let ns = nodes_of origin setting steps ++ rest in
    let node = make_node-step origin setting step t.no_gate in
    let same = choose_graph-choose setting step pool t.no_gate in
    elim (Result-cases (choose setting step pool)) [
      | inr (x, q) ↦
          run_chain-raised step.name (make_node origin setting step) ns s w w x (
            ap (λ (f : Node). f none s w) node
            ∙ step_node-unchosen origin setting step s w x (same ∙ q))
          ∙ sym (
              ap (λ p. elim p.0 [ ok a ↦ goes_on rest a p.1 | err e ↦ (err e, p.1) ])
                (run_steps-unchosen origin setting step steps pool done w x q))
      | inl (chosen, q) ↦
          let agree =
            execute-agree origin setting step chosen pool w (t.unreserved chosen pool w.ctx q) in
          let r = execute record_names origin setting step chosen pool w in
          elim (Result-cases r.0) [
            | inr (x, f) ↦
                let raised = pair-eta r (err x) f in
                run_chain-raised step.name (make_node origin setting step) ns s w r.1 x (
                  ap (λ (k : Node). k none s w) node
                  ∙ step_node-raised origin setting step s w r.1 x chosen (same ∙ q)
                      (agree ∙ raised))
                ∙ sym (
                    ap (λ p. elim p.0 [ ok a ↦ goes_on rest a p.1 | err e ↦ (err e, p.1) ])
                      (run_steps-raised origin setting step steps pool done w r.1 x chosen q
                        raised))
            | inl (v, f) ↦
                let returned = pair-eta r (ok v) f in
                let u =
                  produced_by step chosen.source v (drop (length w.ctx.notes) r.1.ctx.notes) in
                let (added, grew) = t.appends chosen pool w.ctx q in
                let notes : r.1.ctx.notes ≡ w.ctx.notes ++ added =
                  ap (λ c. c.notes)
                    (execute-StepRows record_names origin setting step chosen pool w r.1 v
                      returned).context
                  ∙ grew in
                run_chain-updated step.name (make_node origin setting step) ns s u w r.1 (
                  ap (λ (k : Node). k none s w) node
                  ∙ step_node-returned origin setting step s w r.1 v chosen (same ∙ q)
                      (agree ∙ returned))
                ∙ ap (λ x. run_chain ns x r.1)
                    (reduce-state_of step chosen.source v pool done w r.1 added notes)
                ∙ run_chain-append origin setting steps (put pool step.produces v)
                    (done ++ step_record step chosen.source ∷ []) rest r.1 tame
                ∙ sym (
                    ap (λ p. elim p.0 [ ok a ↦ goes_on rest a p.1 | err e ↦ (err e, p.1) ])
                      (run_steps-returned origin setting step steps pool done w r.1 v chosen q
                        returned))
          ]
    ]

pub run_chain-run_steps :
    (origin : Origin) (setting : Setting) (steps : List Step) (pool : Dict Value)
    (done : List StepRecord) (w : World)
    → All (Tame setting) steps
    → run_chain (nodes_of origin setting steps) (state_of pool done w) w
      ≡ (run_steps origin setting steps pool done >>= finishes) w
run_chain-run_steps origin setting steps pool done w tame =
    ap (λ (ns : List (String × Node)). run_chain ns (state_of pool done w) w)
      (sym (append-nil (nodes_of origin setting steps)))
    ∙ run_chain-append origin setting steps pool done [] w tame
