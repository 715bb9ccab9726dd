-- ===== src/Engine/Runner/Lifecycle/Endings.antt =====
-- A run that is closed, by a pause, an output or an answer of the cache.
use navigator_orchestrator_a.Prelude.{
  String, true, false, ◌≡◌, refl, sym, ◌∙◌, ap, Option, none, some, [], ◌∷◌, ◌++◌, arith, inl, inr,
  append-nil, subst, Option-cases, is_some, get, get-put_self, Dict, Value, Fields,
}
use navigator_orchestrator_a.Store.Models.{RunState, awaiting_decision, completed}
use navigator_orchestrator_a.Store.Memory.{RunStore, get_run, mark_state, moved}
use navigator_orchestrator_a.Engine.Events.{Event, final, interrupt}
use navigator_orchestrator_a.Engine.Policy.{Policy}
use navigator_orchestrator_a.Engine.Workflows.{Workflow}
use navigator_orchestrator_a.Engine.Runner.Actions.{
  Runner, World, Outcome, done, threw, closed, Act, ◌>>=◌, lift, emit, write_log, mark, report,
  store_body,
}
use navigator_orchestrator_a.Engine.Runner.{
  Request, prepare, pump, close_with, conclude, body_of, run_graph, graph_input, pending_interrupt,
  answer,
}
use navigator_orchestrator_a.Engine.Runner.Lifecycle.{Ready, IsLast, state_of, EndsAt, Finishing}
use navigator_orchestrator_a.Engine.Runner.Lifecycle.Progress.{
  Finishing-bind, Steady-lift, Steady-store_body,
}
use navigator_orchestrator_a.Engine.Runner.Lifecycle.Pumping.{Steady-prepare, Steady-pump}

module _ (run_id : String) where
  unknown : (w : World) → w.runs ≡ none → is_some (state_of run_id w) ≡ true → ⊥
  unfolding state_of
  unknown w q k = ground arith

  lost :
      (w : World) (s : RunStore)
      → w.runs ≡ some s
      → get s.runs run_id ≡ none
      → is_some (state_of run_id w) ≡ true
      → ⊥
  unfolding state_of
  lost w s q n k = ground arith

  mark-state_of :
      (runner : Runner) (state : RunState) (gate : Option (Dict Value)) (w : World)
      → Ready run_id w
      → state_of run_id (mark runner run_id state gate w).1 ≡ some state
  unfolding mark state_of mark_state get_run moved
  mark-state_of runner state gate w h = elim (Option-cases w.runs) [
    | inl q ↦ absurd (unknown w q h.known)
    | inr (s, q) ↦ elim (Option-cases (get s.runs run_id)) [
      | inl n ↦ absurd (lost w s q n h.known)
      | inr (run, e) ↦
          ground (arith, get-put_self s.runs run_id (moved state gate (runner.clock w.reads) run))
    ]
  ]

  same_runs : (w w' : World) → w'.runs ≡ w.runs → state_of run_id w' ≡ state_of run_id w
  unfolding state_of
  same_runs w w' e = rw e refl

  pub write_log-kept :
      (runner : Runner) (workflow : String) (e : Event) (w : World)
      → ((write_log runner workflow e w).1.sent ≡ w.sent)
        × ((write_log runner workflow e w).1.patience ≡ w.patience)
        × ((write_log runner workflow e w).1.runs ≡ w.runs)
        × ((write_log runner workflow e w).0 ≡ done tt)
  unfolding write_log
  write_log-kept runner workflow e w = (ground arith, ground arith, ground arith, ground arith)

  pub mark-kept :
      (runner : Runner) (state : RunState) (gate : Option (Dict Value)) (w : World)
      → ((mark runner run_id state gate w).1.sent ≡ w.sent)
        × ((mark runner run_id state gate w).1.patience ≡ w.patience)
        × ((mark runner run_id state gate w).0 ≡ done tt)
  unfolding mark
  mark-kept runner state gate w = (ground arith, ground arith, ground arith)

  emit-EndsAt :
      (e : Event) (w : World)
      → w.patience ≡ none
      → IsLast run_id e (state_of run_id w)
      → EndsAt run_id w (emit e w).0 (emit e w).1
  unfolding emit state_of
  emit-EndsAt e w h l =
      rw (h, emit)
        (record {
          between = [];
          last = e;
          sent = ap (λ l. l ++ e ∷ []) (sym (append-nil w.sent));
          progress = tt;
          is_last = l;
        })

  EndsAt-from :
      {A : Type 0} (u v : World) (r : Outcome A) (w : World)
      → v.sent ≡ u.sent
      → EndsAt run_id v r w
      → EndsAt run_id u r w
  EndsAt-from u v (done a) w s h = record {
    between = h.between;
    last = h.last;
    sent = h.sent ∙ rw s refl;
    progress = h.progress;
    is_last = h.is_last;
  }
  EndsAt-from u v (threw e) w s h = record {
    between = h.between;
    sent = h.sent ∙ rw s refl;
    progress = h.progress;
    ready = h.ready;
  }
  EndsAt-from u v closed w s h = h

  pub Finishing-close_with :
      (runner : Runner) (workflow : String) (state : RunState) (gate : Option (Dict Value))
      (e : Event)
      → IsLast run_id e (some state)
      → Finishing run_id (close_with runner workflow run_id state gate e)
  unfolding close_with report
  Finishing-close_with runner workflow state gate e l w h =
      let v = (mark runner run_id state gate w).1 in
      let marked = mark-kept runner state gate w in
      let u = (write_log runner workflow e v).1 in
      let logged = write_log-kept runner workflow e v in
      let kept = same_runs v u logged.2 ∙ mark-state_of runner state gate w h in
      rw (marked.2, logged.3, ◌>>=◌)
        (EndsAt-from w u (emit e u).0 (emit e u).1 (logged.0 ∙ marked.0) (
          emit-EndsAt e u (logged.1 ∙ marked.1 ∙ h.patient)
            (subst (λ st. IsLast run_id e st) (sym kept) l)))

  Finishing-conclude :
      (runner : Runner) (workflow : Workflow) (key : Option String) (state : Option Fields)
      (gate : Option (Dict Value))
      → Finishing run_id (conclude runner workflow run_id key state gate)
  unfolding conclude
  Finishing-conclude runner workflow key state (some gate) =
      Finishing-close_with runner workflow.name awaiting_decision (some gate)
        (interrupt run_id gate) (refl, refl)
  Finishing-conclude runner workflow key state none =
      let done_with : Dict Value → Act (Unit {0}) =
        λ body. close_with runner workflow.name run_id completed none (final run_id body false) in
      Finishing-bind run_id (lift (body_of workflow state))
        (λ body. store_body runner key body workflow.cache_ttl_s >>= λ u. done_with body)
        (Steady-lift run_id (body_of workflow state))
        (λ body.
          Finishing-bind run_id (store_body runner key body workflow.cache_ttl_s)
            (λ u. done_with body) (Steady-store_body run_id runner key body workflow.cache_ttl_s)
            (λ u.
              Finishing-close_with runner workflow.name completed none (final run_id body false)
                (refl, refl)))

  Finishing-run_graph :
      (runner : Runner) (workflow : Workflow) (policy : Policy) (key : Option String)
      (request : Request)
      → Finishing run_id (run_graph runner workflow policy run_id key request)
  unfolding run_graph
  Finishing-run_graph runner workflow policy key request =
      let input = graph_input workflow request in
      Finishing-bind run_id (prepare runner workflow policy)
        (λ graph.
          let (raws, stop) = graph.astream input run_id in
          pump runner workflow.name run_id raws stop none >>= λ state.
          lift (pending_interrupt graph input run_id) >>= λ gate.
          conclude runner workflow run_id key state gate)
        (Steady-prepare run_id runner workflow policy)
        (λ graph.
          let ran = graph.astream input run_id in
          Finishing-bind run_id (pump runner workflow.name run_id ran.0 ran.1 none)
            (λ state. lift (pending_interrupt graph input run_id) >>= λ gate.
              conclude runner workflow run_id key state gate)
            (Steady-pump run_id runner workflow.name ran.0 ran.1 none)
            (λ state.
              Finishing-bind run_id (lift (pending_interrupt graph input run_id))
                (λ gate. conclude runner workflow run_id key state gate)
                (Steady-lift run_id (pending_interrupt graph input run_id))
                (λ gate. Finishing-conclude runner workflow key state gate)))

  pub Finishing-answer :
      (runner : Runner) (workflow : Workflow) (policy : Policy) (key : Option String)
      (request : Request) (cached : Option (Dict Value))
      → Finishing run_id (answer runner workflow policy run_id key request cached)
  unfolding answer
  Finishing-answer runner workflow policy key request (some cached) =
      Finishing-close_with runner workflow.name completed none (final run_id cached true)
        (refl, refl)
  Finishing-answer runner workflow policy key request none =
      Finishing-run_graph runner workflow policy key request
