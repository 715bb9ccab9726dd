-- ===== src/Engine/Runner/Lifecycle/Pumping.antt =====
-- The graph is made and its events are passed on: only progress.
use navigator_orchestrator_a.Prelude.{
  String, refl, Option, none, some, List, [], ◌∷◌, inl, inr, Bool-cases, Fields, str_eq, non_empty,
  ◌&&◌, not,
}
use navigator_orchestrator_a.Engine.Events.{Event}
use navigator_orchestrator_a.Engine.State.{Exn, ok, err}
use navigator_orchestrator_a.Engine.Policy.{Policy}
use navigator_orchestrator_a.Engine.Meter.{Usage}
use navigator_orchestrator_a.Engine.Workflows.{Workflow, RawEvent}
use navigator_orchestrator_a.Engine.Runner.Mapping.{map_event, is_node, text_of, root_end}
use navigator_orchestrator_a.Engine.Runner.Actions.{
  Runner, done, ◌>>=◌, ◌>>◌, pure, lift, client_for,
}
use navigator_orchestrator_a.Engine.Runner.{prepare, require_checkpointer, pump, add_usage, send}
use navigator_orchestrator_a.Engine.Runner.Lifecycle.{IsProgress, Steady}
use navigator_orchestrator_a.Engine.Runner.Lifecycle.Progress.{
  silent, Steady-bind, Steady-lift, Steady-client_for, Steady-report,
}

module _ (run_id : String) where
  abbrev MaybeProgress : Option Event → Type 0
  MaybeProgress none = Unit
  MaybeProgress (some e) = IsProgress run_id e

  root_end-quiet : (raw : RawEvent) → MaybeProgress (root_end raw).0
  unfolding root_end
  root_end-quiet raw = elim (Bool-cases (str_eq raw.event "on_chain_end" && not raw.has_parents)) [
    | inl a ↦ rw (a, root_end) tt
    | inr a ↦ rw (a, root_end) tt
  ]

  map_event-MaybeProgress : (raw : RawEvent) → MaybeProgress (map_event run_id raw).0
  unfolding map_event
  map_event-MaybeProgress raw = elim (Bool-cases (str_eq raw.event "on_chat_model_stream")) [
    | inl a ↦ elim (Bool-cases (non_empty (text_of raw.chunk))) [
      | inl t ↦ rw (a, t, map_event) refl
      | inr t ↦ rw (a, t, map_event) tt
    ]
    | inr a ↦ elim (Bool-cases (str_eq raw.event "on_chat_model_end")) [
      | inl b ↦ rw (a, b, map_event) tt
      | inr b ↦ elim (Bool-cases (is_node raw && str_eq raw.event "on_chain_start")) [
        | inl c ↦ rw (a, b, c, map_event) refl
        | inr c ↦ elim (Bool-cases (is_node raw && str_eq raw.event "on_chain_end")) [
          | inl d ↦ rw (a, b, c, d, map_event) refl
          | inr d ↦ rw (a, b, c, d, map_event) (root_end-quiet raw)
        ]
      ]
    ]
  ]

  pub Steady-prepare :
      (runner : Runner) (workflow : Workflow) (policy : Policy)
      → Steady run_id (prepare runner workflow policy)
  unfolding prepare
  Steady-prepare runner workflow policy =
      Steady-bind run_id (client_for runner policy)
        (λ client. lift (workflow.build_graph policy client) >>= λ graph.
          lift (require_checkpointer workflow graph) >>= λ u. pure graph)
        (Steady-client_for run_id runner policy)
        (λ client.
          Steady-bind run_id (lift (workflow.build_graph policy client))
            (λ graph. lift (require_checkpointer workflow graph) >>= λ u. pure graph)
            (Steady-lift run_id (workflow.build_graph policy client))
            (λ graph.
              Steady-bind run_id (lift (require_checkpointer workflow graph)) (λ u. pure graph)
                (Steady-lift run_id (require_checkpointer workflow graph))
                (λ u. Steady-lift run_id (ok graph))))

  Steady-send :
      (runner : Runner) (workflow : String) (e : Option Event)
      → MaybeProgress e
      → Steady run_id (send runner workflow e)
  unfolding send
  Steady-send runner workflow none p = Steady-lift run_id (ok tt)
  Steady-send runner workflow (some e) p = Steady-report run_id runner workflow e p

  Steady-add_usage : (spent : Option Usage) → Steady run_id (add_usage spent)
  unfolding add_usage
  Steady-add_usage none w h = silent run_id w (done tt) w h refl (refl, refl, refl)
  Steady-add_usage (some u) w h =
      let m = add_usage (some u) w in silent run_id w m.0 m.1 h refl (refl, refl, refl)

  pub Steady-pump :
      (runner : Runner) (workflow : String) (raws : List RawEvent) (stop : Option Exn)
      (state : Option Fields)
      → Steady run_id (pump runner workflow run_id raws stop state)
  unfolding pump
  Steady-pump runner workflow [] none state = Steady-lift run_id (ok state)
  Steady-pump runner workflow [] (some e) state = Steady-lift run_id {A = Option Fields} (err e)
  Steady-pump runner workflow (raw ∷ raws) stop state =
      let m = map_event run_id raw in
      let state' : Option Fields = elim m.1 [ none ↦ state | some new ↦ some new ] in
      let rest = pump runner workflow run_id raws stop state' in
      Steady-bind run_id (add_usage m.2) (λ u. send runner workflow m.0 >> rest)
        (Steady-add_usage m.2)
        (λ u.
          Steady-bind run_id (send runner workflow m.0) (λ v. rest)
            (Steady-send runner workflow m.0 (map_event-MaybeProgress raw))
            (λ v. Steady-pump runner workflow raws stop state'))
