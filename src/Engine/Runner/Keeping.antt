-- ===== src/Engine/Runner/Keeping.antt =====
-- What every part of `_stream` respects, whatever it is and wherever the stream is closed: a
-- relation that each access to the world respects holds between the first world and the last.
pub mod Logging
pub mod Cached
pub mod Deciding
use navigator_orchestrator_a.Prelude.{
  String, true, false, Option, none, some, List, [], ◌∷◌, Dict, Value, Fields,
}
use navigator_orchestrator_a.Store.Models.{RunState, awaiting_decision, completed, failed}
use navigator_orchestrator_a.Engine.Events.{Event, final, interrupt}
use navigator_orchestrator_a.Engine.State.{Exn, Result, ok, err}
use navigator_orchestrator_a.Engine.Policy.{Policy}
use navigator_orchestrator_a.Engine.Meter.{Usage}
use navigator_orchestrator_a.Engine.Workflows.{Workflow, RawEvent, Graph}
use navigator_orchestrator_a.Engine.Runner.Mapping.{map_event}
use navigator_orchestrator_a.Engine.Runner.Actions.{
  Runner, World, Outcome, done, threw, closed, Act, ◌>>=◌, ◌>>◌, pure, lift, mark, report, lookup,
  store_body, client_for, continue,
}
use navigator_orchestrator_a.Engine.Runner.{
  Request, prepare, require_checkpointer, pump, add_usage, send, close_with, conclude, body_of,
  run_graph, graph_input, pending_interrupt, answer, open_request, attempt, rescue, error_of,
}

abbrev pub Keeps : (World → World → Type 0) → {A : Type 0} → Act A → Type 0
Keeps R m = (w : World) → R w (m w).1

-- A preorder that the accesses of one stream to the world respect.
pub record Respected (R : World → World → Type 0) (runner : Runner) (workflow : Workflow)
    (policy : Policy) (run_id : String) (key : Option String) (request : Request) : Type 0 where
  pub stay : (w : World) → R w w
  pub chain : (u v w : World) → R u v → R v w → R u w
  pub opens : Keeps R (open_request runner workflow policy run_id request)
  pub looks_up : Keeps R (lookup runner key)
  pub makes_client : Keeps R (client_for runner policy)
  pub counts : (spent : Option Usage) → Keeps R (add_usage spent)
  pub marks :
      (state : RunState) (gate : Option (Dict Value)) → Keeps R (mark runner run_id state gate)
  pub reports : (e : Event) → Keeps R (report runner workflow.name e)
  pub stores : (body : Dict Value) → Keeps R (store_body runner key body workflow.cache_ttl_s)

module _ (R : World → World → Type 0) (runner : Runner) (workflow : Workflow) (policy : Policy)
    (run_id : String) (key : Option String) (request : Request)
    (h : Respected R runner workflow policy run_id key request) where
  continue-kept :
      {A B : Type 0} (f : A → Act B) (u : World) (r : Outcome A) (v : World)
      → R u v
      → ((a : A) → Keeps R (f a))
      → R u (continue f r v).1
  continue-kept f u (done a) v k kf = h.chain u v (f a v).1 k (kf a v)
  continue-kept f u (threw e) v k kf = k
  continue-kept f u closed v k kf = k

  Keeps-bind :
      {A B : Type 0} (m : Act A) (f : A → Act B)
      → Keeps R m
      → ((a : A) → Keeps R (f a))
      → Keeps R (m >>= f)
  Keeps-bind m f km kf w = continue-kept f w (m w).0 (m w).1 (km w) kf

  Keeps-lift : {A : Type 0} (r : Result A) → Keeps R (lift r)
  Keeps-lift (ok a) w = h.stay w
  Keeps-lift (err e) w = h.stay w

  Keeps-prepare : Keeps R (prepare runner workflow policy)
  unfolding prepare
  Keeps-prepare =
      Keeps-bind (client_for runner policy)
        (λ client. lift (workflow.build_graph policy client) >>= λ graph.
          lift (require_checkpointer workflow graph) >>= λ u. pure graph)
        h.makes_client
        (λ client.
          Keeps-bind (lift (workflow.build_graph policy client))
            (λ graph. lift (require_checkpointer workflow graph) >>= λ u. pure graph)
            (Keeps-lift (workflow.build_graph policy client))
            (λ graph.
              Keeps-bind (lift (require_checkpointer workflow graph)) (λ u. pure graph)
                (Keeps-lift (require_checkpointer workflow graph)) (λ u w. h.stay w)))

  Keeps-send : (e : Option Event) → Keeps R (send runner workflow.name e)
  unfolding send
  Keeps-send none w = h.stay w
  Keeps-send (some e) w = h.reports e w

  Keeps-pump :
      (raws : List RawEvent) (stop : Option Exn) (state : Option Fields)
      → Keeps R (pump runner workflow.name run_id raws stop state)
  unfolding pump
  Keeps-pump [] none state = Keeps-lift (ok state)
  Keeps-pump [] (some e) state = Keeps-lift {A = Option Fields} (err e)
  Keeps-pump (raw ∷ raws) stop state =
      let m = map_event run_id raw in
      let state' : Option Fields = elim m.1 [ none ↦ state | some new ↦ some new ] in
      let rest = pump runner workflow.name run_id raws stop state' in
      Keeps-bind (add_usage m.2) (λ u. send runner workflow.name m.0 >> rest) (h.counts m.2)
        (λ u.
          Keeps-bind (send runner workflow.name m.0) (λ v. rest) (Keeps-send m.0)
            (λ v. Keeps-pump raws stop state'))

  Keeps-close_with :
      (state : RunState) (gate : Option (Dict Value)) (e : Event)
      → Keeps R (close_with runner workflow.name run_id state gate e)
  unfolding close_with
  Keeps-close_with state gate e =
      Keeps-bind (mark runner run_id state gate) (λ u. report runner workflow.name e)
        (h.marks state gate) (λ u. h.reports e)

  Keeps-conclude :
      (state : Option Fields) (gate : Option (Dict Value))
      → Keeps R (conclude runner workflow run_id key state gate)
  unfolding conclude
  Keeps-conclude state (some gate) =
      Keeps-close_with awaiting_decision (some gate) (interrupt run_id gate)
  Keeps-conclude state none =
      let done_with : Dict Value → Act (Unit {0}) =
        λ body. close_with runner workflow.name run_id completed none (final run_id body false) in
      Keeps-bind (lift (body_of workflow state))
        (λ body. store_body runner key body workflow.cache_ttl_s >>= λ u. done_with body)
        (Keeps-lift (body_of workflow state))
        (λ body.
          Keeps-bind (store_body runner key body workflow.cache_ttl_s) (λ u. done_with body)
            (h.stores body) (λ u. Keeps-close_with completed none (final run_id body false)))

  Keeps-run_graph : Keeps R (run_graph runner workflow policy run_id key request)
  unfolding run_graph
  Keeps-run_graph =
      let input = graph_input workflow request in
      let finish : Graph → Option Fields → Act (Unit {0}) = λ graph state.
        lift (pending_interrupt graph input run_id) >>= λ gate.
        conclude runner workflow run_id key state gate in
      Keeps-bind (prepare runner workflow policy)
        (λ graph.
          let (raws, stop) = graph.astream input run_id in
          pump runner workflow.name run_id raws stop none >>= finish graph)
        Keeps-prepare
        (λ graph.
          let ran = graph.astream input run_id in
          Keeps-bind (pump runner workflow.name run_id ran.0 ran.1 none) (finish graph)
            (Keeps-pump ran.0 ran.1 none)
            (λ state.
              Keeps-bind (lift (pending_interrupt graph input run_id))
                (λ gate. conclude runner workflow run_id key state gate)
                (Keeps-lift (pending_interrupt graph input run_id))
                (λ gate. Keeps-conclude state gate)))

  Keeps-answer :
      (cached : Option (Dict Value))
      → Keeps R (answer runner workflow policy run_id key request cached)
  unfolding answer
  Keeps-answer (some cached) = Keeps-close_with completed none (final run_id cached true)
  Keeps-answer none = Keeps-run_graph

  Keeps-attempt : Keeps R (attempt runner workflow policy run_id key request)
  unfolding attempt
  Keeps-attempt =
      Keeps-bind (open_request runner workflow policy run_id request)
        (λ u.
          lookup runner key >>= λ cached. answer runner workflow policy run_id key request cached)
        h.opens
        (λ u.
          Keeps-bind (lookup runner key)
            (λ cached. answer runner workflow policy run_id key request cached) h.looks_up
            Keeps-answer)

  rescue-kept :
      (u : World) (r : Outcome (Unit {0})) (v : World)
      → R u v
      → R u (rescue runner workflow run_id r v).1
  unfolding rescue
  rescue-kept u (done a) v k = k
  rescue-kept u closed v k = k
  rescue-kept u (threw e) v k =
      let event = error_of run_id e in
      h.chain u v (close_with runner workflow.name run_id failed none event v).1 k
        (Keeps-close_with failed none event v)

  -- The body of the `try` and its `except` clauses.
  pub attempt-kept :
      (w : World)
      → R w
          (rescue runner workflow run_id
            (attempt runner workflow policy run_id key request w).0
            (attempt runner workflow policy run_id key request w).1).1
  attempt-kept w =
      let m = attempt runner workflow policy run_id key request w in
      rescue-kept w m.0 m.1 (Keeps-attempt w)
