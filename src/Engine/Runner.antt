-- ===== src/Engine/Runner.antt =====
-- src/navigator_orchestrator/engine/runner.py: the life of one run, as the events that its client
-- reads and what it writes to the stores, the cache and the meter. Traces (spans and their
-- attributes) are not modelled. `_stream` is an action on the world: it returns, raises, or is
-- closed by a client that stops reading.
pub mod Mapping
pub mod Actions
pub mod Lifecycle
pub mod Keeping
use navigator_orchestrator_a.Prelude.{
  ℕ, zero, suc, String, Bool, true, false, ◌&&◌, not, if◌then◌else◌, Option, none, some, List, [],
  ◌∷◌, ◌++◌, Dict, join, repr, Value, str, obj, Fields, fields_of, items_in, or_else, is_some,
}
use navigator_orchestrator_a.Store.Models.{
  RunState, awaiting_decision, completed, failed, Principal,
}
use navigator_orchestrator_a.Engine.Events.{Event, error, final, interrupt}
use navigator_orchestrator_a.Engine.State.{
  Exn, contract_error, raised, Result, ok, err, validate, as_payload, new_state,
}
use navigator_orchestrator_a.Engine.Policy.{Policy}
use navigator_orchestrator_a.Engine.Cache.{cache_key}
use navigator_orchestrator_a.Engine.Meter.{Usage, plus, cost_entry, no_usage}
use navigator_orchestrator_a.Engine.Workflows.{
  Workflow, Graph, GraphInput, command, fresh, RawEvent, get_workflow, extract_output,
}
use navigator_orchestrator_a.Engine.Runner.Mapping.{map_event}
use navigator_orchestrator_a.Engine.Runner.Actions.{
  Runner, World, Outcome, done, threw, closed, Act, ◌>>=◌, ◌>>◌, pure, lift, mark, report, lookup,
  store_body, open_run, client_for,
}

-- _cache_key
unfoldable pub key_of : Runner → World → Workflow → Dict Value → Policy → Option String
key_of runner w workflow payload policy =
    if is_some w.cache && workflow.idempotent
    then some (
        cache_key runner.sha256 runner.normalized workflow.name
          (workflow.input_contract.model_dump_json payload) (runner.fingerprint policy))
    else none

-- _require_checkpointer
unfoldable pub require_checkpointer : Workflow → Graph → Result (Unit {0})
require_checkpointer workflow graph =
    if workflow.checkpointed && not graph.has_checkpointer
    then err (
        raised "RuntimeError" (
          join "workflow " (
            join (repr workflow.name) (
              join " declares checkpointed=True but its graph was compiled without a checkpointer; "
                "it could pause and never resume"))))
    else ok tt

-- How a stream was asked for: with a validated payload, or with a decision.
pub data Request : Type 0 where
  start : Dict Value → Option Principal → Request
  decision : Dict Value → Request

unfoldable pub graph_input : Workflow → Request → GraphInput
graph_input workflow (start payload principal) =
    fresh (new_state (("input", obj (fields_of (workflow.input_contract.model_dump payload))) ∷ []))
graph_input workflow (decision d) = command d

-- _prepare: the graph
unfoldable pub prepare : Runner → Workflow → Policy → Act Graph
unfolding require_checkpointer
prepare runner workflow policy = client_for runner policy >>= λ client.
    lift (workflow.build_graph policy client) >>= λ graph.
    lift (require_checkpointer workflow graph) >>= λ u. pure graph

pub add_usage : Option Usage → Act (Unit {0})
add_usage none w = (done tt, w)
add_usage (some spent) w = (done tt, record w { usage = plus w.usage spent })

pub send : Runner → String → Option Event → Act (Unit {0})
send runner workflow none = pure tt
send runner workflow (some e) = report runner workflow e

-- async for raw_event in graph.astream_events(...): the last terminal state
unfoldable pub pump :
    Runner → String → String → List RawEvent → Option Exn → Option Fields → Act (Option Fields)
unfolding add_usage send
pump runner workflow run_id [] none final_state = pure final_state
pump runner workflow run_id [] (some e) final_state = lift (err e)
pump runner workflow run_id (raw ∷ raws) stop final_state =
    let m = map_event run_id raw in
    add_usage m.2
    >> (send runner workflow m.0
        >> pump runner workflow run_id raws stop
            (elim m.1 [ none ↦ final_state | some state ↦ some state ]))

-- value if isinstance(value, dict) else {"value": value}
unfoldable pub gate_of : Value → Dict Value
gate_of (obj fs) = items_in fs
gate_of value = ("value", value) ∷ []

-- The first interrupt of the first task that has one.
pub first_pending : List (List Value) → Option (Dict Value)
unfolding gate_of
first_pending [] = none
first_pending ([] ∷ tasks) = first_pending tasks
first_pending ((value ∷ values) ∷ tasks) = some (gate_of value)

-- _pending_interrupt
unfoldable pub pending_interrupt : Graph → GraphInput → String → Result (Option (Dict Value))
unfolding first_pending
pending_interrupt graph input run_id =
    if graph.has_checkpointer
    then (elim (graph.pending input run_id) [ err e ↦ err e | ok tasks ↦ ok (first_pending tasks) ])
    else ok none

-- The terminal state, validated and dumped.
pub body_of : Workflow → Option Fields → Result (Dict Value)
body_of workflow none = err (
    raised "RuntimeError"
      (join "workflow " (join (repr workflow.name) " produced no terminal state")))
body_of workflow (some state) = elim (extract_output workflow state) [
  | err e ↦ err e
  | ok output ↦ elim (validate "output" workflow.output_contract (obj output)) [
    | err e ↦ err e
    | ok fields ↦ ok (workflow.output_contract.model_dump_json fields)
  ]
]

-- The run is over: marked, logged and told to the client.
unfoldable pub close_with :
    Runner → String → String → RunState → Option (Dict Value) → Event → Act (Unit {0})
close_with runner workflow run_id state gate e =
    mark runner run_id state gate >> report runner workflow e

-- After the graph's stream: a pause, or the output.
unfoldable pub conclude :
    Runner
    → Workflow
    → String
    → Option String
    → Option Fields
    → Option (Dict Value)
    → Act (Unit {0})
unfolding body_of close_with
conclude runner workflow run_id key final_state (some gate) =
    close_with runner workflow.name run_id awaiting_decision (some gate) (interrupt run_id gate)
conclude runner workflow run_id key final_state none =
    lift (body_of workflow final_state) >>= λ body.
    store_body runner key body workflow.cache_ttl_s >>= λ u.
    close_with runner workflow.name run_id completed none (final run_id body false)

-- The run of the graph, when the cache has no answer.
unfoldable pub run_graph :
    Runner → Workflow → Policy → String → Option String → Request → Act (Unit {0})
unfolding prepare graph_input pump pending_interrupt conclude
run_graph runner workflow policy run_id key request = prepare runner workflow policy >>= λ graph.
    let input = graph_input workflow request in
    let (raws, stop) = graph.astream input run_id in
    pump runner workflow.name run_id raws stop none >>= λ final_state.
    lift (pending_interrupt graph input run_id) >>= λ gate.
    conclude runner workflow run_id key final_state gate

pub open_request : Runner → Workflow → Policy → String → Request → Act (Unit {0})
open_request runner workflow policy run_id (start payload principal) =
    open_run runner run_id workflow policy principal
open_request runner workflow policy run_id (decision d) = pure tt

pub request_key : Runner → World → Workflow → Policy → Request → Option String
unfolding key_of
request_key runner w workflow policy (start payload principal) =
    key_of runner w workflow payload policy
request_key runner w workflow policy (decision d) = none

-- An answer of the cache ends the run at once.
pub answer :
    Runner
    → Workflow
    → Policy
    → String
    → Option String
    → Request
    → Option (Dict Value)
    → Act (Unit {0})
unfolding close_with run_graph
answer runner workflow policy run_id key request (some cached) =
    close_with runner workflow.name run_id completed none (final run_id cached true)
answer runner workflow policy run_id key request none =
    run_graph runner workflow policy run_id key request

-- The body of the `try`.
pub attempt : Runner → Workflow → Policy → String → Option String → Request → Act (Unit {0})
unfolding open_request answer
attempt runner workflow policy run_id key request =
    open_request runner workflow policy run_id request >>= λ u.
    lookup runner key >>= λ cached. answer runner workflow policy run_id key request cached

-- The event of an exception: `str(exc)` is its text.
unfoldable pub error_of : String → Exn → Event
error_of run_id (contract_error direction model_name errors) =
    error run_id "contract_error" (as_payload direction model_name errors)
error_of run_id (raised kind message) = error run_id kind (("message", str message) ∷ [])

-- The two `except` clauses.
pub rescue : Runner → Workflow → String → Outcome (Unit {0}) → Act (Unit {0})
unfolding error_of close_with
rescue runner workflow run_id (done u) w = (done u, w)
rescue runner workflow run_id closed w = (closed, w)
rescue runner workflow run_id (threw e) w =
    close_with runner workflow.name run_id failed none (error_of run_id e) w

-- The `finally` clause: one entry of the meter.
pub meter : Workflow → Policy → String → World → World
meter workflow policy run_id w = record w {
  entries = w.entries ++ cost_entry run_id workflow.name policy.model w.usage ∷ [];
}

-- _stream: the world when the stream is over or closed
unfoldable pub stream : Runner → Workflow → Policy → String → Request → World → World
unfolding request_key attempt rescue meter
stream runner workflow policy run_id request w =
    let key = request_key runner w workflow policy request in
    let (r, w') =
      attempt runner workflow policy run_id key request (record w { usage = no_usage }) in
    meter workflow policy run_id (rescue runner workflow run_id r w').1

-- The call that a client makes, and the run id that `uuid4` gives. What raises before the stream
-- is there raises from the call.
unfoldable pub run :
    Runner → String → Value → Option Policy → Option Principal → String → World → Result World
unfolding stream
run runner name raw_input policy principal run_id w = elim (get_workflow name runner.registry) [
  | err e ↦ err e
  | ok workflow ↦ elim (validate "input" workflow.input_contract raw_input) [
    | err e ↦ err e
    | ok payload ↦ ok (
        stream runner workflow (or_else policy runner.default_policy) run_id
          (start payload principal) w)
  ]
]

unfoldable pub resume : Runner → String → String → Dict Value → Option Policy → World → Result World
unfolding stream
resume runner name run_id d policy w = elim (get_workflow name runner.registry) [
  | err e ↦ err e
  | ok workflow ↦
      ok (stream runner workflow (or_else policy runner.default_policy) run_id (decision d) w)
]
