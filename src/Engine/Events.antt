-- ===== src/Engine/Events.antt =====
-- src/navigator_orchestrator/events.py: the events that cross the wire. The JSON text of an event
-- is the library's and is not modelled.
use navigator_orchestrator_a.Prelude.{String, Bool, Dict, Value}

pub data NodeStatus : Type 0 where
  started completed : NodeStatus

-- Each event starts with its `run_id`.
pub data Event : Type 0 where
  -- text
  token : String → String → Event
  -- node, status
  node : String → String → NodeStatus → Event
  -- error, detail
  error : String → String → Dict Value → Event
  -- output, cached
  final : String → Dict Value → Bool → Event
  -- payload
  interrupt : String → Dict Value → Event

unfoldable pub run_id_of : Event → String
run_id_of (token run_id text) = run_id
run_id_of (node run_id name status) = run_id
run_id_of (error run_id kind detail) = run_id
run_id_of (final run_id output cached) = run_id
run_id_of (interrupt run_id payload) = run_id

-- event.type
unfoldable pub type_of : Event → String
type_of (token run_id text) = "token"
type_of (node run_id name status) = "node"
type_of (error run_id kind detail) = "error"
type_of (final run_id output cached) = "final"
type_of (interrupt run_id payload) = "interrupt"

unfoldable pub show_status : NodeStatus → String
show_status started = "started"
show_status completed = "completed"
