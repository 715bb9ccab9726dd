-- ===== src/Engine/Runner/Lifecycle.antt =====
-- How a stream that the client reads to the end is over: the events that came before the last,
-- the last one, and the state that the run store keeps. An action is `Steady` when it only makes
-- progress, and `Finishing` when it ends the stream or raises.
pub mod Progress
pub mod Pumping
pub mod Endings
pub mod Stream
use navigator_orchestrator_a.Prelude.{
  ℕ, String, Bool, true, false, ◌≡◌, refl, sym, ◌∙◌, ap, Option, none, some, List, [], ◌∷◌, ◌++◌,
  append_assoc, append-nil, arith, inl, inr, All, All-append, Option-cases, is_some, get, Dict,
  Value, str_eq,
}
use navigator_orchestrator_a.Store.Models.{RunState, awaiting_decision, completed, failed, running}
use navigator_orchestrator_a.Engine.Events.{Event, token, node, error, final, interrupt, run_id_of}
use navigator_orchestrator_a.Engine.Runner.Actions.{World, Outcome, done, threw, closed, Act, ◌>>=◌}

-- The state that the run store keeps for the run.
unfoldable pub state_of : String → World → Option RunState
state_of run_id w = elim w.runs [
  | none ↦ none
  | some s ↦ elim (get s.runs run_id) [ none ↦ none | some run ↦ some run.state ]
]

-- A token or a node event of this run.
abbrev pub IsProgress : String → Event → Type 0
IsProgress run_id (token k text) = k ≡ run_id
IsProgress run_id (node k name status) = k ≡ run_id
IsProgress run_id _ = ⊥

-- A final, error or interrupt event of this run, and the state that goes with it.
abbrev pub IsLast : String → Event → Option RunState → Type 0
IsLast run_id (final k output cached) state = (k ≡ run_id) × (state ≡ some completed)
IsLast run_id (error k kind detail) state = (k ≡ run_id) × (state ≡ some failed)
IsLast run_id (interrupt k payload) state = (k ≡ run_id) × (state ≡ some awaiting_decision)
IsLast run_id _ state = ⊥

-- A client that reads to the end, and a run that the store knows.
pub record Ready (run_id : String) (w : World) : Type 0 where
  pub patient : w.patience ≡ none
  pub known : is_some (state_of run_id w) ≡ true

-- Only progress was sent.
pub record Going (run_id : String) (w w' : World) : Type 0 where
  pub between : List Event
  pub sent : w'.sent ≡ w.sent ++ between
  pub progress : All (IsProgress run_id) between
  pub ready : Ready run_id w'

-- Progress was sent, and then one last event, whose state is the run's.
pub record Ended (run_id : String) (w w' : World) : Type 0 where
  pub between : List Event
  pub last : Event
  pub sent : w'.sent ≡ w.sent ++ between ++ last ∷ []
  pub progress : All (IsProgress run_id) between
  pub is_last : IsLast run_id last (state_of run_id w')

module _ (run_id : String) where
  abbrev pub SteadyAt : {A : Type 0} → World → Outcome A → World → Type 0
  SteadyAt w (done a) w' = Going run_id w w'
  SteadyAt w (threw e) w' = Going run_id w w'
  SteadyAt w closed w' = ⊥

  abbrev pub EndsAt : {A : Type 0} → World → Outcome A → World → Type 0
  EndsAt w (done a) w' = Ended run_id w w'
  EndsAt w (threw e) w' = Going run_id w w'
  EndsAt w closed w' = ⊥

  abbrev pub Steady : {A : Type 0} → Act A → Type 0
  Steady m = (w : World) → Ready run_id w → SteadyAt w (m w).0 (m w).1

  abbrev pub Finishing : {A : Type 0} → Act A → Type 0
  Finishing m = (w : World) → Ready run_id w → EndsAt w (m w).0 (m w).1
