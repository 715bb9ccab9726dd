-- ===== src/Store/Models.antt =====
-- store/models.py and the errors of store/base.py. A time is a number of ticks.
use navigator_orchestrator_a.Prelude.{
  ℕ, String, Bool, true, false, ◌&&◌, Option, none, some, List, str_eq, Dict, Value,
}

pub data RunState : Type 0 where
  queued running awaiting_decision completed failed cancelled : RunState

-- The literals of `RunState`.
unfoldable pub show_state : RunState → String
show_state queued = "queued"
show_state running = "running"
show_state awaiting_decision = "awaiting_decision"
show_state completed = "completed"
show_state failed = "failed"
show_state cancelled = "cancelled"

pub data Verdict : Type 0 where
  approve reject amend : Verdict

-- state in TERMINAL_STATES
unfoldable pub in_terminal_states : RunState → Bool
in_terminal_states completed = true
in_terminal_states failed = true
in_terminal_states cancelled = true
in_terminal_states _ = false

-- s == t
unfoldable pub same_state : RunState → RunState → Bool
same_state queued queued = true
same_state running running = true
same_state awaiting_decision awaiting_decision = true
same_state completed completed = true
same_state failed failed = true
same_state cancelled cancelled = true
same_state _ _ = false

unfoldable pub same_verdict : Verdict → Verdict → Bool
same_verdict approve approve = true
same_verdict reject reject = true
same_verdict amend amend = true
same_verdict _ _ = false

-- s == t, where either may be None
unfoldable pub same_text : Option String → Option String → Bool
same_text none none = true
same_text (some s) (some t) = str_eq s t
same_text _ _ = false

pub record Principal : Type 0 where
  pub subject : String
  pub scopes : List String
  pub issuer : String

unfoldable pub is_anonymous : Principal → Bool
is_anonymous p = str_eq p.subject "anonymous"

pub record RunRecord : Type 0 where
  pub id : String
  pub workflow : String
  pub state : RunState
  pub policy : Dict Value
  pub gate_payload : Option (Dict Value)
  pub created_by : Option Principal
  pub leased_by : Option String
  pub lease_expires_at : Option ℕ
  pub created_at : ℕ
  pub updated_at : ℕ

unfoldable pub is_terminal : RunRecord → Bool
unfolding in_terminal_states
is_terminal run = in_terminal_states run.state

pub record DecisionRecord : Type 0 where
  pub id : String
  pub run_id : String
  pub seq : ℕ
  pub verdict : Verdict
  pub comment : Option String
  pub principal : Principal
  pub decided_at : ℕ

-- Same actor, same verdict, same comment.
unfoldable pub matches : DecisionRecord → Verdict → Option String → Principal → Bool
unfolding same_verdict same_text
matches d verdict comment principal =
    same_verdict d.verdict verdict
    && same_text d.comment comment
    && str_eq d.principal.subject principal.subject

-- What a store operation raises: RunConflictError (with the run's state) and RunNotFoundError.
pub data StoreError : Type 0 where
  run_conflict : String → RunState → StoreError
  run_not_found : String → StoreError

pub data Result {ℓ} (A : Type ℓ) : Type ℓ where
  ok : A → Result A
  err : StoreError → Result A
