-- ===== src/Sdk/Events.antt =====
-- store/events.py, and how the runners write to it: the rows of a run, in order, and the counter
-- that numbers them. The time of a row (`at`) is filled in by the log and is not modelled.
use navigator_orchestrator_a.Prelude.{
  ℕ, ◌+◌, String, Bool, true, false, if◌then◌else◌, List, [], ◌∷◌, ◌++◌, any, select, Dict, Value,
  keys, one_of, str_eq,
}
use navigator_orchestrator_a.Sdk.Context.{Ctx, Exn, raised, type_error, Result, ok, err}

-- `succeeded` is "ok".
pub data EventStatus : Type 0 where
  started succeeded skipped failed blocked awaiting_human resumed : EventStatus

-- status in TERMINAL
unfoldable pub is_terminal_status : EventStatus → Bool
is_terminal_status succeeded = true
is_terminal_status skipped = true
is_terminal_status failed = true
is_terminal_status blocked = true
is_terminal_status _ = false

pub record StepEvent : Type 0 where
  pub run_id : String
  pub seq : ℕ
  pub workflow : String
  pub step : String
  pub status : EventStatus
  pub actor : String
  pub detail : Dict Value

-- InMemoryEventLog.read
unfoldable pub read_events : List StepEvent → String → List StepEvent
read_events rows run_id = select (λ e. str_eq e.run_id run_id) rows

-- What a run writes under: its id, its workflow and who acts.
pub record Origin : Type 0 where
  pub run_id : String
  pub workflow : String
  pub actor : String

-- What a run changes: the context, the event log, and the counter of its recorder.
pub record World : Type 0 where
  pub ctx : Ctx
  pub rows : List StepEvent
  pub seq : ℕ

-- An action of a runner: what it returns or raises, and the world it leaves.
abbrev pub M : Type 0 → Type 0
M A = World → Result A × World

infixl 5 ◌>>=◌ ◌>>◌
abbrev pub ◌>>=◌ : {A B : Type 0} → M A → (A → M B) → M B
◌>>=◌ m f w = let (r, w') = m w in elim r [ ok a ↦ f a w' | err e ↦ (err e, w') ]

abbrev pub ◌>>◌ : {A B : Type 0} → M A → M B → M B
m >> k = m >>= λ _. k

abbrev pub pure : {A : Type 0} → A → M A
pure a w = (ok a, w)

abbrev pub raise : {A : Type 0} → Exn → M A
raise e w = (err e, w)

-- One row, as `record(step, status, **detail)` appends it.
unfoldable pub add_row : Origin → String → EventStatus → Dict Value → World → World
add_row origin step status detail w = record w {
  seq = w.seq + 1;
  rows =
      w.rows
      ++ record {
        run_id = origin.run_id;
        seq = w.seq + 1;
        workflow = origin.workflow;
        step = step;
        status = status;
        actor = origin.actor;
        detail = detail;
      }
        ∷ [];
}

-- A keyword of the call is there twice: a parameter's name, or one that is written out.
unfoldable pub clashes : List String → Dict Value → Bool
clashes taken detail = any (λ k. one_of k taken) (keys detail)

unfoldable pub multiple_values : Exn
multiple_values = raised type_error "TypeError" "got multiple values for keyword argument"

-- The call `record(step, status, **given, **detail)`, where `taken` are the names that `detail`
-- cannot hold: then Python refuses the call, and no row is written.
unfoldable pub record_row :
    List String → Origin → String → EventStatus → Dict Value → Dict Value → M (Unit {0})
unfolding add_row clashes multiple_values
record_row taken origin step status given detail w =
    if clashes taken detail
    then (err multiple_values, w)
    else (ok tt, add_row origin step status (given ++ detail) w)
