-- ===== src/Sdk/Runner.antt =====
-- sdk/runner.py: the sequential runner, `run_template`.
pub mod Log
pub mod Completion
pub mod Success
use navigator_orchestrator_a.Prelude.{
  ℕ, String, Bool, true, false, not, ◌&&◌, if◌then◌else◌, Option, none, some, List, [], ◌∷◌, ◌++◌,
  map, length, Dict, get, put, merge, Value, str, nat, arr, items_of, non_empty, truncate,
}
use navigator_orchestrator_a.Sdk.Context.{
  Ctx, Hook, Exn, step_failed, is_blocked, message, type_name, Result, ok, err,
}
use navigator_orchestrator_a.Sdk.Context
use navigator_orchestrator_a.Sdk.Templates.{
  Step, Template, Requirement, Executor, gate, same_executor, engine_implemented, executor_name,
}
use navigator_orchestrator_a.Sdk.Binding.{bind_kwargs}
use navigator_orchestrator_a.Sdk.Execution.{
  Engine, run_engine_step, call_step_hook, resolve_hook, summarise_product,
}
use navigator_orchestrator_a.Sdk.Preflight.{
  Backends, missing_requirements, describe_missing, backend_requirements,
}
use navigator_orchestrator_a.Sdk.Events.{
  EventStatus, started, succeeded, skipped, failed, blocked, Origin, World, M, ◌>>=◌, ◌>>◌, pure,
  raise, record_row,
}

pub record StepRecord : Type 0 where
  pub step : String
  pub executor : String
  pub source : String
  pub produced : String

pub record RunResult : Type 0 where
  pub workflow : String
  pub run_id : String
  pub pool : Dict Value
  pub steps : List StepRecord
  pub notes : List String
  pub paused_at : String
  pub gate : Option (Dict Value)

-- What a run is given: the hooks of the workflow file, the registered implementations, the engine's
-- executors, the project's backends and the environment.
pub record Setting : Type 0 where
  pub hooks : Dict Hook
  pub implementations : Dict Hook
  pub engine : Engine
  pub backends : Backends
  pub env : Dict String

-- `fn, source, kwargs` of a step.
pub record Chosen : Type 0 where
  pub fn : Option Hook
  pub source : String
  pub kwargs : Dict Value

-- The action of a pure function that may raise.
abbrev pub lift : {A : Type 0} → Result A → M A
lift r w = (r, w)

bound : Step → Dict Value → Hook × String → Result Chosen
bound step pool (fn, source) = elim (bind_kwargs fn pool step.kwargs) [
  | ok kwargs ↦ ok (record { fn = some fn; source = source; kwargs = kwargs })
  | err e ↦ err e
]

-- resolve_hook and bind_kwargs
unfoldable pub choose_hook : Setting → Step → Dict Value → Result Chosen
unfolding bound
choose_hook setting step pool = elim (resolve_hook step setting.hooks setting.implementations) [
  | ok found ↦ bound step pool found
  | err e ↦ err e
]

unfoldable pub choose : Setting → Step → Dict Value → Result Chosen
choose setting step pool =
    if engine_implemented step.executor && not (same_executor step.executor gate)
    then ok (record { fn = none; source = "engine"; kwargs = [] })
    else choose_hook setting step pool

-- The body of the `try`: the engine's own executor, or the hook.
unfoldable pub perform : Setting → Step → Chosen → Dict Value → Ctx → Result Value × Ctx
perform setting step chosen pool c = elim chosen.fn [
  | none ↦ run_engine_step setting.engine step c pool
  | some fn ↦ call_step_hook setting.engine step fn c chosen.kwargs
]

-- ctx.skipped = ""; ctx.detail = {}
unfoldable pub cleared : Ctx → Ctx
cleared c = record c { skipped = ""; detail = [] }

-- The parameters of `record`.
abbrev pub record_names : List String
record_names = "step_name" ∷ "status" ∷ []

abbrev pub at_step : String → Dict Value
at_step name = ("at_step", str name) ∷ []

-- The rows of a step that raised, and what the run raises then.
unfoldable pub step_raised : List String → Origin → String → Exn → M (Unit {0})
step_raised names origin name e w =
    if is_blocked e
    then ((do
      record_row ("reason" ∷ names) origin name blocked
          (("reason", str (truncate 300 (message e))) ∷ []) w.ctx.detail
      record_row names origin "run" blocked (at_step name) []
      raise e)
        w)
    else ((do
      record_row names origin name failed
          (("error", str (type_name e)) ∷ ("detail", str (truncate 300 (message e))) ∷ []) []
      record_row names origin "run" failed (at_step name) []
      raise (step_failed name e))
        w)

-- The row of a step that returned: skipped if the hook said so.
unfoldable pub step_returned : List String → Origin → Step → Value → M (Unit {0})
step_returned names origin step produced w =
    let detail = merge (summarise_product produced step.summary_keys) w.ctx.detail in
    if non_empty w.ctx.skipped
    then record_row names origin step.name skipped []
        (put detail "reason" (str (truncate 300 w.ctx.skipped))) w
    else record_row names origin step.name succeeded [] detail w

-- The `try` with its handlers: a row for what the step raised.
unfoldable pub called : List String → Origin → Setting → Step → Chosen → Dict Value → M Value
called names origin setting step chosen pool w =
    let (r, c) = perform setting step chosen pool (cleared w.ctx) in
    elim r [
      | ok v ↦ (ok v, record w { ctx = c })
      | err e ↦ (step_raised names origin step.name e >> raise e) (record w { ctx = c })
    ]

-- From the `started` row of a step to its terminal row, and what the step produced.
unfoldable pub execute : List String → Origin → Setting → Step → Chosen → Dict Value → M Value
execute names origin setting step chosen pool = do
  record_row names origin step.name started
      (("executor", str (executor_name step.executor)) ∷ ("source", str chosen.source) ∷ []) []
  produced ← called names origin setting step chosen pool
  step_returned names origin step produced
  pure produced

unfoldable pub step_record : Step → String → StepRecord
step_record step source = record {
  step = step.name;
  executor = executor_name step.executor;
  source = source;
  produced = step.produces;
}

-- The loop over the steps, with the pool and the records so far.
unfoldable pub run_steps :
    Origin → Setting → List Step → Dict Value → List StepRecord → M (Dict Value × List StepRecord)
run_steps origin setting [] pool done = pure (pool, done)
run_steps origin setting (step ∷ steps) pool done = do
  chosen ← lift (choose setting step pool)
  produced ← execute record_names origin setting step chosen pool
  run_steps origin setting steps (put pool step.produces produced)
      (done ++ step_record step chosen.source ∷ [])

-- The two branches of the preflight, by what is missing and what was asked for.
unfoldable pub checked : List String → Origin → List Requirement → List Requirement → M (Unit {0})
checked names origin (r ∷ rs) needed = do
  record_row names origin "preflight" blocked
      (("missing", arr (items_of (map (λ q. str q.variable) (r ∷ rs)))) ∷ []) []
  record_row names origin "run" blocked (at_step "preflight") []
  raise (Context.blocked (describe_missing (r ∷ rs)))
checked names origin [] [] = pure tt
checked names origin [] (q ∷ qs) =
    record_row names origin "preflight" succeeded (("checked", nat (length (q ∷ qs))) ∷ []) []

-- Before anything expensive: what the template and its backends ask for.
unfoldable pub preflight : List String → Origin → Setting → Template → M (Unit {0})
preflight names origin setting template = do
  credentials ← lift (backend_requirements setting.env template setting.backends)
  checked names origin (missing_requirements (template.requires ++ credentials) setting.env)
      (template.requires ++ credentials)

unfoldable pub result : Origin → Template → Dict Value → List StepRecord → List String → RunResult
result origin template pool done notes = record {
  workflow = template.name;
  run_id = origin.run_id;
  pool = pool;
  steps = done;
  notes = notes;
  paused_at = "";
  gate = none;
}

-- The last row, and the result.
unfoldable pub closed : Origin → Template → Dict Value × List StepRecord → M RunResult
closed origin template (pool, done) = do
  notes ← (λ w. (ok w.ctx.notes, w))
  record_row record_names origin "run" succeeded (("steps", nat (length done)) ∷ []) []
  pure (result origin template pool done notes)

unfoldable pub run_template : Origin → Setting → Template → M RunResult
run_template origin setting template = do
  record_row record_names origin "run" started (("steps", nat (length template.steps)) ∷ []) []
  preflight record_names origin setting template
  found ← (λ w. run_steps origin setting template.steps w.ctx.params [] w)
  closed origin template found
