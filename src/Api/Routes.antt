-- ===== src/Api/Routes.antt =====
-- src/navigator_orchestrator/api/routes.py over the in-memory store: each route as what it answers
-- and the world it leaves. A streamed answer leaves the world in which the client is done with it.
-- `/healthz` asks other processes and is not modelled; checks of query parameters are FastAPI's.
mod Answers
pub mod Decisions
pub mod Models
mod Tests
use navigator_orchestrator_a.Prelude.{
  ℕ, ◌+◌, String, Bool, true, false, ◌&&◌, not, if◌then◌else◌, ◌⊎◌, inl, inr, Option, none, some,
  List, [], ◌∷◌, map, Dict, join, repr, one_of, sort_by, str_lt, str_eq, non_empty, values, Value,
  null, bool, str, arr, obj, fields_of, items_of,
}
use navigator_orchestrator_a.Store.Models.{
  RunRecord, RunState, show_state, Verdict, approve, reject, amend, Principal, DecisionRecord,
  StoreError, run_conflict, run_not_found, Result, ok, err,
}
use navigator_orchestrator_a.Store.Memory.{
  RunStore, get_run, list_runs, append_decision, decisions_for,
}
use navigator_orchestrator_a.Store.RunLog.{RunLogEntry, read}
use navigator_orchestrator_a.Engine.State.{
  Exn, contract_error, raised, as_payload, Contract, Result as Outcome, ok as good, err as bad,
}
use navigator_orchestrator_a.Engine.Policy.{Policy, Float, with_overrides}
use navigator_orchestrator_a.Engine.Workflows.{
  Workflow, WorkflowSource, SourceKind, yaml, python, source,
}
use navigator_orchestrator_a.Engine.Runner.Actions.{Runner, World}
use navigator_orchestrator_a.Engine.Runner.{run, resume}
unfoldable pub use Answers.*

-- bool(allowed)
pub some_model : List String → Bool
some_model [] = false
some_model (m ∷ ms) = true

-- _resolve_policy: None where the model is not allowed
pub resolve_policy : Context → Option String → Option Float → Option (Outcome Policy)
unfolding some_model
resolve_policy context none temperature =
    some (with_overrides context.runner.default_policy none temperature)
resolve_policy context (some model) temperature =
    if some_model context.allowed_models && not (one_of model context.allowed_models)
    then none
    else some (with_overrides context.runner.default_policy (some model) temperature)

-- POST /workflows/{name}/runs, with the id that a new run gets. `payload` is none for a body that
-- is no JSON.
unfoldable pub create_run :
    Context
    → String
    → Option Value
    → Principal
    → Option String
    → Option Float
    → String
    → World
    → Response × World
unfolding resolve_policy unknown_workflow failure
create_run context name none principal model temperature run_id w =
    (json 400 (("error", str "invalid_json") ∷ []), w)
create_run context name (some payload) principal model temperature run_id w =
    elim (resolve_policy context model temperature) [
      | none ↦ (
        failure 403 "model_not_allowed" (
            str (
              join (elim model [ none ↦ "None" | some m ↦ repr m ])
                " is not in NAVIGATOR_ALLOWED_MODELS")),
        w,
      )
      | some (bad e) ↦ (
        failure 400 "invalid_policy" (arr (items_of (context.policy_errors model temperature))),
        w,
      )
      | some (good policy) ↦
          elim (run context.runner name payload (some policy) (some principal) run_id w) [
            | bad e ↦ (unknown_workflow e, w)
            | good w' ↦ (streaming principal.subject, w')
          ]
    ]

-- GET /workflows/{name}/runs
unfoldable pub list_runs_route : Context → String → Option RunState → ℕ → World → Response
list_runs_route context name state limit w = elim w.runs [
  | none ↦ not_durable
  | some s ↦
      json 200
        (("runs", arr (items_of (map context.dump_run (list_runs (some name) state limit s)))) ∷ [])
]

-- GET /workflows/{name}/runs/{run_id}
unfoldable pub get_run_route : Context → String → String → World → Response
unfolding get_scoped_run unknown_run
get_run_route context name run_id w = elim w.runs [
  | none ↦ not_durable
  | some s ↦ elim (get_scoped_run name run_id s) [
    | inr answer ↦ answer
    | inl found ↦ elim (decisions_for run_id s) [
      | err e ↦ unknown_run run_id
      | ok decisions ↦ json 200 (
          ("run", context.dump_run found)
          ∷ ("decisions", arr (items_of (map context.dump_decision decisions)))
          ∷ [])
    ]
  ]
]

-- GET /workflows/{name}/runs/{run_id}/log; the application always has a log
unfoldable pub get_run_log_route : Context → String → String → World → Response
unfolding get_scoped_run
get_run_log_route context name run_id w = elim w.runs [
  | none ↦ not_durable
  | some s ↦ elim (get_scoped_run name run_id s) [
    | inr answer ↦ answer
    | inl found ↦ elim w.log [
      | none ↦ server_error
      | some log ↦
          json 200 (("entries", arr (items_of (map context.dump_entry (read log run_id)))) ∷ [])
    ]
  ]
]

-- The world with the store after a decision, written at one reading of the clock.
unfoldable pub with_store : RunStore → World → World
with_store s w = record w { runs = some s; reads = w.reads + 1 }

-- A recorded decision: a retry is answered, a new one resumes the run.
unfoldable pub act_on :
    Context → String → String → Principal → DecisionRecord × Bool → World → Response × World
unfolding resume_with unknown_workflow
act_on context name run_id principal (decided, is_new) w =
    if not is_new
    then (
      json 200
          (("status", str "already_decided") ∷ ("decision", context.dump_decision decided) ∷ []),
      w,
    )
    else (elim (resume context.runner name run_id (resume_with decided) none w) [
      | bad e ↦ (unknown_workflow e, w)
      | good w' ↦ (streaming principal.subject, w')
    ])

-- POST /workflows/{name}/runs/{run_id}/decisions, with the id that a new decision gets.
unfoldable pub decide :
    Context
    → String
    → String
    → Verdict
    → Option String
    → Principal
    → String
    → World
    → Response × World
unfolding get_scoped_run store_refusal act_on with_store
decide context name run_id verdict comment principal uuid w = elim w.runs [
  | none ↦ (not_durable, w)
  | some s ↦ elim (get_scoped_run name run_id s) [
    | inr answer ↦ (answer, w)
    | inl found ↦
        let (r, s') =
          append_decision run_id verdict principal comment uuid (context.runner.clock w.reads) s in
        elim r [
          | err e ↦ (store_refusal e, with_store s' w)
          | ok outcome ↦ act_on context name run_id principal outcome (with_store s' w)
        ]
  ]
]

-- One workflow of the list.
summary : Context → Workflow → Option Value
summary context workflow = elim (source workflow.name context.runner.registry) [
  | bad e ↦ none
  | good found ↦ some (
      obj (
        fields_of (
          ("name", str workflow.name)
          ∷ ("input_schema", context.model_json_schema workflow.input_contract)
          ∷ ("source_kind", str (elim found.kind [ yaml ↦ "yaml" | python ↦ "python" ]))
          ∷ ("checkpointed", bool workflow.checkpointed)
          ∷ [])))
]

summaries : Context → List Workflow → Option (List Value)
unfolding summary
summaries context [] = some []
summaries context (workflow ∷ rest) = elim (summary context workflow) [
  | none ↦ none
  | some v ↦ elim (summaries context rest) [ none ↦ none | some vs ↦ some (v ∷ vs) ]
]

by_name : Workflow → Workflow → Bool
by_name a b = str_lt a.name b.name

-- GET /workflows
unfoldable pub list_workflows : Context → Response
unfolding summaries by_name
list_workflows context =
    elim (summaries context (sort_by by_name (values context.runner.registry.workflows))) [
      | none ↦ server_error
      | some vs ↦ json 200 (("workflows", arr (items_of vs)) ∷ [])
    ]

-- GET /workflows/{name}/source
unfoldable pub get_workflow_source : Context → String → Response
unfolding unknown_workflow python_source_answer
get_workflow_source context name = elim (source name context.runner.registry) [
  | bad e ↦ unknown_workflow e
  | good found ↦ elim found.kind [
    | python ↦ python_source_answer name
    | yaml ↦ elim found.source_text [ none ↦ python_source_answer name | some text ↦ plain text ]
  ]
]
