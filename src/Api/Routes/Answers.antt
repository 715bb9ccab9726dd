-- ===== src/Api/Routes/Answers.antt =====
-- What the routes of api/routes.py answer, and the run that a URL names.
use navigator_orchestrator_a.Prelude.{
  ℕ, String, not, if◌then◌else◌, ◌⊎◌, inl, inr, Option, none, some, List, [], ◌∷◌, Dict, join, repr,
  str_eq, Value, null, str,
}
use navigator_orchestrator_a.Store.Models.{
  RunRecord, RunState, show_state, Verdict, approve, reject, amend, DecisionRecord, StoreError,
  run_conflict, run_not_found, ok, err,
}
use navigator_orchestrator_a.Store.Memory.{RunStore, get_run}
use navigator_orchestrator_a.Store.RunLog.{RunLogEntry}
use navigator_orchestrator_a.Engine.State.{Exn, contract_error, raised, as_payload, Contract}
use navigator_orchestrator_a.Engine.Policy.{Float}
use navigator_orchestrator_a.Engine.Runner.Actions.{Runner}

-- What a route uses of the application. The dumps, the JSON schema and the error entries of a
-- refused policy are Pydantic's.
pub record Context : Type 0 where
  pub runner : Runner
  pub allowed_models : List String
  pub dump_run : RunRecord → Value
  pub dump_decision : DecisionRecord → Value
  pub dump_entry : RunLogEntry → Value
  pub model_json_schema : Contract → Value
  pub policy_errors : Option String → Option Float → List Value

pub data Response : Type 0 where
  json : ℕ → Dict Value → Response
  -- application/yaml
  plain : String → Response
  -- an event stream, with the principal's header
  streaming : String → Response
  -- an exception that the route lets through
  server_error : Response

-- JSONResponse({"error": error, "detail": detail}, status_code)
unfoldable pub failure : ℕ → String → Value → Response
failure status error detail = json status (("error", str error) ∷ ("detail", detail) ∷ [])

abbrev pub not_durable : Response
not_durable = json 501 (("error", str "runs_not_durable") ∷ [])

-- str of RunNotFoundError, a KeyError
unfoldable pub unknown_run : String → Response
unfolding failure
unknown_run run_id = failure 404 "unknown_run" (str (repr (join "unknown run " (repr run_id))))

-- What the routes catch of the call: UnknownWorkflowError and ContractError.
unfoldable pub unknown_workflow : Exn → Response
unfolding failure
unknown_workflow (raised kind text) =
    if str_eq kind "UnknownWorkflowError"
    then failure 404 "unknown_workflow" (str text)
    else server_error
unknown_workflow (contract_error direction name errors) =
    json 422 (as_payload direction name errors)

-- _workflow_run_mismatch
unfoldable pub workflow_run_mismatch : String → String → Response
unfolding failure
workflow_run_mismatch run_id actual =
    failure 404 "workflow_run_mismatch"
      (str (join "run " (join (repr run_id) (join " belongs to workflow " (repr actual)))))

-- _get_scoped_run: the run, or the answer that says why not
unfoldable pub get_scoped_run : String → String → RunStore → RunRecord ⊎ Response
unfolding unknown_run workflow_run_mismatch
get_scoped_run workflow run_id s = elim (get_run run_id s) [
  | err e ↦ inr (unknown_run run_id)
  | ok found ↦
      if not (str_eq found.workflow workflow)
      then inr (workflow_run_mismatch run_id found.workflow)
      else inl found
]

unfoldable pub show_verdict : Verdict → String
show_verdict approve = "approve"
show_verdict reject = "reject"
show_verdict amend = "amend"

-- What the graph is resumed with.
unfoldable pub resume_with : DecisionRecord → Dict Value
unfolding show_verdict
resume_with d =
    ("verdict", str (show_verdict d.verdict))
    ∷ ("comment", (elim d.comment [ none ↦ null | some c ↦ str c ]))
    ∷ ("decided_by", str d.principal.subject)
    ∷ []

-- The 409 of a RunConflictError, whose text is that of `append_decision`.
unfoldable pub run_conflict_answer : String → RunState → Response
run_conflict_answer run_id state = json 409 (
    ("error", str "run_conflict")
    ∷ ("state", str (show_state state))
    ∷ (
      "detail",
      str (
          join "run " (
            join (repr run_id)
              (join " is " (join (repr (show_state state)) ": not awaiting a decision")))),
    )
    ∷ [])

unfoldable pub store_refusal : StoreError → Response
unfolding unknown_run run_conflict_answer
store_refusal (run_not_found run_id) = unknown_run run_id
store_refusal (run_conflict run_id state) = run_conflict_answer run_id state

unfoldable pub python_source_answer : String → Response
unfolding failure
python_source_answer name =
    failure 404 "yaml_source_unavailable"
      (str (join "workflow " (join (repr name) " is defined in Python, not YAML")))
