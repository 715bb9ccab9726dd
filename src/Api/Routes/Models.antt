-- ===== src/Api/Routes/Models.antt =====
-- The model that a request can make a run use.
use navigator_orchestrator_a.Prelude.{
  String, Bool, true, false, ◌||◌, not, ◌≡◌, refl, ap, subst, ◌∙◌, ◌⊎◌, inl, inr, Option, none,
  some, [], ◌∷◌, ◌++◌, arith, Option-cases, Value, one_of, str_eq, eq_iff,
}
use navigator_orchestrator_a.Store.Models.{Principal}
use navigator_orchestrator_a.Engine.State.{Exn, contract_error, raised, ok, Result-cases, validate}
use navigator_orchestrator_a.Engine.Policy.{Policy, Float, with_overrides, construct}
use navigator_orchestrator_a.Engine.Meter.{CostEntry, cost_entry}
use navigator_orchestrator_a.Engine.Workflows.{Workflow, get_workflow}
use navigator_orchestrator_a.Engine.Runner.Actions.{World}
use navigator_orchestrator_a.Engine.Runner.{Request, run, start, stream}
use navigator_orchestrator_a.Engine.Runner.Keeping.Logging.{stream-Recorded}
use navigator_orchestrator_a.Api.Routes.{
  Context, streaming, create_run, failure, unknown_workflow, resolve_policy, some_model,
}
use navigator_orchestrator_a.Api.Routes.Decisions.{is_stream}

-- The deployment's model, or one of those that it allows; any, where it names none.
unfoldable pub permitted : Context → String → Bool
permitted context model =
    not (some_model context.allowed_models)
    || one_of model context.allowed_models
    || str_eq model context.runner.default_policy.model

resolve_policy-permitted :
    (context : Context) (model : Option String) (temperature : Option Float) (policy : Policy)
    → resolve_policy context model temperature ≡ some (ok policy)
    → permitted context policy.model ≡ true
unfolding resolve_policy permitted with_overrides construct
resolve_policy-permitted context none temperature policy e =
    ground (arith, eq_iff policy.model context.runner.default_policy.model)
resolve_policy-permitted context (some m) temperature policy e =
    ground (arith, eq_iff policy.model m)

-- One entry of the meter more, for this run and a permitted model.
pub record Charged (context : Context) (run_id : String) (w w' : World) : Type 0 where
  pub entry : CostEntry
  pub metered : w'.entries ≡ w.entries ++ entry ∷ []
  pub of_run : entry.run_id ≡ run_id
  pub of_model : permitted context entry.model ≡ true

stream-Charged :
    (context : Context) (workflow : Workflow) (policy : Policy) (run_id : String)
    (request : Request) (w : World)
    → permitted context policy.model ≡ true
    → Charged context run_id w (stream context.runner workflow policy run_id request w)
unfolding cost_entry
stream-Charged context workflow policy run_id request w allowed =
    let r = stream-Recorded context.runner workflow policy run_id request w in
    record { entry = _; metered = r.metered; of_run = refl; of_model = allowed }

run-Charged :
    (context : Context) (name : String) (payload : Value) (policy : Policy)
    (principal : Option Principal) (run_id : String) (w w' : World)
    → permitted context policy.model ≡ true
    → run context.runner name payload (some policy) principal run_id w ≡ ok w'
    → Charged context run_id w w'
unfolding run
run-Charged context name payload policy principal run_id w w' allowed e =
    elim (Result-cases (get_workflow name context.runner.registry)) [
      | inr (x, missing) ↦ absurd (ground arith)
      | inl (workflow, found) ↦
          elim (Result-cases (validate "input" workflow.input_contract payload)) [
            | inr (x, refused) ↦ absurd (ground arith)
            | inl (fields, valid) ↦
                let request = start fields principal in
                let same : stream context.runner workflow policy run_id request w ≡ w' =
                  ground arith in
                subst (λ v. Charged context run_id w v) same
                  (stream-Charged context workflow policy run_id request w allowed)
          ]
    ]

no_stream : (e : Exn) → is_stream (unknown_workflow e) ≡ false
unfolding unknown_workflow failure
no_stream (contract_error direction name errors) = refl
no_stream (raised kind text) = ground arith

-- A posted run either is refused with a status, and then nothing at all has changed; or is answered
-- by a stream, and then, wherever the client stops reading, it is metered once under its id and
-- with a model that is the deployment's own or one that it allows.
pub create_run_lem :
    (context : Context) (name : String) (payload : Option Value) (principal : Principal)
    (model : Option String) (temperature : Option Float) (run_id : String) (w : World)
    → let (answer, w') = create_run context name payload principal model temperature run_id w in
      ((is_stream answer ≡ false) × (w' ≡ w))
      ⊎ ((answer ≡ streaming principal.subject) × Charged context run_id w w')
unfolding create_run failure unknown_workflow
create_run_lem context name none principal model temperature run_id w = inl (refl, refl)
create_run_lem context name (some payload) principal model temperature run_id w =
    elim (Option-cases (resolve_policy context model temperature)) [
      | inl q ↦ rw (q, create_run) (inl (refl, refl))
      | inr (r, q) ↦ elim (Result-cases r) [
        | inr (e, bad) ↦ rw (q, bad, create_run) (inl (refl, refl))
        | inl (policy, good) ↦
            let resolved = q ∙ ap some good in
            elim (Result-cases
              (run context.runner name payload (some policy) (some principal) run_id w)) [
                | inr (e, refused) ↦ rw (resolved, refused, create_run) (inl (no_stream e, refl))
                | inl (w', ran) ↦
                    rw (resolved, ran, create_run)
                      (inr (
                        refl,
                        run-Charged context name payload policy (some principal) run_id w w'
                            (resolve_policy-permitted context model temperature policy resolved)
                            ran,
                      ))
              ]
      ]
    ]
