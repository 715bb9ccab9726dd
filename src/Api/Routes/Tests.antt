-- ===== src/Api/Routes/Tests.antt =====
-- The routes over the small deployment of the engine's tests.
use navigator_orchestrator_a.Prelude.{
  true, false, ◌≡◌, refl, ◌⊎◌, none, some, [], ◌∷◌, get, str, obj, end,
}
use navigator_orchestrator_a.Store.Models.{approve, Principal, is_anonymous, ok as stored}
use navigator_orchestrator_a.Store.Memory.{get_run, chain, new_decision, append_decision}
use navigator_orchestrator_a.Engine.State.{ok}
use navigator_orchestrator_a.Engine.Workflows.{get_workflow}
use navigator_orchestrator_a.Engine.Runner.Actions.{World}
use navigator_orchestrator_a.Engine.Runner.Lifecycle.{Ended}
use navigator_orchestrator_a.Engine.Tests.{
  deployment, echo, fresh_world, paused_world, paused_store,
}
use navigator_orchestrator_a.Api.Authz.{
  Settings, make_principal_provider, require_principal, provide, unattributable,
}
use navigator_orchestrator_a.Api.Authz.Attribution.{require_principal_lem}
use navigator_orchestrator_a.Api.Routes.{Context, streaming, decide, create_run}
use navigator_orchestrator_a.Api.Routes.Decisions.{
  awaits, is_stream, Posted, decide_refused, decide_recorded, decide-Ended, append_decision_twice,
}
use navigator_orchestrator_a.Api.Routes.Models.{Charged, create_run_lem}

abbrev context : Context
context = record {
  runner = deployment;
  allowed_models = "fake:local" ∷ [];
  dump_run = λ r. str r.id;
  dump_decision = λ d. str d.id;
  dump_entry = λ e. str e.status;
  model_json_schema = λ c. obj end;
  policy_errors = λ m t. [];
}

abbrev alice : Principal
alice = record { subject = "alice"; scopes = []; issuer = "header" }

awaited : awaits "echo" "r1" paused_store ≡ true
unfolding awaits get_run get
awaited = refl

-- Through another workflow's URL.
elsewhere : awaits "kyc" "r1" paused_store ≡ false
unfolding awaits get_run get
elsewhere = refl

decide_refused_example :
    let (answer, w') = decide context "kyc" "r1" approve none alice "d1" paused_world in
    (is_stream answer ≡ false)
    × (w'.runs ≡ some paused_store)
    × (w'.log ≡ some [])
    × (w'.entries ≡ [])
    × (w'.sent ≡ [])
decide_refused_example =
    decide_refused context "kyc" "r1" approve none alice "d1" paused_world paused_store refl
      elsewhere

-- The client of the resumed stream leaves at its first event.
abbrev hasty_world : World
hasty_world = record paused_world { patience = some 0 }

decide_recorded_example :
    Posted context "echo" "r1" approve none alice "d1" hasty_world paused_store
      (decide context "echo" "r1" approve none alice "d1" hasty_world).1
decide_recorded_example =
    decide_recorded context "echo" "r1" approve none alice "d1" hasty_world paused_store refl
      awaited

echo_found : get_workflow "echo" deployment.registry ≡ ok echo
unfolding get_workflow get
echo_found = refl

decide-Ended_example :
    let (answer, w') = decide context "echo" "r1" approve none alice "d1" paused_world in
    (answer ≡ streaming "alice") × Ended "r1" paused_world w'
decide-Ended_example =
    decide-Ended context "echo" "r1" approve none alice "d1" paused_world paused_store echo refl
      awaited echo_found refl

create_run_lem_example :
    let (answer, w') =
      create_run context "echo" (some (obj end)) alice (some "fake:local") none "r2" fresh_world in
    ((is_stream answer ≡ false) × (w' ≡ fresh_world))
    ⊎ ((answer ≡ streaming "alice") × Charged context "r2" fresh_world w')
create_run_lem_example =
    create_run_lem context "echo" (some (obj end)) alice (some "fake:local") none "r2" fresh_world

abbrev guarded : Settings
guarded = record { require_principal = true; principal_header = "x-user"; allowed_models = [] }

-- A header of one no-break space names nobody, and is let through.
blank_subject :
    require_principal guarded (make_principal_provider guarded) (("x-user", "\u{a0}") ∷ [])
    ≡ some (record { subject = ""; scopes = []; issuer = "header" })
unfolding require_principal make_principal_provider provide unattributable is_anonymous get
blank_subject = refl

require_principal_lem_example :
    require_principal guarded (make_principal_provider guarded) [] ≡ none
unfolding get
require_principal_lem_example = require_principal_lem guarded []

-- The same decision again, before the resumed run is marked.
append_decision_twice_example :
    let s' = (append_decision "r1" approve alice none "d1" 10 paused_store).1 in
    (append_decision "r1" approve alice none "d2" 11 s').0
    ≡ stored (new_decision "r1" (chain s' "r1") approve alice none "d2" 11, true)
append_decision_twice_example =
    append_decision_twice "r1" approve approve alice alice none none "d1" "d2" 10 11 paused_store
      "echo" awaited
