-- ===== src/Sdk/Tests.antt =====
-- Runs of small templates, and the theorems about them there.
use navigator_orchestrator_a.Prelude.{
  String, ◌≡◌, refl, true, false, none, some, [], ◌∷◌, Dict, get, put, Value, str,
}
use navigator_orchestrator_a.Sdk.Context.{Hook, positional_or_keyword, fresh_ctx, ok}
use navigator_orchestrator_a.Sdk.Templates.{Step, Executor, local, agent, Template}
use navigator_orchestrator_a.Sdk.Execution.{Engine, call_step_hook}
use navigator_orchestrator_a.Sdk.Execution.Contracts.{Contracted, call_step_hook-Contracted}
use navigator_orchestrator_a.Sdk.Events.{Origin, World}
use navigator_orchestrator_a.Sdk.Runner.{Setting, RunResult, run_template, result, step_record}
use navigator_orchestrator_a.Sdk.Runner.Log.{Logged, run_template-Logged}

-- `async def read(ctx, client)`, which notes that it ran and returns its client.
abbrev read_client : Hook
read_client = record {
  fn_name = "read";
  module_name = "hooks";
  parameters =
      record { name = "ctx"; kind = positional_or_keyword; has_default = false }
      ∷ record { name = "client"; kind = positional_or_keyword; has_default = false }
      ∷ [];
  body = λ c kwargs. (
    elim (get kwargs "client") [ none ↦ ok (str "") | some v ↦ ok v ],
    record c { notes = "read" ∷ [] },
  );
}

abbrev plain_step : String → Executor → String → Step
plain_step name executor produces = record {
  name = name;
  executor = executor;
  produces = produces;
  kwargs = "client" ∷ [];
  default = some read_client;
  uses = "";
  summary_keys = [];
  doc = "";
  command = [];
  timeout = 0;
  call = none;
  backend = "";
  when = "";
  schema = "";
  input = "";
  output_schema = "";
}

abbrev two_steps : Template
two_steps = record {
  name = "kyc";
  steps = plain_step "read" local "profile" ∷ plain_step "draft" agent "memo" ∷ [];
  prompt_refs = [];
  doc = "";
  params = [];
  requires = record { variable = "KEY"; why = "" } ∷ [];
  publishes = "";
  result_schema = "";
}

-- A validator that accepts everything.
abbrev lenient : Engine
lenient = record {
  run_shell = λ step c pool. (ok (str ""), c);
  run_service = λ step c pool. (ok (str ""), c);
  load_schema = λ id. ok (str id);
  validate_instance =
      λ schema v. record { schema_id = "s"; revision = "1"; valid = true; findings = [] };
}

abbrev setting : Setting
setting = record {
  hooks = [];
  implementations = [];
  engine = lenient;
  backends = none;
  env = ("KEY", "k") ∷ [];
}

abbrev origin : Origin
origin = record { run_id = "r1"; workflow = "kyc"; actor = "ops" }

abbrev before : World
before = record { ctx = fresh_ctx (("client", str "acme") ∷ []) true; rows = []; seq = 0 }

abbrev structured : Step
structured = record (plain_step "draft" agent "memo") { output_schema = "memo" }

abbrev acme : Dict Value
acme = ("client", str "acme") ∷ []

call_step_hook-Contracted_example :
    (before.ctx.in_project ≡ true)
    × Contracted lenient structured
        (str "acme")
        (call_step_hook lenient structured read_client before.ctx acme).1
unfolding call_step_hook get fresh_ctx put
call_step_hook-Contracted_example =
    call_step_hook-Contracted lenient structured read_client before.ctx
      (call_step_hook lenient structured read_client before.ctx acme).1 acme (str "acme") refl refl
      refl

run_template-Logged_example : Logged origin before (run_template origin setting two_steps before).1
run_template-Logged_example = run_template-Logged origin setting two_steps before

abbrev outcome : RunResult
outcome =
    result origin two_steps
      (("client", str "acme") ∷ ("profile", str "acme") ∷ ("memo", str "acme") ∷ [])
      (step_record (plain_step "read" local "profile") "default"
        ∷ step_record (plain_step "draft" agent "memo") "default"
        ∷ [])
      ("read" ∷ [])
