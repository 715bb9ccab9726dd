-- ===== src/Sdk/Graph/Twins.antt =====
-- One template, run by both runners.
use navigator_orchestrator_a.Prelude.{
  String, ◌≡◌, refl, subst, ap, true, false, none, some, List, [], ◌∷◌, ◌++◌, Dict, Value, str, get,
  merge, put, map, one_of, if◌then◌else◌, arith,
}
use navigator_orchestrator_a.Sdk.Context.{
  Hook, positional_or_keyword, fresh_ctx, ok, err, raised, value_error,
}
use navigator_orchestrator_a.Sdk.Templates.{
  Step, local, gate, Template, hook_names, same_executor, engine_implemented,
}
use navigator_orchestrator_a.Sdk.Binding.{
  bind_kwargs, bind_each, takes_var_keyword, declared_parameters,
}
use navigator_orchestrator_a.Sdk.Execution.{resolve_hook, call_step_hook, summarise_product}
use navigator_orchestrator_a.Sdk.Events.{Origin, World, clashes}
use navigator_orchestrator_a.Sdk.Runner.{
  Setting, Chosen, choose, choose_hook, perform, cleared, run_template,
}
use navigator_orchestrator_a.Sdk.Judge.{Model}
use navigator_orchestrator_a.Sdk.Graph.{finished, LangGraph, run_template_graph}
use navigator_orchestrator_a.Sdk.Graph.Rows.{reserved, Unreserved}
use navigator_orchestrator_a.Sdk.Graph.Equivalence.{run_chain, Tame}
use navigator_orchestrator_a.Sdk.Graph.Chain.{TakesNodes, plain_name}
use navigator_orchestrator_a.Sdk.Graph.Pausing.{run_to_gate, run_template_graph-run_to_gate}
use navigator_orchestrator_a.Sdk.Graph.SameRun.{
  RunsChains, Chainable, run_template_graph-run_template,
}

-- `def stamp(ctx)`, which notes that it ran.
abbrev stamp : Hook
stamp = record {
  fn_name = "stamp";
  module_name = "hooks";
  parameters = record { name = "ctx"; kind = positional_or_keyword; has_default = false } ∷ [];
  body = λ c kwargs. (ok (str "done"), record c { notes = c.notes ++ "stamped" ∷ [] });
}

abbrev stamping : String → Step
stamping name = record {
  name = name;
  executor = local;
  produces = name;
  kwargs = [];
  default = some stamp;
  uses = "";
  summary_keys = [];
  doc = "";
  command = [];
  timeout = 0;
  call = none;
  backend = "";
  when = "";
  schema = "";
  input = "";
  output_schema = "";
}

abbrev twice : Template
twice = record {
  name = "twice";
  steps = stamping "first" ∷ stamping "second" ∷ [];
  prompt_refs = [];
  doc = "";
  params = [];
  requires = [];
  publishes = "";
  result_schema = "";
}

abbrev setting : Setting
setting = record {
  hooks = [];
  implementations = [];
  engine = record {
    run_shell = λ step c pool. (ok (str ""), c);
    run_service = λ step c pool. (ok (str ""), c);
    load_schema = λ id. ok (str id);
    validate_instance =
        λ schema v. record { schema_id = "s"; revision = "1"; valid = false; findings = [] };
  };
  backends = none;
  env = [];
}

abbrev model : Model
model = record { ask = λ n p. ok ""; loads = λ s. ok (str s); dumps = λ v. ""; show = λ v. "" }

abbrev origin : Origin
origin = record { run_id = "r2"; workflow = "twice"; actor = "ops" }

abbrev before : World
before = record { ctx = fresh_ctx [] true; rows = []; seq = 0 }

-- A LangGraph that does no more than run chains.
abbrev sequential : LangGraph
sequential = record {
  add_node = λ ns name node.
      if one_of name (map (λ n. n.0) ns)
      then err (raised value_error "ValueError" "already present")
      else ok (ns ++ (name, node) ∷ []);
  recursion_limit = 25;
  invoke = λ g state. run_chain g.nodes state;
  resume = λ g v w. (ok (finished (record { pool = []; notes = []; steps = [] })), w);
}

sequential-RunsChains : RunsChains sequential
sequential-RunsChains ns state w plain distinct some_node few = refl

sequential-TakesNodes : TakesNodes sequential
sequential-TakesNodes ns name node plain fresh = rw fresh refl

twice-Chainable : Chainable sequential twice
unfolding hook_names plain_name
twice-Chainable = record {
  plain = (refl, (refl, tt));
  distinct = (refl, (refl, tt));
  some_step = ground arith;
  few = ground arith;
}

abbrev stamped : Chosen
stamped = record { fn = some stamp; source = "default"; kwargs = [] }

choose-stamped :
    (name : String) (pool : Dict Value) (chosen : Chosen)
    → choose setting (stamping name) pool ≡ ok chosen
    → stamped ≡ chosen
unfolding choose choose_hook resolve_hook bind_kwargs bind_each takes_var_keyword
    declared_parameters get engine_implemented same_executor
choose-stamped name pool chosen e = ap (λ r. elim r [ ok c ↦ c | err x ↦ stamped ]) e

stamping-Tame : (name : String) → Tame setting (stamping name)
unfolding perform call_step_hook cleared summarise_product clashes merge put same_executor
stamping-Tame name = record {
  no_gate = refl;
  unreserved = λ chosen pool c e.
      subst (λ x. Unreserved setting (stamping name) x pool c) (choose-stamped name pool chosen e)
        (
          refl,
          λ v q.
              subst (λ x. clashes reserved (merge (summarise_product x []) []) ≡ false)
                (ap (λ r. elim r [ ok x ↦ x | err x ↦ v ]) q) refl,
        );
  appends = λ chosen pool c e.
      subst
        (λ x.
          (added : List String) × ((perform setting (stamping name) x pool (cleared c)).1.notes
            ≡ c.notes ++ added))
        (choose-stamped name pool chosen e) ("stamped" ∷ [], refl);
}

run_template_graph-run_template_example :
    run_template_graph sequential origin setting model twice [] before
    ≡ run_template origin setting twice before
unfolding hook_names fresh_ctx
run_template_graph-run_template_example =
    run_template_graph-run_template sequential origin setting model twice before
      sequential-TakesNodes sequential-RunsChains
      (stamping-Tame "first", (stamping-Tame "second", tt)) twice-Chainable refl

-- A gate between the two steps.
abbrev sign_off : Step
sign_off = record (stamping "sign-off") { executor = gate; default = none; kwargs = "first" ∷ [] }

abbrev gated : Template
gated = record twice { steps = stamping "first" ∷ sign_off ∷ stamping "second" ∷ [] }

gated-Chainable : Chainable sequential gated
unfolding hook_names plain_name
gated-Chainable = record {
  plain = (refl, (refl, (refl, tt)));
  distinct = (refl, (refl, (refl, tt)));
  some_step = ground arith;
  few = ground arith;
}

run_template_graph-run_to_gate_example :
    run_template_graph sequential origin setting model gated [] before
    ≡ run_to_gate origin setting gated (stamping "first" ∷ []) sign_off before
unfolding hook_names fresh_ctx same_executor
run_template_graph-run_to_gate_example =
    run_template_graph-run_to_gate sequential origin setting model gated (stamping "first" ∷ [])
      (stamping "second" ∷ []) sign_off before sequential-TakesNodes sequential-RunsChains refl
      (stamping-Tame "first", tt) refl refl gated-Chainable refl
