-- ===== src/Sdk/Graph/Tests.antt =====
-- A graph of one gate with a judge before it, and the theorems there.
use navigator_orchestrator_a.Sdk.Judge.{Verdict, pass}
use navigator_orchestrator_a.Prelude.{true, none, [], ◌∷◌, ◌++◌, Value, str, bool, fields_of}
use navigator_orchestrator_a.Sdk.Context.{fresh_ctx, ok}
use navigator_orchestrator_a.Sdk.Templates.{Step, gate, Template}
use navigator_orchestrator_a.Sdk.Events.{Origin, World}
use navigator_orchestrator_a.Sdk.Runner.{Setting}
use navigator_orchestrator_a.Sdk.Judge.{block, Judge, Model}
use navigator_orchestrator_a.Sdk.Graph.{LangGraph, finished, GraphState}

abbrev approval : Step
approval = record {
  name = "approve";
  executor = gate;
  produces = "approval";
  kwargs = "memo" ∷ [];
  default = none;
  uses = "";
  summary_keys = [];
  doc = "";
  command = [];
  timeout = 0;
  call = none;
  backend = "";
  when = "screen.hit";
  schema = "";
  input = "";
  output_schema = "";
}

abbrev one_gate : Template
one_gate = record {
  name = "kyc";
  steps = approval ∷ [];
  prompt_refs = [];
  doc = "";
  params = [];
  requires = [];
  publishes = "";
  result_schema = "";
}

abbrev critic : Judge
critic = record {
  id = "tone";
  version = 2;
  prompt = "";
  applies_to = "kyc" ∷ [];
  inputs = [];
  before = "approve" ∷ [];
  after = [];
  on_fail = block;
}

abbrev setting : Setting
setting = record {
  hooks = [];
  implementations = [];
  engine = record {
    run_shell = λ step c pool. (ok (str ""), c);
    run_service = λ step c pool. (ok (str ""), c);
    load_schema = λ id. ok (str id);
    validate_instance =
        λ schema v. record { schema_id = "s"; revision = "1"; valid = true; findings = [] };
  };
  backends = none;
  env = [];
}

abbrev model : Model
model = record { ask = λ n p. ok ""; loads = λ s. ok (str s); dumps = λ v. ""; show = λ v. "" }

abbrev origin : Origin
origin = record { run_id = "r1"; workflow = "kyc"; actor = "ops" }

-- A LangGraph that takes every node.
abbrev willing : LangGraph
willing = record {
  add_node = λ ns name node. ok (ns ++ (name, node) ∷ []);
  recursion_limit = 25;
  invoke = λ g state w. (ok (finished state), w);
  resume = λ g v w. (ok (finished (record { pool = []; notes = []; steps = [] })), w);
}

abbrev at_gate : GraphState
at_gate = record {
  pool = ("screen", Value.obj (fields_of (("hit", bool true) ∷ []))) ∷ [];
  notes = [];
  steps = [];
}

abbrev before : World
before = record { ctx = fresh_ctx [] true; rows = []; seq = 0 }

-- A model that passes everything, and what the critic makes of it.
abbrev pleased : Model
pleased = record {
  ask = λ n prompt. ok "{}";
  loads = λ blob. ok (Value.obj (fields_of (("verdict", str "pass") ∷ [])));
  dumps = λ v. "";
  show = λ v. "";
}

abbrev praise : Verdict
praise = record { verdict = pass; reason = ""; offending = [] }
