-- ===== src/Kyc/Onboarding/Tests.antt =====
-- An onboarding whose hooks all find the client to be a politically exposed person.
use navigator_orchestrator_a.Prelude.{
  ℕ, String, ◌≡◌, refl, sym, subst, ap, ◌∙◌, All, arith, true, false, none, some, List, [], ◌∷◌,
  ◌++◌, Dict, Value, obj, bool, fields_of, get, put, merge, at_keys, truthy, map, one_of,
  if◌then◌else◌,
}
use navigator_orchestrator_a.Sdk.Context.{
  Ctx, Hook, Result, positional_or_keyword, fresh_ctx, ok, err, raised, value_error,
}
use navigator_orchestrator_a.Sdk.Templates.{Step, gate, same_executor, engine_implemented}
use navigator_orchestrator_a.Sdk.Binding.{
  bind_kwargs, bind_each, takes_var_keyword, declared_parameters,
}
use navigator_orchestrator_a.Sdk.Execution.{resolve_hook, call_step_hook, summarise_product}
use navigator_orchestrator_a.Sdk.Events.{Origin, World, StepEvent, clashes, record_row, add_row}
use navigator_orchestrator_a.Sdk.Runner.{
  Setting, StepRecord, Chosen, choose, choose_hook, perform, cleared, run_steps, execute, called,
  step_returned,
}
use navigator_orchestrator_a.Sdk.Judge.{Model}
use navigator_orchestrator_a.Sdk.Graph.{LangGraph, finished, run_template_graph, resolve_path}
use navigator_orchestrator_a.Sdk.Graph.Rows.{reserved, Unreserved}
use navigator_orchestrator_a.Sdk.Graph.Equivalence.{run_chain, Tame}
use navigator_orchestrator_a.Sdk.Graph.Pausing.{run_to_gate}
use navigator_orchestrator_a.Kyc.Onboarding.{kyc_steps, kyc_onboarding}
use navigator_orchestrator_a.Kyc.Onboarding.Holding.{
  pep_gate, screening, FindsPep, Held, kyc_onboarding-Held,
}

abbrev exposed : Value
exposed = obj (fields_of (("is_pep", bool true) ∷ []))

-- `def look(ctx)`, which notes that it ran.
abbrev look : Hook
look = record {
  fn_name = "look";
  module_name = "hooks";
  parameters = record { name = "ctx"; kind = positional_or_keyword; has_default = false } ∷ [];
  body = λ c kwargs. (ok exposed, record c { notes = c.notes ++ "looked" ∷ [] });
}

abbrev hooks : String → Hook
hooks name = look

abbrev setting : Setting
setting = record {
  hooks = [];
  implementations = [];
  engine = record {
    run_shell = λ step c pool. (ok (obj (fields_of [])), c);
    run_service = λ step c pool. (ok (obj (fields_of [])), c);
    load_schema = λ id. ok (obj (fields_of []));
    validate_instance =
        λ schema v. record { schema_id = "s"; revision = "1"; valid = false; findings = [] };
  };
  backends = none;
  env = [];
}

abbrev model : Model
model = record { ask = λ n p. ok ""; loads = λ s. ok exposed; dumps = λ v. ""; show = λ v. "" }

abbrev origin : Origin
origin = record { run_id = "r7"; workflow = "kyc-onboarding"; actor = "ops" }

abbrev before : World
before = record { ctx = fresh_ctx [] true; rows = []; seq = 0 }

-- A LangGraph that does no more than run chains.
abbrev in_order : LangGraph
in_order = record {
  add_node = λ ns name node.
      if one_of name (map (λ n. n.0) ns)
      then err (raised value_error "ValueError" "already present")
      else ok (ns ++ (name, node) ∷ []);
  recursion_limit = 25;
  invoke = λ g state. run_chain g.nodes state;
  resume = λ g v w. (ok (finished (record { pool = []; notes = []; steps = [] })), w);
}

abbrev looking : Chosen
looking = record { fn = some look; source = "default"; kwargs = [] }

-- A step is tame that is bound to `look`.
Tame-looking :
    (s : Step)
    → same_executor s.executor gate ≡ false
    → ((pool : Dict Value) → choose setting s pool ≡ ok looking)
    → ((pool : Dict Value) (c : Ctx)
        → perform setting s looking pool (cleared c)
          ≡ (ok exposed, record (cleared c) { notes = c.notes ++ "looked" ∷ [] }))
    → clashes reserved (merge (summarise_product exposed s.summary_keys) []) ≡ false
    → Tame setting s
unfolding cleared clashes
Tame-looking s no_gate chooses does quiet = record {
  no_gate = no_gate;
  unreserved = λ chosen pool c e.
      subst (λ x. Unreserved setting s x pool c)
        (ap (λ r. elim r [ ok x ↦ x | err x ↦ looking ]) (sym (chooses pool) ∙ e))
        (subst
          (λ p.
            (clashes reserved p.1.detail ≡ false)
            × ((v : Value)
                → p.0 ≡ ok v
                → clashes reserved (merge (summarise_product v s.summary_keys) p.1.detail) ≡ false))
          (sym (does pool c))
          (
            refl,
            λ v q.
                subst
                  (λ x. clashes reserved (merge (summarise_product x s.summary_keys) []) ≡ false)
                  (ap (λ r. elim r [ ok x ↦ x | err x ↦ v ]) q) quiet,
          ));
  appends = λ chosen pool c e.
      subst
        (λ x.
          (added : List String) × ((perform setting s x pool (cleared c)).1.notes
            ≡ c.notes ++ added))
        (ap (λ r. elim r [ ok x ↦ x | err x ↦ looking ]) (sym (chooses pool) ∙ e))
        ("looked" ∷ [], ap (λ p. p.1.notes) (does pool c));
}

screening-Tame : All (Tame setting) (screening hooks)
unfolding kyc_onboarding kyc_steps perform call_step_hook cleared summarise_product clashes merge
    put same_executor choose choose_hook resolve_hook bind_kwargs bind_each takes_var_keyword
    declared_parameters get engine_implemented fields_of
screening-Tame = (
  Tame-looking _ refl (λ p. refl) (λ p c. refl) refl,
  (
    Tame-looking _ refl (λ p. refl) (λ p c. refl) refl,
    (
      Tame-looking _ refl (λ p. refl) (λ p c. refl) refl,
      (
        Tame-looking _ refl (λ p. refl) (λ p c. refl) refl,
        (Tame-looking _ refl (λ p. refl) (λ p c. refl) refl, tt),
      ),
    ),
  ),
)

-- The pool after the five steps.
abbrev screened_pool : Dict Value
screened_pool =
    ("client", exposed)
    ∷ ("jurisdiction", exposed)
    ∷ ("mentions", exposed)
    ∷ ("adverse_media", exposed)
    ∷ ("pep", exposed)
    ∷ []

screening-pool :
    (rows : List StepEvent) (seq : ℕ)
    → (elim (run_steps origin setting
        (screening hooks)
        []
        []
        (record { ctx = before.ctx; rows = rows; seq = seq })).0 [
          | ok found ↦ found.0
          | err e ↦ []
        ])
      ≡ screened_pool
unfolding kyc_onboarding kyc_steps perform call_step_hook cleared summarise_product clashes merge
    put same_executor choose choose_hook resolve_hook bind_kwargs bind_each takes_var_keyword
    declared_parameters get engine_implemented run_steps execute called step_returned record_row
    add_row fresh_ctx fields_of
screening-pool rows seq = refl

screening-finds : FindsPep origin setting hooks before.ctx
unfolding resolve_path fields_of at_keys truthy fresh_ctx
screening-finds u v found same e =
    let pool : Result (Dict Value × List StepRecord) → Dict Value =
      λ r. elim r [ ok f ↦ f.0 | err x ↦ [] ] in
    let computed =
      subst
        (λ (c : Ctx).
          pool
            (run_steps origin setting (screening hooks) c.params []
              (record { ctx = c; rows = u.rows; seq = u.seq })).0
          ≡ screened_pool)
        (sym same) (screening-pool u.rows u.seq) in
    let ends : screened_pool ≡ found.0 = sym computed ∙ ap (λ p. pool p.0) e in
    (bool true, subst (λ p. resolve_path p "pep.is_pep" ≡ some (bool true)) ends refl, refl)

kyc_onboarding-Held_example :
    (run_template_graph in_order origin setting model (kyc_onboarding hooks) [] before
      ≡ run_to_gate origin setting (kyc_onboarding hooks) (screening hooks) pep_gate before)
    × Held (run_template_graph in_order origin setting model (kyc_onboarding hooks) [] before).0
unfolding fresh_ctx
kyc_onboarding-Held_example =
    kyc_onboarding-Held in_order origin setting model hooks before
      (λ ns name node plain fresh. rw fresh refl) (λ ns state w plain distinct some_node few. refl)
      (omega arith) screening-Tame screening-finds refl
