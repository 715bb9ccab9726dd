-- ===== src/Sdk/Templates.antt =====
-- sdk/templates.py: the declarations of steps and templates, and what their constructors refuse.
pub mod Shapes
use navigator_orchestrator_a.Prelude.{
  ℕ, String, Bool, true, false, not, ◌&&◌, ◌||◌, if◌then◌else◌, Option, none, some, List, [], ◌∷◌,
  map, Dict, put, Value, str, obj, arr, fields_of, items_of, is_some, non_empty, has_text, one_of,
}
use navigator_orchestrator_a.Sdk.Context.{Hook}

pub data Executor : Type 0 where
  local agent gate service scheduled shell validate : Executor

unfoldable pub same_executor : Executor → Executor → Bool
same_executor local local = true
same_executor agent agent = true
same_executor gate gate = true
same_executor service service = true
same_executor scheduled scheduled = true
same_executor shell shell = true
same_executor validate validate = true
same_executor _ _ = false

-- executor in ENGINE_IMPLEMENTED
unfoldable pub engine_implemented : Executor → Bool
engine_implemented gate = true
engine_implemented shell = true
engine_implemented service = true
engine_implemented validate = true
engine_implemented _ = false

-- The value of `executor`, as the events record it.
unfoldable pub executor_name : Executor → String
executor_name local = "local"
executor_name agent = "agent"
executor_name gate = "gate"
executor_name service = "service"
executor_name scheduled = "scheduled"
executor_name shell = "shell"
executor_name validate = "validate"

-- `Call` of sdk/service.py.
pub record Call : Type 0 where
  pub method : String
  pub path : String
  pub query : Dict Value
  pub body : Value
  pub optional_404 : Bool
  pub public : Bool

-- The timeout is in milliseconds.
pub record Step : Type 0 where
  pub name : String
  pub executor : Executor
  pub produces : String
  pub kwargs : List String
  pub default : Option Hook
  pub uses : String
  pub summary_keys : List String
  pub doc : String
  pub command : List String
  pub timeout : ℕ
  pub call : Option Call
  pub backend : String
  pub when : String
  pub schema : String
  pub input : String
  pub output_schema : String

-- The messages of the ValueErrors, in the order of the tests.
pub data StepError : Type 0 where
  shell_needs_command command_on_other uses_and_default service_needs_call call_on_other
        validate_needs_both schema_on_other when_on_other output_schema_on_other :
      StepError

is_given : List String → Bool
is_given [] = false
is_given (w ∷ ws) = true

-- Step.__post_init__: the first test that refuses the step.
unfoldable pub step_error : Step → Option StepError
unfolding same_executor is_given
step_error s =
    if same_executor s.executor shell && not (is_given s.command)
    then some shell_needs_command
    else if is_given s.command && not (same_executor s.executor shell)
    then some command_on_other
    else if non_empty s.uses && is_some s.default
    then some uses_and_default
    else if same_executor s.executor service && not (is_some s.call)
    then some service_needs_call
    else if (is_some s.call || non_empty s.backend) && not (same_executor s.executor service)
    then some call_on_other
    else if same_executor s.executor validate
        && (not (non_empty s.schema) || not (non_empty s.input))
    then some validate_needs_both
    else if (non_empty s.schema || non_empty s.input) && not (same_executor s.executor validate)
    then some schema_on_other
    else if non_empty s.when && not (same_executor s.executor gate)
    then some when_on_other
    else if non_empty s.output_schema && not (same_executor s.executor agent)
    then some output_schema_on_other
    else none

-- Step.required
unfoldable pub required : Step → Bool
required s =
    not (is_some s.default) && not (non_empty s.uses) && not (engine_implemented s.executor)

-- A requirement of the environment, by its variable and its reason (sdk/preflight.py).
pub record Requirement : Type 0 where
  pub variable : String
  pub why : String

pub data ParamType : Type 0 where
  string integer number boolean : ParamType

-- One launch input. A default of None is `none`.
pub record Param : Type 0 where
  pub name : String
  pub type : ParamType
  pub required : Bool
  pub doc : String
  pub default : Option Value

pub data ParamError : Type 0 where
  needs_name required_with_default : ParamError

-- Param.__post_init__
unfoldable pub param_error : Param → Option ParamError
param_error p =
    if not (has_text p.name)
    then some needs_name
    else if p.required && is_some p.default
    then some required_with_default
    else none

-- An item of `params`: a bare name, or a `Param`.
pub data ParamItem : Type 0 where
  bare : String → ParamItem
  typed : Param → ParamItem

pub record Template : Type 0 where
  pub name : String
  pub steps : List Step
  pub prompt_refs : List String
  pub doc : String
  pub params : List ParamItem
  pub requires : List Requirement
  pub publishes : String
  pub result_schema : String

-- One item of Template.param_specs.
unfoldable pub param_spec : ParamItem → Param
param_spec (typed p) = p
param_spec (bare name) = record {
  name = name;
  type = string;
  required = true;
  doc = "";
  default = none;
}

unfoldable pub param_specs : Template → List Param
unfolding param_spec
param_specs t = map param_spec t.params

unfoldable pub param_names : Template → List String
unfolding param_specs
param_names t = map (λ p. p.name) (param_specs t)

type_name : ParamType → String
type_name string = "string"
type_name integer = "integer"
type_name number = "number"
type_name boolean = "boolean"

field_schema : Param → Dict Value
unfolding type_name put
field_schema p =
    let plain : Dict Value = ("type", str (type_name p.type)) ∷ [] in
    let described = if non_empty p.doc then put plain "description" (str p.doc) else plain in
    elim p.default [ none ↦ described | some v ↦ put described "default" v ]

-- properties[spec.name] = field_schema, for each parameter in turn
unfoldable pub properties : List Param → Dict Value → Dict Value
unfolding field_schema
properties [] found = found
properties (p ∷ ps) found = properties ps (put found p.name (obj (fields_of (field_schema p))))

unfoldable pub required_names : List Param → List String
required_names [] = []
required_names (p ∷ ps) = let rest = required_names ps in if p.required then p.name ∷ rest else rest

-- Template.input_schema: the JSON Schema of the launch form
unfoldable pub input_schema : Template → Dict Value
unfolding param_specs properties required_names is_given
input_schema t =
    let specs = param_specs t in
    let names = required_names specs in
    let base : Dict Value =
      ("type", str "object")
      ∷ ("title", str t.name)
      ∷ ("properties", obj (fields_of (properties specs [])))
      ∷ [] in
    let described = if non_empty t.doc then put base "description" (str t.doc) else base in
    if is_given names
    then put described "required" (arr (items_of (map (λ n. str n) names)))
    else described

-- The loop of Template.__post_init__ from the names seen so far: the first name that is there twice.
repeated : List String → List Step → Option String
repeated seen [] = none
repeated seen (s ∷ steps) =
    let rest = repeated (s.name ∷ seen) steps in if one_of s.name seen then some s.name else rest

unfoldable pub template_error : Template → Option String
unfolding repeated
template_error t = repeated [] t.steps

unfoldable pub hook_names : Template → List String
hook_names t = map (λ s. s.name) t.steps

last_product : List Step → String
last_product [] = ""
last_product (s ∷ []) = s.produces
last_product (s ∷ r ∷ steps) = last_product (r ∷ steps)

-- Template.published_key
unfoldable pub published_key : Template → String
unfolding last_product
published_key t = if non_empty t.publishes then t.publishes else last_product t.steps
