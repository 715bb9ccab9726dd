-- ===== src/Sdk/Context.antt =====
-- sdk/context.py: what a hook is handed, and the exceptions that end a step.
use navigator_orchestrator_a.Prelude.{
  ◌≡◌, refl, ◌⊎◌, inl, inr, String, Bool, true, false, if◌then◌else◌, Option, List, [], ◌∷◌, ◌++◌,
  Dict, Value, join, repr,
}

-- The classes of exceptions that some handler of the engine names.
pub data ErrorClass : Type 0 where
  type_error value_error judge_error some_error : ErrorClass

pub data Exn : Type 0 where
  -- Blocked(message), and its subclass Declined(message)
  blocked declined : String → Exn
  -- StepFailed(step, cause)
  step_failed : String → Exn → Exn
  -- any other: its class, its type's name and its message
  raised : ErrorClass → String → String → Exn

pub data Result {ℓ} (A : Type ℓ) : Type ℓ where
  ok : A → Result A
  err : Exn → Result A

pub Result-cases : {A : Type 0} (r : Result A) → ((a : A) × (r ≡ ok a)) ⊎ ((e : Exn) × (r ≡ err e))
Result-cases (ok a) = inl (a, refl)
Result-cases (err e) = inr (e, refl)

-- isinstance(exc, Blocked)
unfoldable pub is_blocked : Exn → Bool
is_blocked (blocked m) = true
is_blocked (declined m) = true
is_blocked _ = false

-- str(exc)
unfoldable pub message : Exn → String
message (blocked m) = m
message (declined m) = m
message (step_failed step cause) =
    let inner = message cause in join "step " (join (repr step) (join " failed: " inner))
message (raised c name m) = m

-- type(exc).__name__
unfoldable pub type_name : Exn → String
type_name (blocked m) = "Blocked"
type_name (declined m) = "Declined"
type_name (step_failed step cause) = "StepFailed"
type_name (raised c name m) = name

abbrev pub runtime_error : String → Exn
runtime_error = raised ErrorClass.some_error "RuntimeError"

-- The fields of a run's `Ctx` that the engine and the hooks write, its parameters, and whether the
-- run is inside a workflow project. The model client and the file root are behind the hooks.
pub record Ctx : Type 0 where
  pub params : Dict Value
  pub in_project : Bool
  pub notes : List String
  pub skipped : String
  pub detail : Dict Value
  pub output_schema : Option Value

unfoldable pub fresh_ctx : Dict Value → Bool → Ctx
fresh_ctx params in_project = record {
  params = params;
  in_project = in_project;
  notes = [];
  skipped = "";
  detail = [];
  output_schema = Option.none;
}

unfoldable pub require : Bool → String → Ctx → Result (Unit {0}) × Ctx
require condition m c = (if condition then ok tt else err (blocked m), c)

unfoldable pub decline : String → Ctx → Result (Unit {0}) × Ctx
decline reason c = (err (declined reason), c)

unfoldable pub skip : String → Ctx → Ctx
skip reason c = record c { skipped = reason }

unfoldable pub note : String → Ctx → Ctx
note m c = record c { notes = c.notes ++ m ∷ [] }

-- inspect.Parameter
pub data Kind : Type 0 where
  positional_only positional_or_keyword var_positional keyword_only var_keyword : Kind

pub record Parameter : Type 0 where
  pub name : String
  pub kind : Kind
  pub has_default : Bool

-- A hook: a Python callable by its signature and by what a call does, awaited if need be.
pub record Hook : Type 0 where
  pub fn_name : String
  pub module_name : String
  pub parameters : List Parameter
  pub body : Ctx → Dict Value → Result Value × Ctx
