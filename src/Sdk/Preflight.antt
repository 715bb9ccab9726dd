-- ===== src/Sdk/Preflight.antt =====
-- The checks before the first step: sdk/preflight.py, and the credentials that the `service` steps
-- need (sdk/service.py, and `Backend` of sdk/project.py). The environment is a dictionary.
use navigator_orchestrator_a.Prelude.{
  ℕ, String, Bool, true, false, not, ◌&&◌, ◌||◌, if◌then◌else◌, Option, none, some, is_some, List,
  [], ◌∷◌, ◌++◌, any, Dict, get, keys, non_empty, has_text, one_of, str_eq, join, join_all, repr,
  sort_by, str_lt,
}
use navigator_orchestrator_a.Sdk.Context.{Exn, raised, value_error, some_error, Result, ok, err}
use navigator_orchestrator_a.Sdk.Templates.{
  Step, Template, Requirement, Call, service, same_executor,
}

pub record Backend : Type 0 where
  pub name : String
  pub base_url : String
  pub token_env : List String
  pub timeout : ℕ

-- (source.get(name) or "").strip() is not empty
is_set : Dict String → String → Bool
is_set env variable = elim (get env variable) [ none ↦ false | some value ↦ has_text value ]

unfoldable pub missing_requirements : List Requirement → Dict String → List Requirement
unfolding is_set
missing_requirements [] env = []
missing_requirements (r ∷ rs) env =
    let rest = missing_requirements rs env in if is_set env r.variable then rest else r ∷ rest

line : Requirement → String
line r = join "  " (join r.variable (if non_empty r.why then join " - " r.why else ""))

lines : List Requirement → List String
unfolding line
lines [] = []
lines (r ∷ rs) = line r ∷ lines rs

unfoldable pub describe_missing : List Requirement → String
unfolding lines
describe_missing missing =
    join "this workflow needs environment variables that are not set:\n"
      (join_all "\n" (lines missing))

-- The loop of Backend.token over its variables.
first_token : Dict String → List String → Option (String × String)
first_token env [] = none
first_token env (variable ∷ rest) = elim (get env variable) [
  | none ↦ first_token env rest
  | some value ↦
      let later = first_token env rest in if non_empty value then some (value, variable) else later
]

unfoldable pub token : Dict String → Backend → Option (String × String)
unfolding first_token
token env backend = first_token env backend.token_env

-- The manifest's backends; `none` outside a project.
abbrev pub Backends : Type 0
Backends = Option (Dict Backend)

configured : Dict Backend → String
configured [] = " (configured: none)"
configured (e ∷ d) =
    join " (configured: " (join (join_all ", " (sort_by str_lt (keys (e ∷ d)))) ")")

-- resolve_backend, with Project.backend: a CallSpecError is a ValueError, a ProjectError is not.
unfoldable pub resolve_backend : Step → Backends → Result Backend
unfolding configured
resolve_backend step project =
    if not (non_empty step.backend)
    then err (
        raised value_error "CallSpecError"
          (join "service step " (join (repr step.name) " does not name a backend=")))
    else elim project [
      | none ↦ err (
          raised value_error "CallSpecError" (
            join "step " (
              join (repr step.name) (
                join " calls backend " (
                  join (repr step.backend)
                    ", but this run is not inside a workflow project; a navigator-orchestrator.toml is what declares backends (SPEC-NSP-005 §4)")))))
      | some backends ↦ elim (get backends step.backend) [
        | some backend ↦ ok backend
        | none ↦ err (
            raised some_error "ProjectError"
              (join "unknown backend " (join (repr step.backend) (configured backends))))
      ]
    ]

is_public : Option Call → Bool
is_public none = false
is_public (some c) = c.public

unfoldable pub needs_credential : Template → String → Bool
unfolding is_public same_executor
needs_credential template backend_name =
    any
      (λ s.
        same_executor s.executor service && str_eq s.backend backend_name && not (is_public s.call))
      template.steps

-- What one backend asks for.
credential_of : Dict String → Template → Step → Backend → List Requirement
unfolding needs_credential token
credential_of env template step backend =
    if needs_credential template step.backend && not (is_some (token env backend))
    then elim backend.token_env [
      | [] ↦ []
      | variable ∷ rest ↦
          record {
            variable = variable;
            why = join "backend " (
                join (repr backend.name)
                  (join " needs a bearer token; set one of " (join_all ", " (variable ∷ rest))));
          }
          ∷ []
    ]
    else []

is_call_spec_error : Exn → Bool
is_call_spec_error (raised value_error name m) = str_eq name "CallSpecError"
is_call_spec_error _ = false

-- The loop over the steps, with the backends seen so far and the requirements found.
collect :
    Dict String
    → Template
    → Backends
    → List String
    → List Requirement
    → List Step
    → Result (List Requirement)
unfolding same_executor resolve_backend credential_of is_call_spec_error
collect env template project seen out [] = ok out
collect env template project seen out (step ∷ steps) =
    elim (not (same_executor step.executor service)
      || not (non_empty step.backend)
      || one_of step.backend seen) [
        | true ↦ collect env template project seen out steps
        | false ↦ elim (resolve_backend step project) [
          | ok backend ↦
              collect env template project (step.backend ∷ seen)
                (out ++ credential_of env template step backend) steps
          | err e ↦ elim (is_call_spec_error e) [
            | true ↦ collect env template project (step.backend ∷ seen) out steps
            | false ↦ err e
          ]
        ]
      ]

unfoldable pub backend_requirements : Dict String → Template → Backends → Result (List Requirement)
unfolding collect
backend_requirements env template project = collect env template project [] [] template.steps
