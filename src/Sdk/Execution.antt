-- ===== src/Sdk/Execution.antt =====
-- sdk/execution.py: the execution of one step, whatever drives the sequence. What lies behind the
-- engine's own executors (a process, an HTTP exchange, a JSON Schema validator) is an argument.
pub mod Contracts
use navigator_orchestrator_a.Prelude.{
  ℕ, zero, suc, ◌+◌, String, Bool, true, false, not, ◌&&◌, ◌||◌, if◌then◌else◌, ◌==◌, Option, none,
  some, List, [], ◌∷◌, map, length, take, Dict, get, put, keys, Value, null, bool, num, nat, str,
  arr, obj, other, fields_of, items_of, length_items, length_fields, field_names, get_field,
  show_nat, non_empty, truncate, join, repr, sort_by, str_lt,
}
use navigator_orchestrator_a.Sdk.Context.{
  Ctx, Hook, Exn, blocked, declined, step_failed, raised, type_error, value_error, some_error,
  runtime_error, message, Result, ok, err,
}
use navigator_orchestrator_a.Sdk.Templates.{Step, Executor, shell, validate, agent, same_executor}
use navigator_orchestrator_a.Sdk.Registry.{resolve_uses}

-- sdk/schema.py: a finding, and the result of a validation.
pub record Finding : Type 0 where
  pub path : String
  pub message : String

pub record Validation : Type 0 where
  pub schema_id : String
  pub revision : String
  pub valid : Bool
  pub findings : List Finding

-- What the executors reach: `run_shell_step`, `resolve_backend` with `run_service_step`,
-- `load_locked_schema` of the project, and `validate_instance`. A schema is its document.
pub record Engine : Type 0 where
  pub run_shell : Step → Ctx → Dict Value → Result Value × Ctx
  pub run_service : Step → Ctx → Dict Value → Result Value × Ctx
  pub load_schema : String → Result Value
  pub validate_instance : Value → Value → Validation

-- finding.path or '/'
path_of : Finding → String
path_of f = if non_empty f.path then f.path else "/"

-- The detail of a validation, without the last entry.
outcome : Validation → Dict Value
outcome r =
    ("schema_id", str r.schema_id)
    ∷ ("schema_revision", str r.revision)
    ∷ ("valid", bool r.valid)
    ∷ ("finding_count", nat (length r.findings))
    ∷ []

finding_paths : Validation → Value
finding_paths r = arr (items_of (map (λ f. str f.path) (take 8 r.findings)))

index_error : Exn
index_error = raised some_error "IndexError" "tuple index out of range"

-- The `validate` branch of run_engine_step, from the schema on.
validated : Engine → Step → Value → Value → Ctx → Result Value × Ctx
unfolding outcome finding_paths path_of index_error
validated engine step schema candidate c =
    let r = engine.validate_instance schema candidate in
    let c' = record c { detail = put (outcome r) "finding_paths" (finding_paths r) } in
    if r.valid then (ok (other "ValidationResult" true), c') else elim r.findings [
      | [] ↦ (err index_error, c')
      | first ∷ rest ↦ (
        err (
            blocked (
              join "schema " (
                join (repr r.schema_id) (
                  join " rejected " (
                    join (repr step.input)
                      (join " at " (join (path_of first) (join ": " first.message)))))))),
        c',
      )
    ]

run_validate : Engine → Step → Ctx → Dict Value → Result Value × Ctx
unfolding validated
run_validate engine step c pool =
    if not c.in_project
    then (
      err (
          runtime_error
            (join "validate step " (join (repr step.name) " needs a workflow project"))),
      c,
    )
    else elim (get pool step.input) [
      | none ↦ (
        err (
            runtime_error (
              join "validate step "
                (join (repr step.name) (join " cannot find pool input " (repr step.input))))),
        c,
      )
      | some candidate ↦ elim (engine.load_schema step.schema) [
        | err e ↦ (err e, c)
        | ok schema ↦ validated engine step schema candidate c
      ]
    ]

unfoldable pub run_engine_step : Engine → Step → Ctx → Dict Value → Result Value × Ctx
unfolding run_validate
run_engine_step engine step c pool = elim step.executor [
  | shell ↦ engine.run_shell step c pool
  | validate ↦ run_validate engine step c pool
  | _ ↦ engine.run_service step c pool
]

-- isinstance(exc, (TypeError, ValueError))
is_malformed : Exn → Bool
is_malformed (raised type_error n m) = true
is_malformed (raised value_error n m) = true
is_malformed _ = false

-- The hook, called with the contract in `ctx.output_schema`, which is cleared whatever happens.
call_with_schema : Hook → Value → Dict Value → Ctx → Result Value × Ctx
call_with_schema fn schema kwargs c =
    let (r, c') = fn.body (record c { output_schema = some schema }) kwargs in
    (r, record c' { output_schema = none })

module _ (engine : Engine) (step : Step) (fn : Hook) (schema : Value) (kwargs : Dict Value) where
  could_not_produce : String → Exn
  could_not_produce problem = blocked (
      join "agent step " (
        join (repr step.name)
          (join " could not produce structured output after 2 attempts: " problem)))

  schema_invalid : String → Exn
  schema_invalid problem = blocked (
      join "agent step "
        (join (repr step.name) (join " returned schema-invalid output after 2 attempts: " problem)))

  -- What is left of the loop `for attempt in range(1, 3)`.
  attempts : ℕ → ℕ → String → Ctx → Result Value × Ctx
  unfolding call_with_schema is_malformed outcome path_of index_error could_not_produce
      schema_invalid
  attempts zero attempt problem c = (err (schema_invalid problem), c)
  attempts (suc left) attempt problem c =
      let (r, c') = call_with_schema fn schema kwargs c in
      elim r [
        | err e ↦ elim (is_malformed e) [
          | false ↦ (err e, c')
          | true ↦ elim (attempt == 1) [
            | true ↦ attempts left (attempt + 1) (message e) c'
            | false ↦ (err (could_not_produce (message e)), c')
          ]
        ]
        | ok produced ↦
            let v = engine.validate_instance schema produced in
            let c'' = record c' { detail = put (outcome v) "structured_attempts" (nat attempt) } in
            elim v.valid [
              | true ↦ (ok produced, c'')
              | false ↦ elim v.findings [
                | [] ↦ (err index_error, c'')
                | first ∷ rest ↦
                    attempts left (attempt + 1) (join (path_of first) (join ": " first.message)) c''
              ]
            ]
      ]

unfoldable pub call_step_hook : Engine → Step → Hook → Ctx → Dict Value → Result Value × Ctx
unfolding same_executor attempts
call_step_hook engine step fn c kwargs =
    if not (same_executor step.executor agent) || not (non_empty step.output_schema)
    then fn.body c kwargs
    else if not c.in_project
    then (
      err (runtime_error (join "agent step " (join (repr step.name) " needs a workflow project"))),
      c,
    )
    else elim (engine.load_schema step.output_schema) [
      | err e ↦ (err e, c)
      | ok schema ↦
          attempts engine step fn schema kwargs 2 1 "provider did not return structured output" c
    ]

-- Which implementation ran: the workflow file's, a registered one, or the template's own.
unfoldable pub resolve_hook : Step → Dict Hook → Dict Hook → Result (Hook × String)
unfolding resolve_uses
resolve_hook step hooks implementations = elim (get hooks step.name) [
  | some override ↦ ok (override, "file")
  | none ↦
      if non_empty step.uses
      then elim (resolve_uses step.uses implementations) [
        | ok fn ↦ ok (fn, "uses")
        | err e ↦ err (step_failed step.name e)
      ]
      else elim step.default [
        | none ↦ err (step_failed step.name (runtime_error "required hook is not implemented"))
        | some fn ↦ ok (fn, "default")
      ]
]

-- str(value), of a scalar
str_of : Value → String
unfolding show_nat
str_of null = "None"
str_of (bool true) = "True"
str_of (bool false) = "False"
str_of (nat n) = show_nat n
str_of (num s t) = s
str_of (str s) = s
str_of _ = ""

-- The entry that a summary key adds for a value: a scalar itself, the length of a container.
summary_entry : String → Value → Dict Value → Dict Value
summary_entry key (arr vs) detail = put detail key (nat (length_items vs))
summary_entry key (obj fs) detail = put detail key (nat (length_fields fs))
summary_entry key (other n t) detail = detail
summary_entry key scalar detail = put detail key scalar

summarise_keys : List String → Value → Dict Value → Dict Value
unfolding summary_entry get_field
summarise_keys [] value detail = detail
summarise_keys (key ∷ names) value detail = summarise_keys names value (elim value [
  | obj fs ↦ elim (get_field fs key) [ none ↦ detail | some v ↦ summary_entry key v detail ]
  | _ ↦ detail
])

unfoldable pub summarise_product : Value → List String → Dict Value
unfolding summarise_keys str_of field_names
summarise_product (obj fs) names =
    summarise_keys names (obj fs)
      (("keys", arr (items_of (map (λ k. str k) (take 12 (sort_by str_lt (field_names fs)))))) ∷ [])
summarise_product (arr vs) names = ("count", nat (length_items vs)) ∷ []
summarise_product (other name t) names = ("type", str name) ∷ []
summarise_product scalar names = ("value", str (truncate 120 (str_of scalar))) ∷ []
