-- ===== src/Sdk/Execution/Contracts.antt =====
-- The structured output of an agent step: what `call_step_hook` lets through.
use navigator_orchestrator_a.Prelude.{
  ℕ, zero, suc, ◌+◌, ◌==◌, String, ◌≡◌, refl, ◌⊎◌, inl, inr, true, none, some, List, [], ◌∷◌, arith,
  Bool-cases, Dict, put, Value, nat, non_empty, join,
}
use navigator_orchestrator_a.Sdk.Context.{Ctx, Hook, message, ok, Result-cases}
use navigator_orchestrator_a.Sdk.Templates.{Step, agent, same_executor}
use navigator_orchestrator_a.Sdk.Execution.{
  Engine, call_step_hook, attempts, call_with_schema, is_malformed, outcome, path_of,
}

List-cases : {A : Type 0} (xs : List A) → ((x : A) × (ys : List A) × (xs ≡ x ∷ ys)) ⊎ (xs ≡ [])
List-cases [] = inr refl
List-cases (x ∷ xs) = inl (x, xs, refl)

attempts-valid :
    (engine : Engine) (step : Step) (fn : Hook) (schema : Value) (kwargs : Dict Value)
    (left attempt : ℕ) (problem : String) (c c' : Ctx) (v : Value)
    → attempts engine step fn schema kwargs left attempt problem c ≡ (ok v, c')
    → ((engine.validate_instance schema v).valid ≡ true) × (c'.output_schema ≡ none)
unfolding attempts call_with_schema
attempts-valid engine step fn schema kwargs zero attempt problem c c' v e = absurd (ground arith)
attempts-valid engine step fn schema kwargs (suc left) attempt problem c c' v e =
    let called = fn.body (record c { output_schema = some schema }) kwargs in
    elim (Result-cases called.0) [
      | inr (x, q) ↦ elim (Bool-cases (is_malformed x)) [
        | inr m ↦ absurd (ground arith)
        | inl m ↦ elim (Bool-cases (attempt == 1)) [
          | inr last ↦ absurd (ground arith)
          | inl first ↦
              attempts-valid engine step fn schema kwargs left (attempt + 1) (message x)
                (record called.1 { output_schema = none }) c' v (ground arith)
        ]
      ]
      | inl (u, q) ↦ elim (Bool-cases (engine.validate_instance schema u).valid) [
        | inl good ↦ ground arith
        | inr bad ↦ elim (List-cases (engine.validate_instance schema u).findings) [
          | inr none_found ↦ absurd (ground arith)
          | inl (f, fs, found) ↦
              attempts-valid engine step fn schema kwargs left (attempt + 1)
                (join (path_of f) (join ": " f.message))
                (record called.1 {
                  output_schema = none;
                  detail =
                      put (outcome (engine.validate_instance schema u)) "structured_attempts"
                        (nat attempt);
                })
                c' v (ground arith)
        ]
      ]
    ]

-- What an agent step with an output contract lets through.
pub record Contracted (engine : Engine) (step : Step) (v : Value) (c' : Ctx) : Type 0 where
  pub schema : Value
  pub locked : engine.load_schema step.output_schema ≡ ok schema
  pub validated : (engine.validate_instance schema v).valid ≡ true
  pub cleared : c'.output_schema ≡ none

-- An agent step that declares an output schema produces a value only inside a project, and only
-- one that the validator accepts against the document that the project has locked under that
-- name; the contract is then no longer in the context that the next hook sees.
pub call_step_hook-Contracted :
    (engine : Engine) (step : Step) (fn : Hook) (c c' : Ctx) (kwargs : Dict Value) (v : Value)
    → step.executor ≡ agent
    → non_empty step.output_schema ≡ true
    → call_step_hook engine step fn c kwargs ≡ (ok v, c')
    → (c.in_project ≡ true) × Contracted engine step v c'
unfolding call_step_hook same_executor
call_step_hook-Contracted engine step fn c c' kwargs v is_agent declared e =
    elim (Bool-cases c.in_project) [
      | inr outside ↦ absurd (ground arith)
      | inl inside ↦ elim (Result-cases (engine.load_schema step.output_schema)) [
        | inr (x, q) ↦ absurd (ground arith)
        | inl (schema, q) ↦
            let (valid, clean) =
              attempts-valid engine step fn schema kwargs 2 1
                "provider did not return structured output" c c' v (ground arith) in
            (inside, record { schema = schema; locked = q; validated = valid; cleared = clean })
      ]
    ]
