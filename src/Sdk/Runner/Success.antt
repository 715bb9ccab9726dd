-- ===== src/Sdk/Runner/Success.antt =====
-- A sequential run that returned: its preflight, its steps and its rows from first to last.
use navigator_orchestrator_a.Prelude.{
  ◌≡◌, refl, sym, ◌∙◌, ap, subst, List, [], ◌∷◌, ◌++◌, append-nil, arith, Dict, Value, map, str,
  arr, items_of, All,
}
use navigator_orchestrator_a.Sdk.Context.{Result, ok, err}
use navigator_orchestrator_a.Sdk.Context
use navigator_orchestrator_a.Sdk.Templates.{Template, Requirement, hook_names}
use navigator_orchestrator_a.Sdk.Events.{
  started, succeeded, blocked, StepEvent, Origin, World, M, ◌>>=◌, raise, record_row,
}
use navigator_orchestrator_a.Sdk.Preflight.{
  missing_requirements, backend_requirements, describe_missing,
}
use navigator_orchestrator_a.Sdk.Runner.{
  Setting, result, checked, StepRecord, RunResult, lift, preflight, record_names, at_step,
}
use navigator_orchestrator_a.Sdk.Runner.Completion.{bind-ok, IsRow, OneRow, record_row-OneRow, Ran}

-- Nothing that the run needs is missing from the environment.
pub record Ready (setting : Setting) (template : Template) : Type 0 where
  pub credentials : List Requirement
  pub found : backend_requirements setting.env template setting.backends ≡ ok credentials
  pub complete : missing_requirements (template.requires ++ credentials) setting.env ≡ []

-- The preflight's row, if it asked for anything.
pub record Preflighted (w w' : World) : Type 0 where
  pub added : List StepEvent
  pub rows : w'.rows ≡ w.rows ++ added
  pub says : All (IsRow "preflight" succeeded) added
  pub context : w'.ctx ≡ w.ctx

checked-ok :
    (origin : Origin) (absent needed : List Requirement) (w w' : World) (u : Unit {0})
    → checked record_names origin absent needed w ≡ (ok u, w')
    → (absent ≡ []) × Preflighted w w'
unfolding checked
checked-ok origin (r ∷ rs) needed w w' u e =
    let missing : M (Unit {0}) =
      record_row record_names origin "run" blocked (at_step "preflight") [] >>= λ _.
      raise (Context.blocked (describe_missing (r ∷ rs))) in
    let a =
      bind-ok
        (record_row record_names origin "preflight" blocked
          (("missing", arr (items_of (map (λ q. str q.variable) (r ∷ rs)))) ∷ []) [])
        (λ _. missing) w w' u e in
    let b =
      bind-ok (record_row record_names origin "run" blocked (at_step "preflight") [])
        (λ _. raise (Context.blocked (describe_missing (r ∷ rs)))) a.between w' u a.second in
    let bad = b.second in absurd (ground arith)
checked-ok origin [] [] w w' u e =
    let same : w ≡ w' = ap (λ r. r.1) e in
    (
      refl,
      record {
        added = [];
        rows = ap (λ x. x.rows) (sym same) ∙ sym (append-nil w.rows);
        says = tt;
        context = ap (λ x. x.ctx) (sym same);
      },
    )
checked-ok origin [] (q ∷ qs) w w' u e =
    let r = record_row-OneRow record_names origin "preflight" succeeded _ [] w w' u e in
    (refl, record { added = r.row ∷ []; rows = r.rows; says = (r.says, tt); context = r.context })

pub preflight-ok :
    (origin : Origin) (setting : Setting) (template : Template) (w w' : World) (u : Unit {0})
    → preflight record_names origin setting template w ≡ (ok u, w')
    → Ready setting template × Preflighted w w'
unfolding preflight
preflight-ok origin setting template w w' u e =
    let next : List Requirement → M (Unit {0}) = λ credentials.
      checked record_names origin
        (missing_requirements (template.requires ++ credentials) setting.env)
        (template.requires ++ credentials) in
    let a =
      bind-ok (lift (backend_requirements setting.env template setting.backends)) next w w' u e in
    let same : w ≡ a.between = ap (λ r. r.1) a.first in
    let (none_missing, rows) =
      checked-ok origin (missing_requirements (template.requires ++ a.value) setting.env)
        (template.requires ++ a.value) a.between w' u a.second in
    (
      record { credentials = a.value; found = ap (λ r. r.0) a.first; complete = none_missing },
      subst (λ x. Preflighted x w') (sym same) rows,
    )

-- The end: one row, and the result.
pub record Closed (origin : Origin) (template : Template) (pool : Dict Value)
    (done : List StepRecord) (w w' : World) (r : RunResult) : Type 0 where
  pub last : OneRow "run" succeeded w w'
  pub made : r ≡ result origin template pool done w.ctx.notes

-- What a run that returned `r` has written and done.
pub record Completed (setting : Setting) (template : Template) (w w' : World) (r : RunResult)
    : Type 0 where
  pub ready : Ready setting template
  pub begin : StepEvent
  pub checks : List StepEvent
  pub steps : List StepEvent
  pub end : StepEvent
  pub rows : w'.rows ≡ w.rows ++ begin ∷ (checks ++ (steps ++ end ∷ []))
  pub begins : IsRow "run" started begin
  pub checking : All (IsRow "preflight" succeeded) checks
  pub ran : Ran template.steps steps
  pub ends : IsRow "run" succeeded end
  pub records : map (λ s. s.step) r.steps ≡ hook_names template
  pub same_notes : r.notes ≡ w'.ctx.notes
