-- ===== src/Sdk/Runner/Log.antt =====
-- The rows of a sequential run: whatever it does, they are numbered without a gap, under its id.
use navigator_orchestrator_a.Prelude.{
  ℕ, ◌+◌, String, ◌≡◌, refl, sym, ◌∙◌, ap, subst, inl, inr, List, [], ◌∷◌, ◌++◌, append_assoc,
  append-nil, arith, Bool-cases, Dict, Value, length, length-append, put, non_empty, str, nat,
}
use navigator_orchestrator_a.Sdk.Context.{Exn, ok, Result-cases, is_blocked}
use navigator_orchestrator_a.Sdk.Templates.{Step, Template, Requirement, executor_name}
use navigator_orchestrator_a.Sdk.Events.{
  EventStatus, started, succeeded, blocked, StepEvent, Origin, World, M, ◌>>=◌, pure, raise,
  add_row, record_row, clashes,
}
use navigator_orchestrator_a.Sdk.Preflight.{missing_requirements, backend_requirements}
use navigator_orchestrator_a.Sdk.Runner.{
  Setting, closed, result, checked, called, Chosen, StepRecord, RunResult, lift, perform, cleared,
  step_raised, step_returned, execute, choose, run_steps, preflight, run_template, record_names,
  step_record,
}

-- Rows of one run, numbered from `n + 1` on.
abbrev pub Follow : Origin → ℕ → List StepEvent → Type 0
Follow origin n [] = Unit
Follow origin n (e ∷ es) =
    ((e.seq ≡ n + 1)
      × (e.run_id ≡ origin.run_id)
      × (e.workflow ≡ origin.workflow)
      × (e.actor ≡ origin.actor))
    × Follow origin (n + 1) es

-- The world after some more rows.
pub record Logged (origin : Origin) (w w' : World) : Type 0 where
  pub added : List StepEvent
  pub rows : w'.rows ≡ w.rows ++ added
  pub seq : w'.seq ≡ w.seq + length added
  pub numbered : Follow origin w.seq added

Follow-append :
    (origin : Origin) (n : ℕ) (xs ys : List StepEvent)
    → Follow origin n xs
    → Follow origin (n + length xs) ys
    → Follow origin n (xs ++ ys)
Follow-append origin n [] ys hx hy = subst (λ k. Follow origin k ys) (omega arith) hy
Follow-append origin n (x ∷ xs) ys hx hy = (
  hx.0,
  Follow-append origin (n + 1) xs ys hx.1 (subst (λ k. Follow origin k ys) (omega arith) hy),
)

-- A change of the context alone adds no row.
unlogged : (origin : Origin) (w w' : World) → w'.rows ≡ w.rows → w'.seq ≡ w.seq → Logged origin w w'
unlogged origin w w' r s = record {
  added = [];
  rows = r ∙ sym (append-nil w.rows);
  seq = omega (arith, s);
  numbered = tt;
}

Logged-trans :
    (origin : Origin) (u v w : World) → Logged origin u v → Logged origin v w → Logged origin u w
Logged-trans origin u v w a b = record {
  added = a.added ++ b.added;
  rows = b.rows ∙ ap (λ r. r ++ b.added) a.rows ∙ append_assoc u.rows a.added b.added;
  seq = omega (arith, a.seq, b.seq, length-append a.added b.added);
  numbered =
      Follow-append origin u.seq a.added b.added a.numbered
        (subst (λ k. Follow origin k b.added) a.seq b.numbered);
}

-- An action that adds rows of this run, in order, and does nothing else to the log.
abbrev pub Logs : {A : Type 0} → Origin → M A → Type 0
Logs origin m = (w : World) → Logged origin w (m w).1

bind-Logs :
    {A B : Type 0} (origin : Origin) (m : M A) (f : A → M B)
    → Logs origin m
    → ((a : A) → Logs origin (f a))
    → Logs origin (m >>= f)
bind-Logs origin m f hm hf w = elim (Result-cases (m w).0) [
  | inl (a, q) ↦ rw (q, ◌>>=◌) (Logged-trans origin w (m w).1 (f a (m w).1).1 (hm w) (hf a (m w).1))
  | inr (e, q) ↦ rw (q, ◌>>=◌) (hm w)
]

record_row-Logs :
    (taken : List String) (origin : Origin) (step : String) (status : EventStatus)
    (given detail : Dict Value)
    → Logs origin (record_row taken origin step status given detail)
unfolding record_row add_row
record_row-Logs taken origin step status given detail w = elim (Bool-cases (clashes taken detail)) [
  | inl refused ↦ rw refused (unlogged origin w w refl refl)
  | inr fine ↦ rw fine (record {
    added = _ ∷ [];
    rows = refl;
    seq = omega arith;
    numbered = ((refl, refl, refl, refl), tt);
  })
]

-- Two rows, and an exception.
raised-Logs :
    (origin : Origin) (t t' : List String) (n n' : String) (s s' : EventStatus)
    (g g' d d' : Dict Value) (e : Exn)
    → Logs origin (
        record_row t origin n s g d >>= λ _.
        record_row t' origin n' s' g' d' >>= λ _. raise {A = Unit {0}} e)
raised-Logs origin t t' n n' s s' g g' d d' e =
    bind-Logs origin (record_row t origin n s g d)
      (λ _. record_row t' origin n' s' g' d' >>= λ _. raise e) (record_row-Logs t origin n s g d)
      (λ _.
        bind-Logs origin (record_row t' origin n' s' g' d') (λ _. raise e)
          (record_row-Logs t' origin n' s' g' d') (λ _ w. unlogged origin w w refl refl))

step_raised-Logs :
    (names : List String) (origin : Origin) (name : String) (e : Exn)
    → Logs origin (step_raised names origin name e)
unfolding step_raised
step_raised-Logs names origin name e w = elim (Bool-cases (is_blocked e)) [
  | inl refused ↦ rw refused (raised-Logs origin _ _ _ _ _ _ _ _ _ _ _ w)
  | inr crashed ↦ rw crashed (raised-Logs origin _ _ _ _ _ _ _ _ _ _ _ w)
]

step_returned-Logs :
    (names : List String) (origin : Origin) (step : Step) (produced : Value)
    → Logs origin (step_returned names origin step produced)
unfolding step_returned
step_returned-Logs names origin step produced w = elim (Bool-cases (non_empty w.ctx.skipped)) [
  | inl skips ↦ rw skips (record_row-Logs names origin step.name _ _ _ w)
  | inr done ↦ rw done (record_row-Logs names origin step.name _ _ _ w)
]

-- The hook itself writes no row.
called-Logs :
    (names : List String) (origin : Origin) (setting : Setting) (step : Step) (chosen : Chosen)
    (pool : Dict Value)
    → Logs origin (called names origin setting step chosen pool)
unfolding called
called-Logs names origin setting step chosen pool w =
    let p = perform setting step chosen pool (cleared w.ctx) in
    let w' = record w { ctx = p.1 } in
    elim (Result-cases p.0) [
      | inl (v, q) ↦ rw (q, called) (unlogged origin w w' refl refl)
      | inr (e, q) ↦
          rw (q, called)
            (Logged-trans origin w w' _ (unlogged origin w w' refl refl) (
              bind-Logs origin (step_raised names origin step.name e) (λ _. raise e)
                (step_raised-Logs names origin step.name e) (λ _ u. unlogged origin u u refl refl)
                w'))
    ]

execute-Logs :
    (names : List String) (origin : Origin) (setting : Setting) (step : Step) (chosen : Chosen)
    (pool : Dict Value)
    → Logs origin (execute names origin setting step chosen pool)
unfolding execute
execute-Logs names origin setting step chosen pool =
    let before =
      record_row names origin step.name started
        (("executor", str (executor_name step.executor)) ∷ ("source", str chosen.source) ∷ []) [] in
    let after : Value → M Value =
      λ produced. step_returned names origin step produced >>= λ _. pure produced in
    bind-Logs origin before (λ _. called names origin setting step chosen pool >>= after)
      (record_row-Logs names origin step.name started _ [])
      (λ _.
        bind-Logs origin (called names origin setting step chosen pool) after
          (called-Logs names origin setting step chosen pool)
          (λ produced.
            bind-Logs origin (step_returned names origin step produced) (λ _. pure produced)
              (step_returned-Logs names origin step produced)
              (λ _ u. unlogged origin u u refl refl)))

run_steps-Logs :
    (origin : Origin) (setting : Setting) (steps : List Step) (pool : Dict Value)
    (done : List StepRecord)
    → Logs origin (run_steps origin setting steps pool done)
unfolding run_steps
run_steps-Logs origin setting [] pool done = λ w. unlogged origin w w refl refl
run_steps-Logs origin setting (step ∷ steps) pool done =
    let next : Chosen → Value → M (Dict Value × List StepRecord) = λ chosen produced.
      run_steps origin setting steps (put pool step.produces produced)
        (done ++ step_record step chosen.source ∷ []) in
    bind-Logs origin (lift (choose setting step pool))
      (λ chosen. execute record_names origin setting step chosen pool >>= next chosen)
      (λ u. unlogged origin u u refl refl)
      (λ chosen.
        bind-Logs origin (execute record_names origin setting step chosen pool) (next chosen)
          (execute-Logs record_names origin setting step chosen pool)
          (λ produced.
            run_steps-Logs origin setting steps (put pool step.produces produced)
              (done ++ step_record step chosen.source ∷ [])))

checked-Logs :
    (names : List String) (origin : Origin) (absent needed : List Requirement)
    → Logs origin (checked names origin absent needed)
unfolding checked
checked-Logs names origin (r ∷ rs) needed =
    raised-Logs origin names names "preflight" "run" blocked blocked _ _ [] [] _
checked-Logs names origin [] [] = λ w. unlogged origin w w refl refl
checked-Logs names origin [] (q ∷ qs) = record_row-Logs names origin "preflight" succeeded _ []

preflight-Logs :
    (names : List String) (origin : Origin) (setting : Setting) (template : Template)
    → Logs origin (preflight names origin setting template)
unfolding preflight
preflight-Logs names origin setting template =
    let next : List Requirement → M (Unit {0}) = λ credentials.
      checked names origin (missing_requirements (template.requires ++ credentials) setting.env)
        (template.requires ++ credentials) in
    bind-Logs origin (lift (backend_requirements setting.env template setting.backends)) next
      (λ u. unlogged origin u u refl refl)
      (λ credentials. checked-Logs names origin _ (template.requires ++ credentials))

-- The end of a run: the last row, and the result.
closed-Logs :
    (origin : Origin) (template : Template) (found : Dict Value × List StepRecord)
    → Logs origin (closed origin template found)
unfolding closed
closed-Logs origin template (pool, done) =
    let last : List String → M RunResult = λ notes.
      record_row record_names origin "run" succeeded (("steps", nat (length done)) ∷ []) [] >>= λ _.
      pure (result origin template pool done notes) in
    bind-Logs origin (λ w. (ok w.ctx.notes, w)) last (λ u. unlogged origin u u refl refl)
      (λ notes.
        bind-Logs origin (record_row record_names origin "run" succeeded _ [])
          (λ _. pure (result origin template pool done notes))
          (record_row-Logs record_names origin "run" succeeded _ [])
          (λ _ u. unlogged origin u u refl refl))

-- The log of a run has no gap and no repeat. Whatever the template, the hooks and the engine do,
-- and however the run ends, returned, refused or failed, the rows that `run_template` adds stand
-- after those that were there, are numbered on from the recorder's counter one by one, and carry
-- the run's own id, workflow and actor; the counter ends at the number of the last.
pub run_template-Logged :
    (origin : Origin) (setting : Setting) (template : Template) (w : World)
    → Logged origin w (run_template origin setting template w).1
unfolding run_template
run_template-Logged origin setting template =
    let steps : M (Dict Value × List StepRecord) =
      λ w. run_steps origin setting template.steps w.ctx.params [] w in
    let after : M RunResult = steps >>= closed origin template in
    let checks : M RunResult = preflight record_names origin setting template >>= λ _. after in
    bind-Logs origin
      (record_row record_names origin "run" started (("steps", nat (length template.steps)) ∷ [])
        [])
      (λ _. checks) (record_row-Logs record_names origin "run" started _ [])
      (λ _.
        bind-Logs origin (preflight record_names origin setting template) (λ _. after)
          (preflight-Logs record_names origin setting template)
          (λ _.
            bind-Logs origin steps (closed origin template)
              (λ w. run_steps-Logs origin setting template.steps w.ctx.params [] w)
              (λ found. closed-Logs origin template found)))
