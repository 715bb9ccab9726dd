-- ===== src/Sdk/Runner/Completion.antt =====
-- What the log of a run that ended well says: every step was started and ended, in order.
use navigator_orchestrator_a.Prelude.{
  String, ◌≡◌, refl, sym, ◌∙◌, ap, subst, ◌⊎◌, inl, inr, List, [], ◌∷◌, ◌++◌, append_assoc,
  append-nil, arith, Bool-cases, Dict, Value, put, non_empty, map, str,
}
use navigator_orchestrator_a.Sdk.Context.{Ctx, ok, err, Result-cases}
use navigator_orchestrator_a.Sdk.Templates.{Step, executor_name}
use navigator_orchestrator_a.Sdk.Events.{
  EventStatus, started, succeeded, skipped, StepEvent, Origin, World, M, ◌>>=◌, pure, raise,
  add_row, record_row, clashes,
}
use navigator_orchestrator_a.Sdk.Runner.{
  Setting, called, Chosen, StepRecord, lift, perform, cleared, step_raised, step_returned, execute,
  choose, run_steps, record_names, step_record,
}

-- The first of two actions returned, and the second went on from there.
pub record Bound {A B : Type 0} (m : M A) (f : A → M B) (w w' : World) (b : B) : Type 0 where
  pub value : A
  pub between : World
  pub first : m w ≡ (ok value, between)
  pub second : f value between ≡ (ok b, w')

pub bind-ok :
    {A B : Type 0} (m : M A) (f : A → M B) (w w' : World) (b : B)
    → (m >>= f) w ≡ (ok b, w')
    → Bound m f w w' b
bind-ok m f w w' b e = elim (Result-cases (m w).0) [
  | inl (a, q) ↦ record {
    value = a;
    between = (m w).1;
    first = ground arith;
    second = (rw (q, ◌>>=◌) at e);
  }
  | inr (x, q) ↦
      let bad : (err x, (m w).1) ≡ (ok b, w') = (rw (q, ◌>>=◌) at e) in absurd (ground arith)
]

-- A row of this name and status.
abbrev pub IsRow : String → EventStatus → StepEvent → Type 0
IsRow name status e = (e.step ≡ name) × (e.status ≡ status)

-- The world has one more row, of this name and status, and the same context.
pub record OneRow (name : String) (status : EventStatus) (w w' : World) : Type 0 where
  pub row : StepEvent
  pub rows : w'.rows ≡ w.rows ++ row ∷ []
  pub says : IsRow name status row
  pub context : w'.ctx ≡ w.ctx

pub record_row-OneRow :
    (taken : List String) (origin : Origin) (step : String) (status : EventStatus)
    (given detail : Dict Value) (w w' : World) (u : Unit {0})
    → record_row taken origin step status given detail w ≡ (ok u, w')
    → OneRow step status w w'
unfolding record_row add_row
record_row-OneRow taken origin step status given detail w w' u e =
    elim (Bool-cases (clashes taken detail)) [
      | inl refused ↦ absurd (ground arith)
      | inr fine ↦
          let same : add_row origin step status (given ++ detail) w ≡ w' = ground arith in
          subst (λ x. OneRow step status w x) same
            (record { row = _; rows = refl; says = (refl, refl); context = refl })
    ]

-- The row of a step that returned.
abbrev pub IsEnd : String → StepEvent → Type 0
IsEnd name e = (e.step ≡ name) × ((e.status ≡ succeeded) ⊎ (e.status ≡ skipped))

-- Two rows for each step, in the order of the steps.
pub data Ran : List Step → List StepEvent → Type 0 where
  nothing : Ran [] []
  step_ran :
      (step : Step) (steps : List Step) (begin end : StepEvent) (rows : List StepEvent)
      → IsRow step.name started begin
      → IsEnd step.name end
      → Ran steps rows
      → Ran (step ∷ steps) (begin ∷ end ∷ rows)

-- What a step that returned left.
pub record Returned (setting : Setting) (step : Step) (chosen : Chosen) (pool : Dict Value)
    (c : Ctx) (w w' : World) (v : Value) : Type 0 where
  pub returned : (perform setting step chosen pool (cleared c)).0 ≡ ok v
  pub context : w'.ctx ≡ (perform setting step chosen pool (cleared c)).1
  pub rows : w'.rows ≡ w.rows

pub called-Returned :
    (names : List String) (origin : Origin) (setting : Setting) (step : Step) (chosen : Chosen)
    (pool : Dict Value) (w w' : World) (v : Value)
    → called names origin setting step chosen pool w ≡ (ok v, w')
    → Returned setting step chosen pool w.ctx w w' v
unfolding called
called-Returned names origin setting step chosen pool w w' v e =
    let p = perform setting step chosen pool (cleared w.ctx) in
    elim (Result-cases p.0) [
      | inl (u, q) ↦
          let same : (ok u, record w { ctx = p.1 }) ≡ (ok v, w') = (rw (q, called) at e) in
          let value : ok u ≡ ok v = ap (λ r. r.0) same in
          record {
            returned = q ∙ value;
            context = sym (ap (λ r. r.1.ctx) same);
            rows = sym (ap (λ r. r.1.rows) same);
          }
      | inr (x, q) ↦
          let raising : (step_raised names origin step.name x >>= λ _. raise x)
                (record w { ctx = p.1 })
              ≡ (ok v, w') =
            (rw (q, called) at e) in
          let b =
            bind-ok (step_raised names origin step.name x) (λ _. raise x) (record w { ctx = p.1 })
              w' v raising in
          let bad = b.second in absurd (ground arith)
    ]

-- The row that ends a step.
pub record EndRow (name : String) (w w' : World) : Type 0 where
  pub row : StepEvent
  pub rows : w'.rows ≡ w.rows ++ row ∷ []
  pub says : IsEnd name row
  pub context : w'.ctx ≡ w.ctx

step_returned-EndRow :
    (names : List String) (origin : Origin) (step : Step) (produced : Value) (w w' : World)
    (u : Unit {0})
    → step_returned names origin step produced w ≡ (ok u, w')
    → EndRow step.name w w'
unfolding step_returned
step_returned-EndRow names origin step produced w w' u e =
    elim (Bool-cases (non_empty w.ctx.skipped)) [
      | inl skips ↦
          let r =
            record_row-OneRow names origin step.name skipped [] _ w w' u
              (rw (skips, step_returned) at e) in
          record {
            row = r.row;
            rows = r.rows;
            says = (r.says.0, inr r.says.1);
            context = r.context;
          }
      | inr done ↦
          let r =
            record_row-OneRow names origin step.name succeeded [] _ w w' u
              (rw (done, step_returned) at e) in
          record {
            row = r.row;
            rows = r.rows;
            says = (r.says.0, inl r.says.1);
            context = r.context;
          }
    ]

-- The two rows of one step.
pub record StepRows (setting : Setting) (step : Step) (chosen : Chosen) (pool : Dict Value)
    (w w' : World) : Type 0 where
  pub begin : StepEvent
  pub end : StepEvent
  pub rows : w'.rows ≡ w.rows ++ begin ∷ end ∷ []
  pub begins : IsRow step.name started begin
  pub ends : IsEnd step.name end
  pub context : w'.ctx ≡ (perform setting step chosen pool (cleared w.ctx)).1

pub execute-StepRows :
    (names : List String) (origin : Origin) (setting : Setting) (step : Step) (chosen : Chosen)
    (pool : Dict Value) (w w' : World) (v : Value)
    → execute names origin setting step chosen pool w ≡ (ok v, w')
    → StepRows setting step chosen pool w w'
unfolding execute
execute-StepRows names origin setting step chosen pool w w' v e =
    let before =
      record_row names origin step.name started
        (("executor", str (executor_name step.executor)) ∷ ("source", str chosen.source) ∷ []) [] in
    let after : Value → M Value =
      λ produced. step_returned names origin step produced >>= λ _. pure produced in
    let a = bind-ok before (λ _. called names origin setting step chosen pool >>= after) w w' v e in
    let b = bind-ok (called names origin setting step chosen pool) after a.between w' v a.second in
    let c =
      bind-ok (step_returned names origin step b.value) (λ _. pure b.value) b.between w' v
        b.second in
    let first = record_row-OneRow names origin step.name started _ [] w a.between a.value a.first in
    let middle =
      called-Returned names origin setting step chosen pool a.between b.between b.value b.first in
    let final =
      step_returned-EndRow names origin step b.value b.between c.between c.value c.first in
    let same : c.between ≡ w' = ap (λ r. r.1) c.second in
    record {
      begin = first.row;
      end = final.row;
      rows =
          ap (λ x. x.rows) (sym same)
          ∙ final.rows
          ∙ ap (λ r. r ++ final.row ∷ []) (middle.rows ∙ first.rows)
          ∙ append_assoc w.rows (first.row ∷ []) (final.row ∷ []);
      begins = first.says;
      ends = final.says;
      context =
          ap (λ x. x.ctx) (sym same)
          ∙ final.context
          ∙ middle.context
          ∙ ap (λ c. (perform setting step chosen pool (cleared c)).1) first.context;
    }

-- What the loop over the steps leaves, once it is through.
pub record StepsRan (steps : List Step) (w w' : World) (done done' : List StepRecord) : Type 0 where
  pub added : List StepEvent
  pub rows : w'.rows ≡ w.rows ++ added
  pub ran : Ran steps added
  pub records : map (λ r. r.step) done' ≡ map (λ r. r.step) done ++ map (λ s. s.name) steps

map_append : {A B : Type 0} (f : A → B) (xs ys : List A) → map f (xs ++ ys) ≡ map f xs ++ map f ys
map_append f [] ys = refl
map_append f (x ∷ xs) ys = ap (λ l. f x ∷ l) (map_append f xs ys)

pub run_steps-StepsRan :
    (origin : Origin) (setting : Setting) (steps : List Step) (pool pool' : Dict Value)
    (done done' : List StepRecord) (w w' : World)
    → run_steps origin setting steps pool done w ≡ (ok (pool', done'), w')
    → StepsRan steps w w' done done'
unfolding run_steps step_record
run_steps-StepsRan origin setting [] pool pool' done done' w w' e =
    let same : w ≡ w' = ap (λ r. r.1) e in
    let kept : done ≡ done' = ground arith in
    subst (λ x. StepsRan [] w x done done') same
      (subst (λ d. StepsRan [] w w done d) kept
        (record {
          added = [];
          rows = sym (append-nil w.rows);
          ran = nothing;
          records = sym (append-nil (map (λ r. r.step) done));
        }))
run_steps-StepsRan origin setting (step ∷ steps) pool pool' done done' w w' e =
    let next : Chosen → Value → M (Dict Value × List StepRecord) = λ chosen produced.
      run_steps origin setting steps (put pool step.produces produced)
        (done ++ step_record step chosen.source ∷ []) in
    let a =
      bind-ok (lift (choose setting step pool))
        (λ chosen. execute record_names origin setting step chosen pool >>= next chosen) w w'
        (pool', done') e in
    let b =
      bind-ok (execute record_names origin setting step a.value pool) (next a.value) a.between w'
        (pool', done') a.second in
    let same : w ≡ a.between = ap (λ r. r.1) a.first in
    let here =
      execute-StepRows record_names origin setting step a.value pool a.between b.between b.value
        b.first in
    let rest =
      run_steps-StepsRan origin setting steps (put pool step.produces b.value) pool'
        (done ++ step_record step a.value.source ∷ []) done' b.between w' b.second in
    record {
      added = here.begin ∷ here.end ∷ rest.added;
      rows =
          rest.rows
          ∙ ap (λ r. r ++ rest.added)
              (here.rows ∙ ap (λ x. x.rows ++ here.begin ∷ here.end ∷ []) (sym same))
          ∙ append_assoc w.rows (here.begin ∷ here.end ∷ []) rest.added;
      ran = step_ran step steps here.begin here.end rest.added here.begins here.ends rest.ran;
      records =
          rest.records
          ∙ ap (λ l. l ++ map (λ s. s.name) steps)
              (map_append (λ r. r.step) done (step_record step a.value.source ∷ []))
          ∙ append_assoc (map (λ r. r.step) done) (step.name ∷ []) (map (λ s. s.name) steps);
    }
