-- ===== src/Sdk/Graph/Rows.antt =====
-- The two recorders: `record` of sdk/runner.py and `_Recorder` of sdk/graph.py refuse different
-- keywords, and write the same rows wherever a step's detail has none of these.
use navigator_orchestrator_a.Prelude.{
  String, ◌≡◌, refl, sym, subst, ◌∙◌, ap, inl, inr, false, List, [], ◌∷◌, ◌++◌, arith, ◌||◌,
  if◌then◌else◌, Bool-cases, Dict, put, merge, Value, str, non_empty, truncate, one_of, str_eq, map,
  nat, arr, items_of, length,
}
use navigator_orchestrator_a.Sdk.Context.{
  Ctx, Exn, Result, ok, err, Result-cases, is_blocked, message, type_name,
}
use navigator_orchestrator_a.Sdk.Context
use navigator_orchestrator_a.Sdk.Templates.{Step, Requirement, executor_name}
use navigator_orchestrator_a.Sdk.Events.{
  EventStatus, started, succeeded, skipped, failed, blocked, Origin, World, M, ◌>>=◌, pure, raise,
  record_row, clashes, add_row, multiple_values,
}
use navigator_orchestrator_a.Sdk.Preflight.{describe_missing}
use navigator_orchestrator_a.Sdk.Execution.{summarise_product}
use navigator_orchestrator_a.Sdk.Runner.{
  Setting, called, checked, Chosen, perform, cleared, step_raised, step_returned, execute,
  record_names, at_step,
}
use navigator_orchestrator_a.Sdk.Runner.Completion.{record_row-OneRow, called-Returned}
use navigator_orchestrator_a.Sdk.Graph.{recorder_names}

-- The parameters of both recorders.
abbrev pub reserved : List String
reserved = "step_name" ∷ recorder_names

clashes-agree :
    (taken : List String) (d : Dict Value)
    → clashes reserved d ≡ false
    → clashes (taken ++ recorder_names) d ≡ clashes (taken ++ record_names) d
unfolding clashes
clashes-agree taken [] h = refl
clashes-agree taken ((k, v) ∷ d) h =
    let ih = clashes-agree taken d (ground arith) in
    let here : one_of k (taken ++ recorder_names) ≡ one_of k (taken ++ record_names) =
      one_of-agree taken (ground arith) in
    ground (arith, ih, here)
  where
    one_of-agree :
        (t : List String)
        → one_of k reserved ≡ false
        → one_of k (t ++ recorder_names) ≡ one_of k (t ++ record_names)
    one_of-agree [] q = ground arith
    one_of-agree (x ∷ t) q = ap (λ b. str_eq k x || b) (one_of-agree t q)

clashes-put :
    (d : Dict Value) (k : String) (v : Value)
    → one_of k reserved ≡ false
    → clashes reserved d ≡ false
    → clashes reserved (put d k v) ≡ false
unfolding clashes put
clashes-put [] k v q h = ground arith
clashes-put ((j, w) ∷ d) k v q h = elim (Bool-cases (str_eq j k)) [
  | inl same ↦ rw same h
  | inr apart ↦ let ih = clashes-put d k v q (ground arith) in rw apart (ground arith)
]

-- The same row, whichever names are refused.
pub record_row-agree :
    (t t' : List String) (origin : Origin) (step : String) (status : EventStatus)
    (given detail : Dict Value) (w : World)
    → clashes t detail ≡ clashes t' detail
    → record_row t origin step status given detail w
      ≡ record_row t' origin step status given detail w
unfolding record_row
record_row-agree t t' origin step status given detail w e =
    ap
      (λ b.
        if b
        then (err multiple_values, w)
        else (ok tt, add_row origin step status (given ++ detail) w))
      e

pub bind-agree :
    {A B : Type 0} (m m' : M A) (k k' : A → M B) (w : World)
    → m w ≡ m' w
    → ((a : A) (u : World) → k a u ≡ k' a u)
    → (m >>= k) w ≡ (m' >>= k') w
bind-agree m m' k k' w e h = elim (Result-cases (m w).0) [
  | inl (a, q) ↦
      let q' : (m' w).0 ≡ ok a = ap (λ p. p.0) (sym e) ∙ q in
      rw (q, ◌>>=◌) (rw (q', ◌>>=◌) (rw e (h a (m' w).1)))
  | inr (x, q) ↦
      let q' : (m' w).0 ≡ err x = ap (λ p. p.0) (sym e) ∙ q in
      rw (q, ◌>>=◌) (rw (q', ◌>>=◌) (rw e refl))
]

-- What the step leaves in the detail has no reserved name.
abbrev pub Unreserved : Setting → Step → Chosen → Dict Value → Ctx → Type 0
Unreserved setting step chosen pool c =
    let p = perform setting step chosen pool (cleared c) in
    (clashes reserved p.1.detail ≡ false)
    × ((v : Value)
        → p.0 ≡ ok v
        → clashes reserved (merge (summarise_product v step.summary_keys) p.1.detail) ≡ false)

two_rows-agree :
    (t t' : List String) (origin : Origin) (n n' : String) (s s' : EventStatus)
    (g g' d : Dict Value) (e : Exn) (w : World)
    → clashes t d ≡ clashes t' d
    → (record_row t origin n s g d >>= λ _.
          record_row recorder_names origin n' s' g' [] >>= λ _. raise {A = Unit {0}} e)
        w
      ≡ (record_row t' origin n s g d >>= λ _.
            record_row record_names origin n' s' g' [] >>= λ _. raise {A = Unit {0}} e)
          w
unfolding clashes
two_rows-agree t t' origin n n' s s' g g' d e w h =
    let last : Unit {0} → M (Unit {0}) = λ _. raise e in
    let next : List String → Unit {0} → M (Unit {0}) =
      λ names _. record_row names origin n' s' g' [] >>= last in
    bind-agree (record_row t origin n s g d) (record_row t' origin n s g d) (next recorder_names)
      (next record_names) w (record_row-agree t t' origin n s g d w h)
      (λ _ u.
        bind-agree (record_row recorder_names origin n' s' g' [])
          (record_row record_names origin n' s' g' []) last last u
          (record_row-agree recorder_names record_names origin n' s' g' [] u refl) (λ _ x. refl))

step_raised-agree :
    (origin : Origin) (name : String) (e : Exn) (w : World)
    → clashes reserved w.ctx.detail ≡ false
    → step_raised recorder_names origin name e w ≡ step_raised record_names origin name e w
unfolding step_raised clashes
step_raised-agree origin name e w h = elim (Bool-cases (is_blocked e)) [
  | inl refused ↦ rw refused (
      two_rows-agree ("reason" ∷ recorder_names) ("reason" ∷ record_names) origin name "run" blocked
        blocked (("reason", str (truncate 300 (message e))) ∷ []) (at_step name) w.ctx.detail e w
        (clashes-agree ("reason" ∷ []) w.ctx.detail h))
  | inr crashed ↦ rw crashed (
      two_rows-agree recorder_names record_names origin name "run" failed failed
        (("error", str (type_name e)) ∷ ("detail", str (truncate 300 (message e))) ∷ [])
        (at_step name) [] (Context.step_failed name e) w refl)
]

called-agree :
    (origin : Origin) (setting : Setting) (step : Step) (chosen : Chosen) (pool : Dict Value)
    (w : World)
    → Unreserved setting step chosen pool w.ctx
    → called recorder_names origin setting step chosen pool w
      ≡ called record_names origin setting step chosen pool w
unfolding called
called-agree origin setting step chosen pool w h =
    let p = perform setting step chosen pool (cleared w.ctx) in
    let w' = record w { ctx = p.1 } in
    elim (Result-cases p.0) [
      | inl (v, q) ↦ rw (q, called) refl
      | inr (e, q) ↦
          rw (q, called)
            (bind-agree {A = Unit {0}} {B = Value} (step_raised recorder_names origin step.name e)
              (step_raised record_names origin step.name e) (λ _. raise e) (λ _. raise e) w'
              (step_raised-agree origin step.name e w' h.0) (λ _ u. refl))
    ]

step_returned-agree :
    (origin : Origin) (step : Step) (v : Value) (w : World)
    → clashes reserved (merge (summarise_product v step.summary_keys) w.ctx.detail) ≡ false
    → step_returned recorder_names origin step v w ≡ step_returned record_names origin step v w
unfolding step_returned
step_returned-agree origin step v w h =
    let d = merge (summarise_product v step.summary_keys) w.ctx.detail in
    let reason = str (truncate 300 w.ctx.skipped) in
    elim (Bool-cases (non_empty w.ctx.skipped)) [
      | inl skips ↦ rw skips (
          record_row-agree recorder_names record_names origin step.name skipped []
            (put d "reason" reason) w
            (clashes-agree [] (put d "reason" reason) (clashes-put d "reason" reason refl h)))
      | inr done ↦ rw done (
          record_row-agree recorder_names record_names origin step.name succeeded [] d w
            (clashes-agree [] d h))
    ]

pub checked-agree :
    (origin : Origin) (absent needed : List Requirement) (w : World)
    → checked recorder_names origin absent needed w ≡ checked record_names origin absent needed w
unfolding checked clashes
checked-agree origin (r ∷ rs) needed w =
    two_rows-agree recorder_names record_names origin "preflight" "run" blocked blocked
      (("missing", arr (items_of (map (λ q. str q.variable) (r ∷ rs)))) ∷ []) (at_step "preflight")
      [] (Context.blocked (describe_missing (r ∷ rs))) w refl
checked-agree origin [] [] w = refl
checked-agree origin [] (q ∷ qs) w =
    record_row-agree recorder_names record_names origin "preflight" succeeded
      (("checked", nat (length (q ∷ qs))) ∷ []) [] w refl

-- As bind-agree, where the two continuations agree on what the first action returns.
pub bind-agree_on :
    {A B : Type 0} (m m' : M A) (k k' : A → M B) (w : World)
    → m w ≡ m' w
    → ((a : A) (u : World) → m' w ≡ (ok a, u) → k a u ≡ k' a u)
    → (m >>= k) w ≡ (m' >>= k') w
bind-agree_on m m' k k' w e h = elim (Result-cases (m' w).0) [
  | inl (a, q) ↦
      let q' : (m w).0 ≡ ok a = ap (λ p. p.0) e ∙ q in
      rw (q, ◌>>=◌) (rw (q', ◌>>=◌) (rw e (h a (m' w).1 (ground (arith, q)))))
  | inr (x, q) ↦
      let q' : (m w).0 ≡ err x = ap (λ p. p.0) e ∙ q in rw (q, ◌>>=◌) (rw (q', ◌>>=◌) (rw e refl))
]

-- A step writes the same rows in both runners.
pub execute-agree :
    (origin : Origin) (setting : Setting) (step : Step) (chosen : Chosen) (pool : Dict Value)
    (w : World)
    → Unreserved setting step chosen pool w.ctx
    → execute recorder_names origin setting step chosen pool w
      ≡ execute record_names origin setting step chosen pool w
unfolding execute
execute-agree origin setting step chosen pool w h =
    let before : List String → M (Unit {0}) = λ names.
      record_row names origin step.name started
        (("executor", str (executor_name step.executor)) ∷ ("source", str chosen.source) ∷ []) [] in
    let after : List String → Value → M Value =
      λ names produced. step_returned names origin step produced >>= λ _. pure produced in
    bind-agree_on (before recorder_names) (before record_names)
      (λ _. called recorder_names origin setting step chosen pool >>= after recorder_names)
      (λ _. called record_names origin setting step chosen pool >>= after record_names) w
      (unfold clashes in
        record_row-agree recorder_names record_names origin step.name started
          (("executor", str (executor_name step.executor)) ∷ ("source", str chosen.source) ∷ []) []
          w refl)
      (λ a u e.
        let same : u.ctx ≡ w.ctx =
          (record_row-OneRow record_names origin step.name started _ [] w u a e).context in
        let h' : Unreserved setting step chosen pool u.ctx =
          subst (λ c. Unreserved setting step chosen pool c) (sym same) h in
        bind-agree_on (called recorder_names origin setting step chosen pool)
          (called record_names origin setting step chosen pool) (after recorder_names)
          (after record_names) u (called-agree origin setting step chosen pool u h')
          (λ v x f.
            let r = called-Returned record_names origin setting step chosen pool u x v f in
            bind-agree (step_returned recorder_names origin step v)
              (step_returned record_names origin step v) (λ _. pure v) (λ _. pure v) x
              (step_returned-agree origin step v x (rw r.context (h'.1 v r.returned)))
              (λ b y. refl)))
