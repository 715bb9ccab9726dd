-- ===== src/Kyc/Onboarding/Holding.antt =====
-- The onboarding of a politically exposed person, as a graph run.
use navigator_orchestrator_a.Prelude.{
  ◌<◌, String, ◌≡◌, refl, sym, ap, none, some, List, [], ◌∷◌, map, take, drop, Dict, Value, truthy,
  All, arith, true, inl, inr, subst,
}
use navigator_orchestrator_a.Sdk.Context.{Ctx, Hook, Result, ok, err, Result-cases}
use navigator_orchestrator_a.Sdk.Templates.{Step, gate, same_executor, hook_names}
use navigator_orchestrator_a.Sdk.Events.{Origin, World}
use navigator_orchestrator_a.Sdk.Runner.{Setting, StepRecord, RunResult, run_steps}
use navigator_orchestrator_a.Sdk.Judge.{Model}
use navigator_orchestrator_a.Sdk.Graph.{
  LangGraph, gate_is_required, resolve_path, run_template_graph,
}
use navigator_orchestrator_a.Sdk.Graph.Equivalence.{Tame}
use navigator_orchestrator_a.Sdk.Graph.Chain.{TakesNodes, plain_name}
use navigator_orchestrator_a.Sdk.Graph.SameRun.{RunsChains, Chainable}
use navigator_orchestrator_a.Sdk.Graph.Pausing.{run_to_gate, run_template_graph-run_to_gate-Asked}
use navigator_orchestrator_a.Sdk.Graph.Paused.{PausedAt, run_to_gate-PausedAt}
use navigator_orchestrator_a.Kyc.Onboarding.{kyc_steps, kyc_onboarding}

-- The gate of a compliance officer.
abbrev pub pep_gate : Step
pep_gate = record {
  name = "pep_gate";
  executor = gate;
  produces = "pep_decision";
  kwargs = "client" ∷ "pep" ∷ "adverse_media" ∷ [];
  default = none;
  uses = "";
  summary_keys = [];
  doc = "a PEP match is a decision a compliance officer owns, not a rejection";
  command = [];
  timeout = 120000;
  call = none;
  backend = "";
  when = "pep.is_pep";
  schema = "";
  input = "";
  output_schema = "";
}

-- The steps before it.
abbrev pub screening : (String → Hook) → List Step
screening hooks = take 5 (kyc_onboarding hooks).steps

-- The steps end with a product of the PEP check that says that the client is a PEP.
abbrev pub FindsPep : Origin → Setting → (String → Hook) → Ctx → Type 0
FindsPep origin setting hooks c =
    (u v : World) (found : Dict Value × List StepRecord)
    → u.ctx ≡ c
    → run_steps origin setting (screening hooks) u.ctx.params [] u ≡ (ok found, v)
    → (x : Value) × (resolve_path found.0 "pep.is_pep" ≡ some x) × (truthy x ≡ true)

-- A run that raised, or one that is paused at the gate with the identity, media and PEP steps done and
-- no other.
unfoldable pub Held : Result RunResult → Type 0
Held (err e) = Unit
Held (ok r) =
    (r.paused_at ≡ "pep_gate")
    × (map (λ s. s.step) r.steps
        ≡ "load_client" ∷ "validate_jurisdiction" ∷ "extract_entities" ∷ "adjudicate_media"
          ∷ "pep_check" ∷ [])

kyc_onboarding-Chainable :
    (langgraph : LangGraph) (hooks : String → Hook)
    → 10 < langgraph.recursion_limit
    → Chainable langgraph (kyc_onboarding hooks)
unfolding kyc_onboarding kyc_steps hook_names plain_name
kyc_onboarding-Chainable langgraph hooks few = record {
  plain = (refl, (refl, (refl, (refl, (refl, (refl, (refl, (refl, (refl, (refl, tt))))))))));
  distinct = (refl, (refl, (refl, (refl, (refl, (refl, (refl, (refl, (refl, (refl, tt))))))))));
  some_step = ground arith;
  few = few;
}

asks_person :
    (pool : Dict Value) (x : Value)
    → resolve_path pool "pep.is_pep" ≡ some x
    → truthy x ≡ true
    → gate_is_required pep_gate pool ≡ true
unfolding gate_is_required
asks_person pool x found holds = rw (found, holds) refl

Held-paused :
    (hooks : String → Hook) (r : RunResult) → PausedAt (screening hooks) pep_gate r → Held (ok r)
unfolding Held kyc_onboarding kyc_steps
Held-paused hooks r p = (p.at_gate, p.done)

-- No tier is given to a politically exposed person before a person has decided. If LangGraph takes
-- nodes of new and plain names, runs a chain of them one after the other up to an interrupt, and
-- bounds a run by more than ten steps, if the hooks of the first five steps only add to the notes
-- and put no reserved name in the detail, and if these steps, from the context of the run, leave
-- nothing but pools whose `pep.is_pep` is true, then a graph run of the onboarding, without judges
-- and from a context without notes, is the sequential run of these five steps and the pause at
-- `pep_gate`: it raises, or it is paused there, with the identity, media and PEP steps done, and no
-- sanctions check, eligibility or outcome.
pub kyc_onboarding-Held :
    (langgraph : LangGraph) (origin : Origin) (setting : Setting) (model : Model)
    (hooks : String → Hook) (w : World)
    → TakesNodes langgraph
    → RunsChains langgraph
    → 10 < langgraph.recursion_limit
    → All (Tame setting) (screening hooks)
    → FindsPep origin setting hooks w.ctx
    → w.ctx.notes ≡ []
    → (run_template_graph langgraph origin setting model (kyc_onboarding hooks) [] w
        ≡ run_to_gate origin setting (kyc_onboarding hooks) (screening hooks) pep_gate w)
      × Held (run_template_graph langgraph origin setting model (kyc_onboarding hooks) [] w).0
unfolding kyc_onboarding kyc_steps Held same_executor
kyc_onboarding-Held langgraph origin setting model hooks w takes law few tame finds clean =
    let template = kyc_onboarding hooks in
    let same =
      run_template_graph-run_to_gate-Asked langgraph origin setting model template (screening hooks)
        (drop 6 template.steps) pep_gate w takes law refl tame refl
        (λ u v found ctx e.
          let (x, there, holds) = finds u v found ctx e in asks_person found.0 x there holds)
        (kyc_onboarding-Chainable langgraph hooks few) clean in
    let stop = run_to_gate origin setting template (screening hooks) pep_gate w in
    (
      same,
      subst Held (ap (λ p. p.0) (sym same)) (elim (Result-cases stop.0) [
        | inr (x, q) ↦ subst Held (sym q) tt
        | inl (r, q) ↦ subst Held (sym q) (
            Held-paused hooks r (
              run_to_gate-PausedAt origin setting template (screening hooks) pep_gate w stop.1 r
                refl (ground (arith, q))))
      ]),
    )
