-- ===== src/Engine/Runner/Keeping/Deciding.antt =====
-- A resumed stream leaves the decisions of the store alone.
use navigator_orchestrator_a.Prelude.{
  ℕ, String, ◌≡◌, refl, ◌∙◌, Option, none, some, List, arith, Dict, Value,
}
use navigator_orchestrator_a.Store.Models.{RunState, DecisionRecord}
use navigator_orchestrator_a.Store.Memory.{get_run, mark_state}
use navigator_orchestrator_a.Engine.Events.{Event}
use navigator_orchestrator_a.Engine.Policy.{Policy}
use navigator_orchestrator_a.Engine.Meter.{Usage, no_usage}
use navigator_orchestrator_a.Engine.Workflows.{Workflow}
use navigator_orchestrator_a.Engine.Runner.Actions.{
  Runner, World, mark, report, write_log, emit, lookup, store_body, client_for,
}
use navigator_orchestrator_a.Engine.Runner.{
  decision, add_usage, open_request, stream, meter, request_key,
}
use navigator_orchestrator_a.Engine.Runner.Keeping.{Keeps, attempt-kept}

-- The decisions that the store keeps.
unfoldable pub decisions_in : World → Option (Dict (List DecisionRecord))
decisions_in w = elim w.runs [ none ↦ none | some s ↦ some s.decisions ]

abbrev SameDecisions : World → World → Type 0
SameDecisions w w' = decisions_in w' ≡ decisions_in w

marked :
    (runner : Runner) (run_id : String) (state : RunState) (gate : Option (Dict Value))
    → Keeps SameDecisions (mark runner run_id state gate)
unfolding mark decisions_in mark_state get_run
marked runner run_id state gate w = ground arith

reported :
    (runner : Runner) (workflow : String) (e : Event)
    → Keeps SameDecisions (report runner workflow e)
unfolding report write_log emit decisions_in
reported runner workflow e w = ground arith

looked : (runner : Runner) (key : Option String) → Keeps SameDecisions (lookup runner key)
unfolding lookup decisions_in
looked runner none w = refl
looked runner (some key) w = ground arith

stored :
    (runner : Runner) (key : Option String) (body : Dict Value) (ttl : Option ℕ)
    → Keeps SameDecisions (store_body runner key body ttl)
unfolding store_body decisions_in
stored runner none body ttl w = refl
stored runner (some key) body ttl w = ground arith

counted : (spent : Option Usage) → Keeps SameDecisions (add_usage spent)
unfolding add_usage decisions_in
counted none w = refl
counted (some u) w = refl

made : (runner : Runner) (policy : Policy) → Keeps SameDecisions (client_for runner policy)
unfolding client_for decisions_in
made runner policy w = ground arith

-- A resumed stream leaves the decisions alone, however it ends.
pub stream-decisions :
    (runner : Runner) (workflow : Workflow) (policy : Policy) (run_id : String) (d : Dict Value)
    (w : World)
    → decisions_in (stream runner workflow policy run_id (decision d) w) ≡ decisions_in w
unfolding stream meter request_key decisions_in open_request
stream-decisions runner workflow policy run_id d w =
    attempt-kept SameDecisions runner workflow policy run_id none (decision d)
      (record {
        stay = λ u. refl;
        chain = λ u v x a b. b ∙ a;
        opens = λ u. refl;
        looks_up = looked runner none;
        makes_client = made runner policy;
        counts = counted;
        marks = marked runner run_id;
        reports = reported runner workflow.name;
        stores = λ body. stored runner none body workflow.cache_ttl_s;
      })
      (record w { usage = no_usage })
