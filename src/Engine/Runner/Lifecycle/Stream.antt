-- ===== src/Engine/Runner/Lifecycle/Stream.antt =====
-- The whole of `_stream`: what opens it, the exceptions, and its end.
use navigator_orchestrator_a.Prelude.{
  ◌+◌, String, true, false, ◌≡◌, refl, sym, ◌∙◌, Option, none, some, [], arith, inl, inr,
  append-nil, subst, Option-cases, is_some, get-put_self, Dict, Value,
}
use navigator_orchestrator_a.Store.Models.{RunState, failed}
use navigator_orchestrator_a.Store.Memory.{create_run, new_run}
use navigator_orchestrator_a.Engine.Events.{Event}
use navigator_orchestrator_a.Engine.State.{Exn, contract_error, raised}
use navigator_orchestrator_a.Engine.Policy.{Policy}
use navigator_orchestrator_a.Engine.Meter.{no_usage}
use navigator_orchestrator_a.Engine.Workflows.{Workflow}
use navigator_orchestrator_a.Engine.Runner.Actions.{
  Runner, World, Outcome, done, threw, closed, ◌>>=◌, emit, mark, report, lookup, is_closed,
  open_run, policy_entry,
}
use navigator_orchestrator_a.Engine.Runner.{
  Request, start, decision, close_with, answer, open_request, attempt, rescue, error_of, meter,
  stream, request_key,
}
use navigator_orchestrator_a.Engine.Runner.Lifecycle.{Ended, IsLast, state_of, SteadyAt, EndsAt}
use navigator_orchestrator_a.Engine.Runner.Lifecycle.Progress.{
  quiet, Finishing-bind, Steady-lookup, Going-Ended, EndsAt-continue,
}
use navigator_orchestrator_a.Engine.Runner.Lifecycle.Endings.{
  Finishing-answer, Finishing-close_with, mark-kept, write_log-kept,
}

module _ (run_id : String) where
  -- What the store has to know before: nothing of a new run, and the run that is resumed.
  abbrev pub Admits : Request → World → Type 0
  Admits (start payload principal) w = is_some w.runs ≡ true
  Admits (decision d) w = is_some (state_of run_id w) ≡ true

  begun :
      {A : Type 0} (w : World) (r : Outcome A) (w' : World)
      → is_closed r ≡ false
      → w'.sent ≡ w.sent
      → w'.patience ≡ none
      → is_some (state_of run_id w') ≡ true
      → SteadyAt run_id w r w'
  begun w (done a) w' c s p k = record {
    between = [];
    sent = s ∙ sym (append-nil w.sent);
    progress = tt;
    ready = record { patient = p; known = k };
  }
  begun w (threw x) w' c s p k = record {
    between = [];
    sent = s ∙ sym (append-nil w.sent);
    progress = tt;
    ready = record { patient = p; known = k };
  }
  begun w closed w' c s p k = absurd (ground arith)

  pub Admits-usage :
      (request : Request) (w : World)
      → Admits request w
      → Admits request (record w { usage = no_usage })
  unfolding state_of
  Admits-usage (start payload principal) w k = k
  Admits-usage (decision d) w k = k

  open_request-SteadyAt :
      (runner : Runner) (workflow : Workflow) (policy : Policy) (request : Request) (w : World)
      → w.patience ≡ none
      → Admits request w
      → SteadyAt run_id w
          (open_request runner workflow policy run_id request w).0
          (open_request runner workflow policy run_id request w).1
  unfolding open_request open_run create_run state_of
  open_request-SteadyAt runner workflow policy (decision d) w p k =
      quiet run_id w w (record { patient = p; known = k }) refl refl refl
  open_request-SteadyAt runner workflow policy (start payload principal) w p k =
      let m = open_run runner run_id workflow policy principal w in
      begun w m.0 m.1 (ground arith) (ground arith) (ground arith) (elim (Option-cases w.runs) [
        | inl q ↦ absurd (ground arith)
        | inr (s, q) ↦ ground (
          arith,
          get-put_self s.runs run_id (
              new_run run_id workflow.name (policy_entry runner policy) principal
                (runner.clock w.reads) (runner.clock (w.reads + 1))),
        )
      ])

  attempt-EndsAt :
      (runner : Runner) (workflow : Workflow) (policy : Policy) (key : Option String)
      (request : Request) (w : World)
      → w.patience ≡ none
      → Admits request w
      → EndsAt run_id w
          (attempt runner workflow policy run_id key request w).0
          (attempt runner workflow policy run_id key request w).1
  unfolding attempt
  attempt-EndsAt runner workflow policy key request w p k =
      let m = open_request runner workflow policy run_id request w in
      EndsAt-continue run_id
        (λ u.
          lookup runner key >>= λ cached. answer runner workflow policy run_id key request cached)
        w m.0 m.1 (open_request-SteadyAt runner workflow policy request w p k)
        (λ u.
          Finishing-bind run_id (lookup runner key)
            (λ cached. answer runner workflow policy run_id key request cached)
            (Steady-lookup run_id runner key)
            (λ cached. Finishing-answer run_id runner workflow policy key request cached))

  -- An exception's event is an error.
  error_of-IsLast : (e : Exn) → IsLast run_id (error_of run_id e) (some failed)
  unfolding error_of
  error_of-IsLast (contract_error direction model_name errors) = (refl, refl)
  error_of-IsLast (raised kind message) = (refl, refl)

  close_with-done :
      (runner : Runner) (workflow : String) (state : RunState) (gate : Option (Dict Value))
      (e : Event) (w : World)
      → w.patience ≡ none
      → (close_with runner workflow run_id state gate e w).0 ≡ done tt
  unfolding close_with report emit
  close_with-done runner workflow state gate e w p =
      let v = (mark runner run_id state gate w).1 in
      let marked = mark-kept run_id runner state gate w in
      let logged = write_log-kept run_id runner workflow e v in
      rw (marked.2, logged.3, logged.1 ∙ marked.1 ∙ p, ◌>>=◌, emit) refl

  rescue-Ended :
      (runner : Runner) (workflow : Workflow) (w : World) (r : Outcome (Unit {0})) (v : World)
      → EndsAt run_id w r v
      → Ended run_id w (rescue runner workflow run_id r v).1
  unfolding rescue
  rescue-Ended runner workflow w (done u) v h = h
  rescue-Ended runner workflow w closed v h = absurd h
  rescue-Ended runner workflow w (threw e) v h =
      let event = error_of run_id e in
      let m = close_with runner workflow.name run_id failed none event v in
      let last =
        Finishing-close_with run_id runner workflow.name failed none event (error_of-IsLast e) v
          h.ready in
      let over : Ended run_id v m.1 =
        subst (λ o. EndsAt run_id v o m.1)
          (close_with-done runner workflow.name failed none event v h.ready.patient) last in
      Going-Ended run_id w v m.1 h over

-- A stream that the client reads to the end, of a run that starts where there is a run store, or
-- of a resumed run that the store knows, always is over: it sends token and node events of this
-- run, and then exactly one more event, which is final, error or interrupt; and the run's state in
-- the store is then completed, failed or awaiting_decision, as that last event says.
pub stream-Ended :
    (runner : Runner) (workflow : Workflow) (policy : Policy) (run_id : String) (request : Request)
    (w : World)
    → w.patience ≡ none
    → Admits run_id request w
    → Ended run_id w (stream runner workflow policy run_id request w)
unfolding stream meter state_of
stream-Ended runner workflow policy run_id request w p k =
    let key = request_key runner w workflow policy request in
    let begin = record w { usage = no_usage } in
    let m = attempt runner workflow policy run_id key request begin in
    let over = rescue-Ended run_id runner workflow begin m.0 m.1 (
      attempt-EndsAt run_id runner workflow policy key request begin p
        (Admits-usage run_id request w k)) in
    record {
      between = over.between;
      last = over.last;
      sent = over.sent;
      progress = over.progress;
      is_last = over.is_last;
    }
