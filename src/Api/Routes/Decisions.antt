-- ===== src/Api/Routes/Decisions.antt =====
-- What a posted decision leaves, whatever the graph then does.
use navigator_orchestrator_a.Prelude.{
  ℕ, ◌+◌, length, String, Bool, true, false, ◌&&◌, ◌≡◌, refl, ap, ◌∙◌, Option, none, some, [], ◌∷◌,
  ◌++◌, arith, inl, inr, put, str_eq, is_some,
}
use navigator_orchestrator_a.Store.Models.{
  awaiting_decision, same_state, Verdict, Principal, DecisionRecord, ok, err,
}
use navigator_orchestrator_a.Store.Memory.{
  RunStore, get_run, append_decision, chain, new_decision, retried,
}
use navigator_orchestrator_a.Engine.State.{ok as good, Result-cases}
use navigator_orchestrator_a.Engine.Workflows.{Workflow, get_workflow}
use navigator_orchestrator_a.Engine.Runner.Actions.{World}
use navigator_orchestrator_a.Engine.Runner.{decision, resume, stream}
use navigator_orchestrator_a.Engine.Runner.Lifecycle.{Ended, state_of}
use navigator_orchestrator_a.Engine.Runner.Lifecycle.Stream.{stream-Ended}
use navigator_orchestrator_a.Engine.Runner.Keeping.Deciding.{decisions_in, stream-decisions}
use navigator_orchestrator_a.Api.Routes.{
  Context, Response, streaming, decide, act_on, get_scoped_run, with_store, resume_with,
}

abbrev pub is_stream : Response → Bool
is_stream (streaming subject) = true
is_stream _ = false

-- The run awaits a decision, and is one of this workflow.
unfoldable pub awaits : String → String → RunStore → Bool
unfolding get_run same_state
awaits name run_id s = elim (get_run run_id s) [
  | err e ↦ false
  | ok run ↦ str_eq run.workflow name && same_state run.state awaiting_decision
]

-- A decision that is posted for a run that does not await one, is unknown, or is addressed through
-- another workflow is not acted on: the answer is no stream, and the stores, the meter and the
-- events are as they were. So a retry after the run moved on never enters the graph again.
pub decide_refused :
    (context : Context) (name run_id : String) (verdict : Verdict) (comment : Option String)
    (principal : Principal) (uuid : String) (w : World) (s : RunStore)
    → w.runs ≡ some s
    → awaits name run_id s ≡ false
    → let (answer, w') = decide context name run_id verdict comment principal uuid w in
      (is_stream answer ≡ false)
      × (w'.runs ≡ w.runs)
      × (w'.log ≡ w.log)
      × (w'.entries ≡ w.entries)
      × (w'.sent ≡ w.sent)
unfolding decide awaits get_scoped_run get_run append_decision retried same_state act_on with_store
decide_refused context name run_id verdict comment principal uuid w s there closed =
    (ground arith, ground arith, ground arith, ground arith, ground arith)

-- The store after a decision that is new.
abbrev decided_store :
    Context → String → Verdict → Option String → Principal → String → World → RunStore → RunStore
decided_store context run_id verdict comment principal uuid w s =
    let now = context.runner.clock w.reads in
    record s {
      decisions = put s.decisions run_id (
          chain s run_id
          ++ new_decision run_id (chain s run_id) verdict principal comment uuid now ∷ []);
    }

-- The new record.
abbrev new_record :
    Context
    → String
    → Verdict
    → Option String
    → Principal
    → String
    → World
    → RunStore
    → DecisionRecord
new_record context run_id verdict comment principal uuid w s =
    new_decision run_id (chain s run_id) verdict principal comment uuid
      (context.runner.clock w.reads)

-- A decision that is awaited is recorded, and the run is resumed with that record.
decide_awaited :
    (context : Context) (name run_id : String) (verdict : Verdict) (comment : Option String)
    (principal : Principal) (uuid : String) (w : World) (s : RunStore)
    → w.runs ≡ some s
    → awaits name run_id s ≡ true
    → decide context name run_id verdict comment principal uuid w
      ≡ act_on context name run_id principal
          (new_record context run_id verdict comment principal uuid w s, true)
          (with_store (decided_store context run_id verdict comment principal uuid w s) w)
unfolding decide awaits get_scoped_run get_run append_decision same_state
decide_awaited context name run_id verdict comment principal uuid w s there open_ = ground arith

act_on-decisions :
    (context : Context) (name run_id : String) (principal : Principal) (d : DecisionRecord)
    (w : World)
    → decisions_in (act_on context name run_id principal (d, true) w).1 ≡ decisions_in w
unfolding act_on resume
act_on-decisions context name run_id principal d w =
    elim (Result-cases (get_workflow name context.runner.registry)) [
      | inr (e, missing) ↦ rw (missing, act_on, resume) refl
      | inl (workflow, found) ↦
          rw (found, act_on, resume)
            (stream-decisions context.runner workflow context.runner.default_policy run_id
              (resume_with d) w)
    ]

act_on-stream :
    (context : Context) (name run_id : String) (principal : Principal) (d : DecisionRecord)
    (w : World) (workflow : Workflow)
    → get_workflow name context.runner.registry ≡ good workflow
    → (act_on context name run_id principal (d, true) w).1
      ≡ stream context.runner workflow context.runner.default_policy run_id
          (decision (resume_with d))
          w
unfolding act_on resume
act_on-stream context name run_id principal d w workflow found = rw (found, act_on, resume) refl

-- What the request of a decision leaves: a record of it, the world in which the graph is entered, and
-- the store at the end.
pub record Posted (context : Context) (name run_id : String) (verdict : Verdict)
    (comment : Option String) (principal : Principal) (uuid : String) (w : World) (s : RunStore)
    (w' : World) : Type 0 where
  pub made : DecisionRecord
  pub under : made.id ≡ uuid
  pub of_run : made.run_id ≡ run_id
  pub next : made.seq ≡ length (chain s run_id) + 1
  pub said : made.verdict ≡ verdict
  pub remark : made.comment ≡ comment
  pub signed : made.principal ≡ principal
  pub timed : made.decided_at ≡ context.runner.clock w.reads
  -- the graph is entered, if there is one, with the record in the store
  pub entered :
      (workflow : Workflow)
      → get_workflow name context.runner.registry ≡ good workflow
      → w'
        ≡ stream context.runner workflow context.runner.default_policy run_id
            (decision (resume_with made))
            (record w {
              runs =
                  some
                    (record s { decisions = put s.decisions run_id (chain s run_id ++ made ∷ []) });
              reads = w.reads + 1;
            })
  pub kept : decisions_in w' ≡ some (put s.decisions run_id (chain s run_id ++ made ∷ []))

-- A decision that the run awaits is recorded before the graph is entered: the resumed stream starts
-- in a world that differs from that of the request in the record and in one reading of the clock.
-- The record holds the id, the principal, the verdict, the comment and the time of the request and
-- the next number of the run, and it stays whatever happens then (the workflow is unknown, the graph
-- raises, the client disconnects): at the end the run's decisions are those it had and this one,
-- and no other run's decisions have changed.
pub decide_recorded :
    (context : Context) (name run_id : String) (verdict : Verdict) (comment : Option String)
    (principal : Principal) (uuid : String) (w : World) (s : RunStore)
    → w.runs ≡ some s
    → awaits name run_id s ≡ true
    → Posted context name run_id verdict comment principal uuid w s
        (decide context name run_id verdict comment principal uuid w).1
unfolding with_store decisions_in new_decision
decide_recorded context name run_id verdict comment principal uuid w s there open_ =
    let d = new_record context run_id verdict comment principal uuid w s in
    let v = with_store (decided_store context run_id verdict comment principal uuid w s) w in
    let acted = decide_awaited context name run_id verdict comment principal uuid w s there open_ in
    record {
      made = d;
      under = refl;
      of_run = refl;
      next = refl;
      said = refl;
      remark = refl;
      signed = refl;
      timed = refl;
      entered = λ workflow found.
          ap (λ r. r.1) acted ∙ act_on-stream context name run_id principal d v workflow found;
      kept = ap (λ r. decisions_in r.1) acted ∙ act_on-decisions context name run_id principal d v;
    }

known_after :
    (context : Context) (name run_id : String) (verdict : Verdict) (comment : Option String)
    (principal : Principal) (uuid : String) (w : World) (s : RunStore)
    → awaits name run_id s ≡ true
    → is_some (
        state_of run_id
          (with_store (decided_store context run_id verdict comment principal uuid w s) w))
      ≡ true
unfolding awaits get_run with_store state_of
known_after context name run_id verdict comment principal uuid w s open_ = ground arith

-- A decision that a run of a registered workflow awaits is answered by a stream; read to its end, it
-- is over with one final, error or interrupt event, and the run's state in the store is then the
-- one of that event: completed, failed, or awaiting the next decision.
pub decide-Ended :
    (context : Context) (name run_id : String) (verdict : Verdict) (comment : Option String)
    (principal : Principal) (uuid : String) (w : World) (s : RunStore) (workflow : Workflow)
    → w.runs ≡ some s
    → awaits name run_id s ≡ true
    → get_workflow name context.runner.registry ≡ good workflow
    → w.patience ≡ none
    → let (answer, w') = decide context name run_id verdict comment principal uuid w in
      (answer ≡ streaming principal.subject) × Ended run_id w w'
unfolding act_on resume with_store
decide-Ended context name run_id verdict comment principal uuid w s workflow there open_ found
      patient =
    let d = new_record context run_id verdict comment principal uuid w s in
    let v = with_store (decided_store context run_id verdict comment principal uuid w s) w in
    let over =
      stream-Ended context.runner workflow context.runner.default_policy run_id
        (decision (resume_with d)) v patient
        (known_after context name run_id verdict comment principal uuid w s open_) in
    rw
      (
        decide_awaited context name run_id verdict comment principal uuid w s there open_,
        act_on,
        found,
      )
      (
        refl,
        record {
          between = over.between;
          last = over.last;
          sent = over.sent;
          progress = over.progress;
          is_last = over.is_last;
        },
      )

-- Recording a decision does not move its run on: until the resumed stream marks the run, the run
-- still awaits a decision, so a second one, the very same one included, is recorded as new, with
-- the next number.
pub append_decision_twice :
    (run_id : String) (v v' : Verdict) (p p' : Principal) (c c' : Option String)
    (uuid uuid' : String) (now now' : ℕ) (s : RunStore) (name : String)
    → awaits name run_id s ≡ true
    → let s' = (append_decision run_id v p c uuid now s).1 in
      (append_decision run_id v' p' c' uuid' now' s').0
      ≡ ok (new_decision run_id (chain s' run_id) v' p' c' uuid' now', true)
unfolding awaits get_run append_decision same_state
append_decision_twice run_id v v' p p' c c' uuid uuid' now now' s name open_ = ground arith
