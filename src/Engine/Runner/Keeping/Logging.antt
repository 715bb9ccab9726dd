-- ===== src/Engine/Runner/Keeping/Logging.antt =====
-- The run log and the cost meter of a stream, wherever the client closes it.
use navigator_orchestrator_a.Prelude.{
  ℕ, String, ◌≡◌, refl, sym, ◌∙◌, ap, Option, none, some, List, [], ◌∷◌, ◌++◌, map, arith,
  append_assoc, append-nil, Dict, Value, str, bool,
}
use navigator_orchestrator_a.Store.Models.{RunState}
use navigator_orchestrator_a.Store.Memory.{create_run}
use navigator_orchestrator_a.Store.RunLog.{RunLog, Line, append, append_all}
use navigator_orchestrator_a.Engine.Events.{
  Event, token, node, error, final, interrupt, started, completed, show_status,
}
use navigator_orchestrator_a.Engine.Policy.{Policy}
use navigator_orchestrator_a.Engine.Meter.{Usage, no_usage, cost_entry}
use navigator_orchestrator_a.Engine.Workflows.{Workflow}
use navigator_orchestrator_a.Engine.Runner.Actions.{
  Runner, World, mark, report, write_log, emit, line_of, lookup, store_body, client_for, open_run,
}
use navigator_orchestrator_a.Engine.Runner.{
  Request, start, decision, add_usage, open_request, stream, meter, request_key, attempt, rescue,
}
use navigator_orchestrator_a.Engine.Runner.Keeping.{Keeps, Respected, attempt-kept}

-- The line without the clock's reading.
unfoldable pub untimed : Line → Line
untimed line = record line { at = 0 }

-- A line, with no reading of the clock.
abbrev says_of : String → String → String → Option String → Dict Value → Line
says_of workflow run_id status step detail = record {
  run_id = run_id;
  workflow = workflow;
  status = status;
  step = step;
  detail = detail;
  at = 0;
}

-- The lines, without the clock's readings, that these events are to be logged by: none for a token,
-- the step and its status for a node, and how the run ended or stopped for the other events.
unfoldable pub lines_of : String → List Event → List Line
lines_of workflow [] = []
lines_of workflow (token k text ∷ es) = lines_of workflow es
lines_of workflow (node k name started ∷ es) =
    says_of workflow k "started" (some name) [] ∷ lines_of workflow es
lines_of workflow (node k name completed ∷ es) =
    says_of workflow k "completed" (some name) [] ∷ lines_of workflow es
lines_of workflow (interrupt k payload ∷ es) =
    says_of workflow k "awaiting_decision" none [] ∷ lines_of workflow es
lines_of workflow (error k kind detail ∷ es) =
    says_of workflow k "failed" none (("error", str kind) ∷ []) ∷ lines_of workflow es
lines_of workflow (final k output cached ∷ es) =
    says_of workflow k "completed" none (("cached", bool cached) ∷ []) ∷ lines_of workflow es

-- The log after these lines, if there is a log.
abbrev pub logged : List Line → Option RunLog → Option RunLog
logged lines none = none
logged lines (some log) = some (append_all lines log)

-- Events were sent, and the log says them.
pub record Told (workflow : String) (w w' : World) : Type 0 where
  pub events : List Event
  pub lines : List Line
  pub sent : w'.sent ≡ w.sent ++ events
  pub log : w'.log ≡ logged lines w.log
  pub says : map untimed lines ≡ lines_of workflow events
  pub entries : w'.entries ≡ w.entries

lines_of-append :
    (workflow : String) (es fs : List Event)
    → lines_of workflow (es ++ fs) ≡ lines_of workflow es ++ lines_of workflow fs
unfolding lines_of
lines_of-append workflow [] fs = refl
lines_of-append workflow (token k text ∷ es) fs = lines_of-append workflow es fs
lines_of-append workflow (node k name started ∷ es) fs =
    ap (λ ls. says_of workflow k "started" (some name) [] ∷ ls) (lines_of-append workflow es fs)
lines_of-append workflow (node k name completed ∷ es) fs =
    ap (λ ls. says_of workflow k "completed" (some name) [] ∷ ls) (lines_of-append workflow es fs)
lines_of-append workflow (interrupt k payload ∷ es) fs =
    ap (λ ls. says_of workflow k "awaiting_decision" none [] ∷ ls) (lines_of-append workflow es fs)
lines_of-append workflow (error k kind detail ∷ es) fs =
    ap (λ ls. says_of workflow k "failed" none (("error", str kind) ∷ []) ∷ ls)
      (lines_of-append workflow es fs)
lines_of-append workflow (final k output cached ∷ es) fs =
    ap (λ ls. says_of workflow k "completed" none (("cached", bool cached) ∷ []) ∷ ls)
      (lines_of-append workflow es fs)

map-append : (ls ms : List Line) → map untimed (ls ++ ms) ≡ map untimed ls ++ map untimed ms
map-append [] ms = refl
map-append (l ∷ ls) ms = ap (λ r. untimed l ∷ r) (map-append ls ms)

append_all-append :
    (ls ms : List Line) (log : RunLog)
    → append_all (ls ++ ms) log ≡ append_all ms (append_all ls log)
unfolding append_all
append_all-append [] ms log = refl
append_all-append (l ∷ ls) ms log = append_all-append ls ms (append l log).1

logged-append :
    (ls ms : List Line) (log : Option RunLog) → logged ms (logged ls log) ≡ logged (ls ++ ms) log
logged-append ls ms none = refl
logged-append ls ms (some log) = ap some (sym (append_all-append ls ms log))

logged-nil : (log : Option RunLog) → log ≡ logged [] log
unfolding append_all
logged-nil none = refl
logged-nil (some log) = refl

module _ (workflow : String) where
  Told-stay :
      (w w' : World)
      → w'.sent ≡ w.sent
      → w'.log ≡ w.log
      → w'.entries ≡ w.entries
      → Told workflow w w'
  unfolding lines_of
  Told-stay w w' s l e = record {
    events = [];
    lines = [];
    sent = s ∙ sym (append-nil w.sent);
    log = l ∙ logged-nil w.log;
    says = refl;
    entries = e;
  }

  Told-chain : (u v w : World) → Told workflow u v → Told workflow v w → Told workflow u w
  Told-chain u v w a b = record {
    events = a.events ++ b.events;
    lines = a.lines ++ b.lines;
    sent = b.sent ∙ rw a.sent (append_assoc u.sent a.events b.events);
    log = b.log ∙ rw a.log (logged-append a.lines b.lines u.log);
    says =
        map-append a.lines b.lines
        ∙ rw (a.says, b.says) (sym (lines_of-append workflow a.events b.events));
    entries = b.entries ∙ a.entries;
  }

  untimed-line_of :
      (at : ℕ) (e : Event)
      → map untimed (elim (line_of workflow at e) [ none ↦ [] | some line ↦ line ∷ [] ])
        ≡ lines_of workflow (e ∷ [])
  unfolding line_of lines_of untimed show_status
  untimed-line_of at (token k text) = refl
  untimed-line_of at (node k name started) = refl
  untimed-line_of at (node k name completed) = refl
  untimed-line_of at (error k kind detail) = refl
  untimed-line_of at (final k output cached) = refl
  untimed-line_of at (interrupt k payload) = refl

  report-Told : (runner : Runner) (e : Event) → Keeps (Told workflow) (report runner workflow e)
  unfolding report write_log emit append_all
  report-Told runner e w =
      let at = runner.clock w.reads in
      record {
        events = e ∷ [];
        lines = elim (line_of workflow at e) [ none ↦ [] | some line ↦ line ∷ [] ];
        sent = ground arith;
        log = ground arith;
        says = untimed-line_of at e;
        entries = ground arith;
      }

-- The accesses that neither send, log nor meter.
abbrev Untold : World → World → Type 0
Untold w w' = (w'.sent ≡ w.sent) × (w'.log ≡ w.log) × (w'.entries ≡ w.entries)

looked : (runner : Runner) (key : Option String) → Keeps Untold (lookup runner key)
unfolding lookup
looked runner none w = (refl, refl, refl)
looked runner (some key) w = (ground arith, ground arith, ground arith)

stored_body :
    (runner : Runner) (key : Option String) (body : Dict Value) (ttl : Option ℕ)
    → Keeps Untold (store_body runner key body ttl)
unfolding store_body
stored_body runner none body ttl w = (refl, refl, refl)
stored_body runner (some key) body ttl w = (ground arith, ground arith, ground arith)

counted : (spent : Option Usage) → Keeps Untold (add_usage spent)
unfolding add_usage
counted none w = (refl, refl, refl)
counted (some u) w = (refl, refl, refl)

opened :
    (runner : Runner) (workflow : Workflow) (policy : Policy) (run_id : String) (request : Request)
    → Keeps Untold (open_request runner workflow policy run_id request)
unfolding open_request open_run create_run
opened runner workflow policy run_id (decision d) w = (refl, refl, refl)
opened runner workflow policy run_id (start payload principal) w =
    (ground arith, ground arith, ground arith)

client_made : (runner : Runner) (policy : Policy) → Keeps Untold (client_for runner policy)
unfolding client_for
client_made runner policy w = (ground arith, ground arith, ground arith)

marked :
    (runner : Runner) (run_id : String) (state : RunState) (gate : Option (Dict Value))
    → Keeps Untold (mark runner run_id state gate)
unfolding mark
marked runner run_id state gate w = (ground arith, ground arith, ground arith)

Untold-Told : (workflow : String) (w w' : World) → Untold w w' → Told workflow w w'
Untold-Told workflow w w' u = Told-stay workflow w w' u.0 u.1 u.2

Told-Respected :
    (runner : Runner) (workflow : Workflow) (policy : Policy) (run_id : String)
    (key : Option String) (request : Request)
    → Respected (Told workflow.name) runner workflow policy run_id key request
Told-Respected runner workflow policy run_id key request =
    let name = workflow.name in
    let untold = Untold-Told name in
    record {
      stay = λ w. untold w w (refl, refl, refl);
      chain = Told-chain name;
      opens = λ w.
          untold w (open_request runner workflow policy run_id request w).1
            (opened runner workflow policy run_id request w);
      looks_up = λ w. untold w (lookup runner key w).1 (looked runner key w);
      makes_client = λ w. untold w (client_for runner policy w).1 (client_made runner policy w);
      counts = λ spent w. untold w (add_usage spent w).1 (counted spent w);
      marks = λ state gate w.
          untold w (mark runner run_id state gate w).1 (marked runner run_id state gate w);
      reports = report-Told name runner;
      stores = λ body w.
          untold w (store_body runner key body workflow.cache_ttl_s w).1
            (stored_body runner key body workflow.cache_ttl_s w);
    }

-- What a stream leaves: the events it sent, the lines it logged, and one entry of the meter.
pub record Recorded (workflow model run_id : String) (w w' : World) : Type 0 where
  pub events : List Event
  pub lines : List Line
  pub usage : Usage
  pub sent : w'.sent ≡ w.sent ++ events
  pub log : w'.log ≡ logged lines w.log
  pub says : map untimed lines ≡ lines_of workflow events
  pub metered : w'.entries ≡ w.entries ++ cost_entry run_id workflow model usage ∷ []

-- Wherever its client stops reading, a stream meters the run with exactly one entry, under its id,
-- workflow and model; and the run log has one more line for each event that was sent and is not a
-- token, in the order in which they were sent: for a node its step and status, for an interrupt that
-- a decision is awaited, for an error its kind, and for the final event whether it was cached.
pub stream-Recorded :
    (runner : Runner) (workflow : Workflow) (policy : Policy) (run_id : String) (request : Request)
    (w : World)
    → Recorded workflow.name policy.model run_id w (stream runner workflow policy run_id request w)
unfolding stream meter
stream-Recorded runner workflow policy run_id request w =
    let key = request_key runner w workflow policy request in
    let begin = record w { usage = no_usage } in
    let told =
      attempt-kept (Told workflow.name) runner workflow policy run_id key request
        (Told-Respected runner workflow policy run_id key request) begin in
    record {
      events = told.events;
      lines = told.lines;
      usage =
          (rescue runner workflow run_id (attempt runner workflow policy run_id key request begin).0
            (attempt runner workflow policy run_id key request begin).1).1.usage;
      sent = told.sent;
      log = told.log;
      says = told.says;
      metered = rw told.entries refl;
    }
