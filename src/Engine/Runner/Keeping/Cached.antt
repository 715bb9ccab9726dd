-- ===== src/Engine/Runner/Keeping/Cached.antt =====
-- The cache and a stream: a resumed run leaves it alone, and an answer of it needs no graph.
use navigator_orchestrator_a.Prelude.{
  ℕ, String, Bool, true, false, ◌≡◌, refl, ◌∙◌, Option, none, some, [], ◌∷◌, ◌++◌, arith, Dict,
  Value, get,
}
use navigator_orchestrator_a.Store.Models.{RunState, Principal, completed}
use navigator_orchestrator_a.Store.Memory.{create_run}
use navigator_orchestrator_a.Engine.Events.{Event, final}
use navigator_orchestrator_a.Engine.Policy.{Policy}
use navigator_orchestrator_a.Engine.Cache.{Entries, get_entry, lapsed}
use navigator_orchestrator_a.Engine.Meter.{Usage, no_usage}
use navigator_orchestrator_a.Engine.Workflows.{Workflow}
use navigator_orchestrator_a.Engine.Runner.Actions.{
  Runner, World, mark, report, write_log, emit, lookup, store_body, client_for, ◌>>=◌, Outcome,
  done, threw, closed, open_run,
}
use navigator_orchestrator_a.Engine.Runner.Lifecycle.{state_of}
use navigator_orchestrator_a.Engine.Runner.{
  start, decision, add_usage, open_request, stream, meter, request_key, close_with, attempt, rescue,
  answer, key_of,
}
use navigator_orchestrator_a.Engine.Runner.Keeping.{Keeps, Respected, attempt-kept}

abbrev SameCache : World → World → Type 0
SameCache w w' = w'.cache ≡ w.cache

report-cache :
    (runner : Runner) (workflow : String) (e : Event) → Keeps SameCache (report runner workflow e)
unfolding report write_log emit
report-cache runner workflow e w = ground arith

counted : (spent : Option Usage) → Keeps SameCache (add_usage spent)
unfolding add_usage
counted none w = refl
counted (some u) w = refl

SameCache-Respected :
    (runner : Runner) (workflow : Workflow) (policy : Policy) (run_id : String) (d : Dict Value)
    → Respected SameCache runner workflow policy run_id none (decision d)
unfolding open_request lookup client_for add_usage mark store_body
SameCache-Respected runner workflow policy run_id d = record {
  stay = λ w. refl;
  chain = λ u v w a b. b ∙ a;
  opens = λ w. refl;
  looks_up = λ w. refl;
  makes_client = λ w. ground arith;
  counts = counted;
  marks = λ state gate w. ground arith;
  reports = report-cache runner workflow.name;
  stores = λ body w. refl;
}

-- A resumed run neither reads the cache (an entry that has lapsed would be deleted) nor writes it,
-- however it ends.
pub stream-cache :
    (runner : Runner) (workflow : Workflow) (policy : Policy) (run_id : String) (d : Dict Value)
    (w : World)
    → (stream runner workflow policy run_id (decision d) w).cache ≡ w.cache
unfolding stream meter request_key
stream-cache runner workflow policy run_id d w =
    attempt-kept SameCache runner workflow policy run_id none (decision d)
      (SameCache-Respected runner workflow policy run_id d) (record w { usage = no_usage })

-- A new run leaves the cache, what was sent and the clients as they are when it is opened.
record Opened (w : World) (r : Outcome (Unit {0})) (w' : World) : Type 0 where
  well : r ≡ done tt
  cache : w'.cache ≡ w.cache
  sent : w'.sent ≡ w.sent
  clients : w'.clients ≡ w.clients

open_run-Opened :
    (runner : Runner) (workflow : Workflow) (policy : Policy) (run_id : String)
    (principal : Option Principal) (w : World)
    → state_of run_id w ≡ none
    → Opened w
        (open_run runner run_id workflow policy principal w).0
        (open_run runner run_id workflow policy principal w).1
unfolding open_run create_run state_of
open_run-Opened runner workflow policy run_id principal w new = record {
  well = ground arith;
  cache = ground arith;
  sent = ground arith;
  clients = ground arith;
}

lookup-hit :
    (runner : Runner) (key : String) (entries : Entries) (expires : Option ℕ) (body : Dict Value)
    (w : World)
    → w.cache ≡ some entries
    → get entries key ≡ some (expires, body)
    → ((n : ℕ) → lapsed expires (runner.clock n) ≡ false)
    → ((lookup runner (some key) w).0 ≡ done (some body))
      × ((lookup runner (some key) w).1.sent ≡ w.sent)
      × ((lookup runner (some key) w).1.clients ≡ w.clients)
unfolding lookup get_entry
lookup-hit runner key entries expires body w c g live =
    let fresh = live w.reads in (ground arith, ground arith, ground arith)

close-sent :
    (runner : Runner) (workflow run_id : String) (state : RunState) (e : Event) (w : World)
    → ((close_with runner workflow run_id state none e w).1.sent ≡ w.sent ++ e ∷ [])
      × ((close_with runner workflow run_id state none e w).1.clients ≡ w.clients)
unfolding close_with mark report write_log emit
close-sent runner workflow run_id state e w = (ground arith, ground arith)

abbrev is_threw : {A : Type 0} → Outcome A → Bool
is_threw (done a) = false
is_threw (threw e) = true
is_threw closed = false

close-calm :
    (runner : Runner) (workflow run_id : String) (state : RunState) (e : Event) (w : World)
    → is_threw (close_with runner workflow run_id state none e w).0 ≡ false
unfolding close_with mark report write_log emit
close-calm runner workflow run_id state e w = ground arith

rescue-calm :
    (runner : Runner) (workflow : Workflow) (run_id : String) (r : Outcome (Unit {0})) (v : World)
    → is_threw r ≡ false
    → (rescue runner workflow run_id r v).1 ≡ v
unfolding rescue
rescue-calm runner workflow run_id (done u) v e = refl
rescue-calm runner workflow run_id (threw x) v e = absurd (ground arith)
rescue-calm runner workflow run_id closed v e = refl

-- An answer of the cache is the whole attempt.
attempt-hit :
    (runner : Runner) (workflow : Workflow) (policy : Policy) (run_id key : String)
    (payload : Dict Value) (principal : Option Principal) (entries : Entries) (expires : Option ℕ)
    (body : Dict Value) (w : World)
    → state_of run_id w ≡ none
    → w.cache ≡ some entries
    → get entries key ≡ some (expires, body)
    → ((n : ℕ) → lapsed expires (runner.clock n) ≡ false)
    → let v =
        (rescue runner workflow run_id
          (attempt runner workflow policy run_id (some key) (start payload principal) w).0
          (attempt runner workflow policy run_id (some key) (start payload principal) w).1).1 in
      (v.sent ≡ w.sent ++ final run_id body true ∷ []) × (v.clients ≡ w.clients)
unfolding attempt open_request answer rescue
attempt-hit runner workflow policy run_id key payload principal entries expires body w new c g
      live =
    let opened = open_run-Opened runner workflow policy run_id principal w new in
    let v = (open_run runner run_id workflow policy principal w).1 in
    let hit = lookup-hit runner key entries expires body v (opened.cache ∙ c) g live in
    let u = (lookup runner (some key) v).1 in
    let over = close-sent runner workflow.name run_id completed (final run_id body true) u in
    let x = close_with runner workflow.name run_id completed none (final run_id body true) u in
    let calm =
      rescue-calm runner workflow run_id x.0 x.1
        (close-calm runner workflow.name run_id completed (final run_id body true) u) in
    rw (opened.well, hit.0, ◌>>=◌, calm)
      (over.0 ∙ rw (hit.1, opened.sent) refl, over.1 ∙ hit.2 ∙ opened.clients)

-- A new run whose key the cache has an entry for, not lapsed at any reading of the clock, sends
-- exactly one event: the final event with the cached body, marked as cached; and the chat models
-- are those that were there.
pub stream-hit :
    (runner : Runner) (workflow : Workflow) (policy : Policy) (run_id key : String)
    (payload : Dict Value) (principal : Option Principal) (entries : Entries) (expires : Option ℕ)
    (body : Dict Value) (w : World)
    → state_of run_id w ≡ none
    → w.cache ≡ some entries
    → key_of runner w workflow payload policy ≡ some key
    → get entries key ≡ some (expires, body)
    → ((n : ℕ) → lapsed expires (runner.clock n) ≡ false)
    → let v = stream runner workflow policy run_id (start payload principal) w in
      (v.sent ≡ w.sent ++ final run_id body true ∷ []) × (v.clients ≡ w.clients)
unfolding stream meter request_key state_of
stream-hit runner workflow policy run_id key payload principal entries expires body w new c k g
      live =
    rw k (
      attempt-hit runner workflow policy run_id key payload principal entries expires body
        (record w { usage = no_usage }) new c g live)
