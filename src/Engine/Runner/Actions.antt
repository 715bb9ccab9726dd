-- ===== src/Engine/Runner/Actions.antt =====
-- The world of a run, and what `_stream` of engine/runner.py does to it: reading the clock,
-- marking the run, logging and emitting an event, and the cache.
use navigator_orchestrator_a.Prelude.{
  ℕ, zero, suc, ◌+◌, String, Bool, true, false, Option, none, some, List, [], ◌∷◌, ◌++◌, Dict, get,
  put, join, repr, Value, bool, str,
}
use navigator_orchestrator_a.Store.Models.{
  RunState, show_state, Principal, StoreError, run_conflict, run_not_found, ok as stored,
  err as refused,
}
use navigator_orchestrator_a.Store.Memory.{RunStore, create_run, mark_state}
use navigator_orchestrator_a.Store.RunLog.{RunLog, Line, append}
use navigator_orchestrator_a.Engine.Events.{
  Event, token, node, error, final, interrupt, show_status,
}
use navigator_orchestrator_a.Engine.State.{Exn, raised, Result, ok, err}
use navigator_orchestrator_a.Engine.Policy.{Policy}
use navigator_orchestrator_a.Engine.Cache.{Entries, get_entry, set_entry}
use navigator_orchestrator_a.Engine.Meter.{Usage, CostEntry}
use navigator_orchestrator_a.Engine.Workflows.{Client, Workflow, Registry}

-- The composition root's choices. `fingerprint` and `normalized` are JSON texts and `sha256` a
-- digest, all the library's; `clock n` is the n-th reading of a clock.
pub record Runner : Type 0 where
  pub registry : Registry
  pub default_policy : Policy
  pub client_factory : Policy → Result Client
  pub fingerprint : Policy → String
  pub normalized : Dict Value → String
  pub sha256 : String → String
  pub clock : ℕ → ℕ

-- What a run changes. `patience` is after how many more events the client closes the stream (at 0,
-- with the next one), and none for a client that reads to the end; `usage` is a local of
-- `_stream`. A store, log or cache that is None is not there.
pub record World : Type 0 where
  pub clients : Dict Client
  pub runs : Option RunStore
  pub log : Option RunLog
  pub cache : Option Entries
  pub entries : List CostEntry
  pub sent : List Event
  pub patience : Option ℕ
  pub usage : Usage
  pub reads : ℕ

pub data Outcome (A : Type 0) : Type 0 where
  done : A → Outcome A
  threw : Exn → Outcome A
  -- GeneratorExit at a `yield`
  closed : Outcome A

abbrev pub Act : Type 0 → Type 0
Act A = World → Outcome A × World

abbrev pub is_closed : {A : Type 0} → Outcome A → Bool
is_closed (done a) = false
is_closed (threw e) = false
is_closed closed = true

-- What comes after an action with this outcome.
abbrev pub continue : {A B : Type 0} → (A → Act B) → Outcome A → World → Outcome B × World
continue f (done a) w = f a w
continue f (threw e) w = (threw e, w)
continue f closed w = (closed, w)

infixl 5 ◌>>=◌ ◌>>◌
abbrev pub ◌>>=◌ : {A B : Type 0} → Act A → (A → Act B) → Act B
◌>>=◌ m f w = let (r, w') = m w in continue f r w'

abbrev pub ◌>>◌ : {A B : Type 0} → Act A → Act B → Act B
m >> k = m >>= λ _. k

abbrev pub pure : {A : Type 0} → A → Act A
pure a w = (done a, w)

abbrev pub lift : {A : Type 0} → Result A → Act A
lift (ok a) w = (done a, w)
lift (err e) w = (threw e, w)

-- `yield event`
unfoldable pub emit : Event → Act (Unit {0})
emit e w =
    let w' = record w { sent = w.sent ++ e ∷ [] } in
    elim w.patience [
      | none ↦ (done tt, w')
      | some zero ↦ (closed, w')
      | some (suc n) ↦ (done tt, record w' { patience = some n })
    ]

-- _mark
unfoldable pub mark : Runner → String → RunState → Option (Dict Value) → Act (Unit {0})
mark runner run_id state gate w = elim w.runs [
  | none ↦ (done tt, w)
  | some s ↦ (
    done tt,
    record w {
      runs = some (mark_state run_id state gate (runner.clock w.reads) s).1;
      reads = w.reads + 1;
    },
  )
]

-- The line that `_log` writes for an event, if it writes one.
unfoldable pub line_of : String → ℕ → Event → Option Line
line_of workflow at (token run_id text) = none
line_of workflow at (node run_id name status) = some (record {
  run_id = run_id;
  workflow = workflow;
  status = show_status status;
  step = some name;
  detail = [];
  at = at;
})
line_of workflow at (interrupt run_id payload) = some (record {
  run_id = run_id;
  workflow = workflow;
  status = "awaiting_decision";
  step = none;
  detail = [];
  at = at;
})
line_of workflow at (error run_id kind detail) = some (record {
  run_id = run_id;
  workflow = workflow;
  status = "failed";
  step = none;
  detail = ("error", str kind) ∷ [];
  at = at;
})
line_of workflow at (final run_id output cached) = some (record {
  run_id = run_id;
  workflow = workflow;
  status = "completed";
  step = none;
  detail = ("cached", bool cached) ∷ [];
  at = at;
})

-- _log
unfoldable pub write_log : Runner → String → Event → Act (Unit {0})
unfolding line_of
write_log runner workflow e w = elim w.log [
  | none ↦ (done tt, w)
  | some log ↦ elim (line_of workflow (runner.clock w.reads) e) [
    | none ↦ (done tt, w)
    | some line ↦ (done tt, record w { log = some (append line log).1; reads = w.reads + 1 })
  ]
]

-- await self._log(workflow.name, event); yield event
unfoldable pub report : Runner → String → Event → Act (Unit {0})
unfolding write_log emit
report runner workflow e = write_log runner workflow e >> emit e

-- _lookup: an entry that has lapsed is deleted.
unfoldable pub lookup : Runner → Option String → Act (Option (Dict Value))
lookup runner none w = (done none, w)
lookup runner (some key) w = elim w.cache [
  | none ↦ (done none, w)
  | some entries ↦
      let (found, entries') = get_entry key (runner.clock w.reads) entries in
      (done found, record w { cache = some entries'; reads = w.reads + 1 })
]

-- _store
unfoldable pub store_body : Runner → Option String → Dict Value → Option ℕ → Act (Unit {0})
store_body runner none body ttl_s w = (done tt, w)
store_body runner (some key) body ttl_s w = elim w.cache [
  | none ↦ (done tt, w)
  | some entries ↦ (
    done tt,
    record w {
      cache = some (set_entry key body ttl_s (runner.clock w.reads) entries);
      reads = w.reads + 1;
    },
  )
]

-- The exception of a store's error, by its text.
unfoldable pub store_exn : StoreError → Exn
store_exn (run_conflict run_id state) = raised "RunConflictError" (
    join "run "
      (join (repr run_id) (join " is " (join (repr (show_state state)) ": already exists"))))
store_exn (run_not_found run_id) =
    raised "RunNotFoundError" (repr (join "unknown run " (repr run_id)))

-- The policy of a run record.
unfoldable pub policy_entry : Runner → Policy → Dict Value
policy_entry runner policy =
    ("model", str policy.model) ∷ ("fingerprint", str (runner.fingerprint policy)) ∷ []

-- _open_run
unfoldable pub open_run : Runner → String → Workflow → Policy → Option Principal → Act (Unit {0})
unfolding store_exn policy_entry
open_run runner run_id workflow policy principal w = elim w.runs [
  | none ↦ (done tt, w)
  | some s ↦
      let (r, s') =
        create_run run_id workflow.name (policy_entry runner policy) principal
          (runner.clock w.reads) (runner.clock (w.reads + 1)) s in
      let w' = record w { runs = some s'; reads = w.reads + 2 } in
      elim r [ stored run ↦ (done tt, w') | refused e ↦ (threw (store_exn e), w') ]
]

-- client_for
unfoldable pub client_for : Runner → Policy → Act Client
client_for runner policy w =
    let key = runner.fingerprint policy in
    elim (get w.clients key) [
      | some client ↦ (done client, w)
      | none ↦ elim (runner.client_factory policy) [
        | err e ↦ (threw e, w)
        | ok client ↦ (done client, record w { clients = put w.clients key client })
      ]
    ]
