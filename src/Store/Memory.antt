-- ===== src/Store/Memory.antt =====
-- InMemoryRunStore of store/memory.py. Every method that takes the lock is one atomic step, so a
-- method is a function from the store to its result and the new store; a raise leaves the store as
-- it was. What the method reads from outside (each reading of the clock, the new uuid) is an
-- argument. Times and durations are in ticks, and `day` is the number of ticks in a day.
mod Keyed
mod Tables
mod Claims
pub mod Steps
pub mod Invariant
pub mod Chains
pub mod Queue
pub mod Protection
pub mod Exclusion
pub mod Listing
mod Tests
use navigator_orchestrator_a.Prelude.{
  ℕ, ◌+◌, ◌*◌, String, Bool, true, false, ◌&&◌, not, Option, none, some, List, [], ◌∷◌, ◌++◌, ltb,
  leb, if◌then◌else◌, length, take, select, str_eq, one_of, Dict, get, put, values, sort_by, key_lt,
  Value,
}
use navigator_orchestrator_a.Store.Models.{
  RunState, queued, running, awaiting_decision, cancelled, same_state, Verdict, Principal,
  RunRecord, DecisionRecord, matches, run_conflict, run_not_found, Result, ok, err, same_text,
}

pub record RunStore : Type 0 where
  pub runs : Dict RunRecord
  pub decisions : Dict (List DecisionRecord)

abbrev pub empty_store : RunStore
empty_store = record { runs = []; decisions = [] }

-- self._runs[run_id] = run
abbrev pub write_run : RunStore → String → RunRecord → RunStore
write_run s run_id run = record s { runs = put s.runs run_id run }

pub new_run : String → String → Dict Value → Option Principal → ℕ → ℕ → RunRecord
new_run run_id workflow policy created_by created_at updated_at = record {
  id = run_id;
  workflow = workflow;
  state = running;
  policy = policy;
  gate_payload = none;
  created_by = created_by;
  leased_by = none;
  lease_expires_at = none;
  created_at = created_at;
  updated_at = updated_at;
}

unfoldable pub create_run :
    String → String → Dict Value → Option Principal → ℕ → ℕ → RunStore → Result RunRecord × RunStore
unfolding new_run
create_run run_id workflow policy created_by created_at updated_at s = elim (get s.runs run_id) [
  | some run ↦ (err (run_conflict run_id run.state), s)
  | none ↦
      let run = new_run run_id workflow policy created_by created_at updated_at in
      (ok run, write_run s run_id run)
]

unfoldable pub get_run : String → RunStore → Result RunRecord
get_run run_id s = elim (get s.runs run_id) [
  | none ↦ err (run_not_found run_id)
  | some run ↦ ok run
]

-- `wanted is None or value == wanted`
unfoldable pub selected : Option String → Option RunState → RunRecord → Bool
unfolding same_state
selected workflow state run =
    (elim workflow [ none ↦ true | some w ↦ str_eq run.workflow w ])
    && (elim state [ none ↦ true | some st ↦ same_state run.state st ])

-- The sort by (updated_at, id) in reverse: the later run stands before.
unfoldable pub newer : RunRecord → RunRecord → Bool
newer a b = key_lt b.updated_at b.id a.updated_at a.id

unfoldable pub list_runs : Option String → Option RunState → ℕ → RunStore → List RunRecord
list_runs workflow state limit s =
    take limit (sort_by newer (select (selected workflow state) (values s.runs)))

-- Only `running` keeps the lease.
unfoldable pub moved : RunState → Option (Dict Value) → ℕ → RunRecord → RunRecord
unfolding same_state
moved state gate_payload now run =
    let holds_lease = same_state state running in
    record run {
      state = state;
      gate_payload = elim gate_payload [ some p ↦ some p | none ↦ run.gate_payload ];
      leased_by = if holds_lease then run.leased_by else none;
      lease_expires_at = if holds_lease then run.lease_expires_at else none;
      updated_at = now;
    }

unfoldable pub mark_state :
    String → RunState → Option (Dict Value) → ℕ → RunStore → Result RunRecord × RunStore
unfolding moved get_run
mark_state run_id state gate_payload now s = elim (get_run run_id s) [
  | err e ↦ (err e, s)
  | ok run ↦
      let updated = moved state gate_payload now run in (ok updated, write_run s run_id updated)
]

-- The lease of a running run has lapsed.
unfoldable pub stranded : ℕ → RunRecord → Bool
unfolding same_state
stranded now run =
    same_state run.state running
    && (elim run.lease_expires_at [ none ↦ false | some t ↦ leb t now ])

unfoldable pub requeued : ℕ → RunRecord → RunRecord
requeued now run = record run {
  state = queued;
  leased_by = none;
  lease_expires_at = none;
  updated_at = now;
}

-- for run in found: self._runs[run.id] = change(run)
unfoldable pub write_each : (RunRecord → RunRecord) → List RunRecord → RunStore → RunStore
write_each change [] s = s
write_each change (run ∷ rest) s = write_each change rest (write_run s run.id (change run))

-- `_reclaim_locked` and `reclaim_expired_leases`
unfoldable pub reclaim : ℕ → RunStore → ℕ × RunStore
reclaim now s =
    let found = select (stranded now) (values s.runs) in
    (length found, write_each (requeued now) found s)

-- A queued run of a workflow that the worker can execute; no names means any.
unfoldable pub claimable : List String → RunRecord → Bool
unfolding same_state
claimable [] run = same_state run.state queued
claimable (w ∷ ws) run = same_state run.state queued && one_of run.workflow (w ∷ ws)

-- The sort by (created_at, id).
unfoldable pub older : RunRecord → RunRecord → Bool
older a b = key_lt a.created_at a.id b.created_at b.id

unfoldable pub leased : String → ℕ → ℕ → RunRecord → RunRecord
leased worker lease_ticks now run = record run {
  state = running;
  leased_by = some worker;
  lease_expires_at = some (now + lease_ticks);
  updated_at = now;
}

-- queued[0], if there is one, leased to the worker
lease_first : String → ℕ → ℕ → List RunRecord → RunStore → Option RunRecord × RunStore
unfolding leased
lease_first worker lease_ticks now [] s = (none, s)
lease_first worker lease_ticks now (run ∷ rest) s =
    let claimed = leased worker lease_ticks now run in
    (some claimed, write_run s claimed.id claimed)

-- The clock is read twice: for the reclaim, and for the lease.
unfoldable pub claim_run : String → List String → ℕ → ℕ → ℕ → RunStore → Option RunRecord × RunStore
unfolding reclaim lease_first
claim_run worker workflows lease_ticks reclaimed_at now s =
    let s' = (reclaim reclaimed_at s).1 in
    lease_first worker lease_ticks now
      (sort_by older (select (claimable workflows) (values s'.runs))) s'

unfoldable pub renew_lease : String → String → ℕ → ℕ → RunStore → Result RunRecord × RunStore
unfolding get_run same_text
renew_lease run_id worker lease_ticks now s = elim (get_run run_id s) [
  | err e ↦ (err e, s)
  | ok run ↦
      if same_text run.leased_by (some worker)
      then (let renewed = record run {
        lease_expires_at = some (now + lease_ticks);
        updated_at = now;
      } in
          (ok renewed, write_run s run_id renewed))
      else (err (run_conflict run_id run.state), s)
]

-- self._decisions.get(run_id, [])
abbrev pub chain : RunStore → String → List DecisionRecord
chain s run_id = elim (get s.decisions run_id) [ none ↦ [] | some ds ↦ ds ]

-- existing[-1] if it is this very decision
unfoldable pub retried :
    List DecisionRecord → Verdict → Option String → Principal → Option DecisionRecord
unfolding matches
retried [] verdict comment principal = none
retried (d ∷ []) verdict comment principal =
    if matches d verdict comment principal then some d else none
retried (d ∷ e ∷ ds) verdict comment principal = retried (e ∷ ds) verdict comment principal

-- The record at the end of the chain `existing`.
unfoldable pub new_decision :
    String → List DecisionRecord → Verdict → Principal → Option String → String → ℕ → DecisionRecord
new_decision run_id existing verdict principal comment uuid now = record {
  id = uuid;
  run_id = run_id;
  seq = length existing + 1;
  verdict = verdict;
  comment = comment;
  principal = principal;
  decided_at = now;
}

unfoldable pub append_decision :
    String
    → Verdict
    → Principal
    → Option String
    → String
    → ℕ
    → RunStore
    → Result (DecisionRecord × Bool) × RunStore
unfolding get_run same_state retried
append_decision run_id verdict principal comment uuid now s = elim (get_run run_id s) [
  | err e ↦ (err e, s)
  | ok run ↦
      if not (same_state run.state awaiting_decision)
      then elim (retried (chain s run_id) verdict comment principal) [
        | some d ↦ (ok (d, false), s)
        | none ↦ (err (run_conflict run_id run.state), s)
      ]
      else (let d = new_decision run_id (chain s run_id) verdict principal comment uuid now in
          (
            ok (d, true),
            record s { decisions = put s.decisions run_id (chain s run_id ++ d ∷ []) },
          ))
]

unfoldable pub decisions_for : String → RunStore → Result (List DecisionRecord)
unfolding get_run
decisions_for run_id s = elim (get_run run_id s) [ err e ↦ err e | ok run ↦ ok (chain s run_id) ]

-- Awaiting a decision, and not updated since `days` days before `now`.
unfoldable pub abandoned : ℕ → ℕ → ℕ → RunRecord → Bool
unfolding same_state
abandoned day days now run =
    same_state run.state awaiting_decision && ltb (run.updated_at + days * day) now

unfoldable pub expired : (String → ℕ) → RunRecord → RunRecord
expired clock run = record run { state = cancelled; updated_at = clock run.id }

-- `clock id` is the reading of the clock when the run `id` is written.
unfoldable pub expire_runs : ℕ → ℕ → ℕ → (String → ℕ) → RunStore → ℕ × RunStore
expire_runs day days now clock s =
    let stale = select (abandoned day days now) (values s.runs) in
    (length stale, write_each (expired clock) stale s)

unfoldable pub clear : RunStore → RunStore
clear s = empty_store
