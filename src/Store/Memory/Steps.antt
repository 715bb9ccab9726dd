-- ===== src/Store/Memory/Steps.antt =====
-- The methods of the RunStore protocol (store/base.py) as the steps of one store, in the order in
-- which the lock lets them in. The steps carry all that the callers and the outside choose.
use navigator_orchestrator_a.Prelude.{ℕ, String, Option, List, [], ◌∷◌, Dict, Value}
use navigator_orchestrator_a.Store.Models.{RunState, Verdict, Principal}
use navigator_orchestrator_a.Store.Memory.{
  RunStore, create_run, mark_state, reclaim, claim_run, renew_lease, append_decision, expire_runs,
}

pub data Op : Type 0 where
  create : String → String → Dict Value → Option Principal → ℕ → ℕ → Op
  mark : String → RunState → Option (Dict Value) → ℕ → Op
  claim : String → List String → ℕ → ℕ → ℕ → Op
  renew : String → String → ℕ → ℕ → Op
  recover : ℕ → Op
  decide : String → Verdict → Principal → Option String → String → ℕ → Op
  expire : ℕ → ℕ → ℕ → (String → ℕ) → Op

-- The store after one step, whether the method returned or raised.
unfoldable pub apply : Op → RunStore → RunStore
apply (create run_id workflow policy by created updated) s =
    (create_run run_id workflow policy by created updated s).1
apply (mark run_id state payload now) s = (mark_state run_id state payload now s).1
apply (claim worker workflows ticks reclaimed now) s =
    (claim_run worker workflows ticks reclaimed now s).1
apply (renew run_id worker ticks now) s = (renew_lease run_id worker ticks now s).1
apply (recover now) s = (reclaim now s).1
apply (decide run_id verdict principal comment uuid now) s =
    (append_decision run_id verdict principal comment uuid now s).1
apply (expire day days now clock) s = (expire_runs day days now clock s).1

unfoldable pub run_all : List Op → RunStore → RunStore
run_all [] s = s
run_all (op ∷ ops) s = run_all ops (apply op s)
