-- ===== src/Store/Memory/Tests.antt =====
-- Runs of the store on small inputs, and the theorems about it at concrete stores.
use navigator_orchestrator_a.Prelude.{
  ℕ, String, ◌≡◌, ◌≢◌, refl, true, false, Option, none, some, List, [], ◌∷◌, arith, get, put,
  sort_by, key_lt, eq_iff,
}
use navigator_orchestrator_a.Store.Models.{
  RunRecord, RunState, queued, running, awaiting_decision, completed, approve, Principal,
  is_terminal, ok,
}
use navigator_orchestrator_a.Store.Memory.{
  RunStore, empty_store, write_each, create_run, get_run, mark_state, claim_run, reclaim,
  renew_lease, append_decision, list_runs, expire_runs, chain, new_decision, stranded, requeued,
  claimable, older, newer, leased, abandoned, expired,
}
use navigator_orchestrator_a.Store.Memory.Steps.{
  Op, create, mark, claim, renew, recover, apply, run_all,
}
use navigator_orchestrator_a.Store.Memory.Invariant.{TableOk, empty_store-TableOk, run_all-TableOk}
use navigator_orchestrator_a.Store.Memory.Chains.{
  ChainsOk, Extends, run_all-Extends, run_all-ChainsOk, append_decision_again,
}
use navigator_orchestrator_a.Store.Memory.Queue.{Grant, claim_run-Grant}
use navigator_orchestrator_a.Store.Memory.Protection.{run_all_terminal, run_all-Held}
use navigator_orchestrator_a.Store.Memory.Exclusion.{claim_run_exclusive}
use navigator_orchestrator_a.Store.Memory.Listing.{Listing, list_runs-Listing}

abbrev alice : Principal
alice = record { subject = "alice"; scopes = []; issuer = "header" }

-- Two runs on the queue, the second created first.
abbrev two_queued : List Op
two_queued =
    create "a" "kyc" [] none 7 7
    ∷ create "b" "kyc" [] none 5 5
    ∷ mark "a" queued none 8
    ∷ mark "b" queued none 9
    ∷ []

all_ops : Unit {0}
unfolding run_all apply create_run mark_state claim_run reclaim write_each get put stranded requeued
    claimable older leased sort_by key_lt append_decision renew_lease expire_runs abandoned expired
    is_terminal list_runs newer get_run
all_ops = tt

-- The oldest is claimed first, then the other, then none.
claim_order :
    ((claim_run "w" [] 100 10 10 (run_all two_queued empty_store)).0
      ≡ some (record {
        id = "b";
        workflow = "kyc";
        state = running;
        policy = [];
        gate_payload = none;
        created_by = none;
        leased_by = some "w";
        lease_expires_at = some 110;
        created_at = 5;
        updated_at = 10;
      }))
    × ((claim_run "w" [] 100 10 10 (
          run_all
            (claim "w" [] 100 10 10 ∷ claim "v" [] 100 10 10 ∷ [])
            (run_all two_queued empty_store))).0
        ≡ none)
unfolding all_ops
claim_order = (refl, refl)

-- A lapsed lease is taken back, and the run claimed again.
claim_after_lapse :
    get
      (run_all (claim "w" [] 100 10 10 ∷ recover 110 ∷ []) (run_all two_queued empty_store)).runs
      "b"
    ≡ some (record {
      id = "b";
      workflow = "kyc";
      state = queued;
      policy = [];
      gate_payload = none;
      created_by = none;
      leased_by = none;
      lease_expires_at = none;
      created_at = 5;
      updated_at = 110;
    })
unfolding all_ops
claim_after_lapse = refl

abbrev queue : RunStore
queue = run_all two_queued empty_store

queue-TableOk : TableOk queue
queue-TableOk = run_all-TableOk two_queued empty_store empty_store-TableOk

run_all-TableOk_example : TableOk (run_all two_queued empty_store)
run_all-TableOk_example = run_all-TableOk two_queued empty_store empty_store-TableOk

abbrev stored_b : RunState → Option String → Option ℕ → ℕ → RunRecord
stored_b state by until updated = record {
  id = "b";
  workflow = "kyc";
  state = state;
  policy = [];
  gate_payload = none;
  created_by = none;
  leased_by = by;
  lease_expires_at = until;
  created_at = 5;
  updated_at = updated;
}

abbrev claimed_b : RunRecord
claimed_b = stored_b running (some "w") (some 110) 10

claim_run-Grant_example : Grant "w" [] 100 10 10 queue claimed_b
unfolding all_ops
claim_run-Grant_example = claim_run-Grant "w" [] 100 10 10 queue queue-TableOk.keyed claimed_b refl

abbrev claimed_a : RunRecord
claimed_a = record {
  id = "a";
  workflow = "kyc";
  state = running;
  policy = [];
  gate_payload = none;
  created_by = none;
  leased_by = some "v";
  lease_expires_at = some 150;
  created_at = 7;
  updated_at = 50;
}

claim_run_exclusive_example : claimed_a.id ≢ claimed_b.id
unfolding all_ops
claim_run_exclusive_example =
    claim_run_exclusive "w" "v" [] [] 100 100 10 50 10 50 queue (recover 40 ∷ []) claimed_b
      claimed_a queue-TableOk refl (omega arith) (omega arith) refl

abbrev finished : List Op
finished = mark "b" completed none 20 ∷ []

run_all_terminal_example :
    get
      (run_all (claim "w" [] 100 30 30 ∷ renew "b" "w" 5 31 ∷ []) (run_all finished queue)).runs
      "b"
    ≡ some (stored_b completed none none 20)
unfolding all_ops
run_all_terminal_example =
    run_all_terminal (claim "w" [] 100 30 30 ∷ renew "b" "w" 5 31 ∷ []) (run_all finished queue) "b"
      (stored_b completed none none 20) (run_all-TableOk finished queue queue-TableOk) refl refl
      (tt, (tt, tt))

abbrev waiting_b : RunStore
waiting_b = run_all (mark "b" awaiting_decision none 20 ∷ []) queue

run_all-Extends_example :
    Extends queue (run_all (mark "b" awaiting_decision none 20 ∷ []) queue) "b"
run_all-Extends_example = run_all-Extends (mark "b" awaiting_decision none 20 ∷ []) queue "b"

run_all-ChainsOk_example : ChainsOk (run_all two_queued empty_store)
unfolding get
run_all-ChainsOk_example = run_all-ChainsOk two_queued empty_store (λ k. tt)

append_decision_again_example :
    let first = append_decision "b" approve alice none "u1" 21 waiting_b in
    let s' = (mark_state "b" completed none 22 first.1).1 in
    append_decision "b" approve alice none "u2" 23 s'
    ≡ (ok (new_decision "b" (chain waiting_b "b") approve alice none "u1" 21, false), s')
unfolding all_ops
append_decision_again_example =
    append_decision_again "b" approve alice none "u1" "u2" 21 23 22 completed none waiting_b
      (stored_b awaiting_decision none none 20) refl refl refl

list_runs-Listing_example : Listing none none 1 queue (list_runs none none 1 queue)
list_runs-Listing_example = list_runs-Listing none none 1 queue

-- Another worker claims, marks the other run and recovers lapsed leases, before the lease of `b` ends.
run_all-Held_example :
    get
      (run_all
        (claim "v" [] 100 50 50 ∷ recover 60 ∷ mark "a" completed none 70 ∷ [])
        (claim_run "w" [] 100 10 10 queue).1).runs
      "b"
    ≡ some claimed_b
unfolding all_ops
run_all-Held_example =
    run_all-Held (claim "v" [] 100 50 50 ∷ recover 60 ∷ mark "a" completed none 70 ∷ [])
      (claim_run "w" [] 100 10 10 queue).1 "w" 110 "b" claimed_b
      (run_all-TableOk (claim "w" [] 100 10 10 ∷ []) queue queue-TableOk) refl
      (record { running_now = refl; holder = refl; ends = refl })
      (
        omega arith,
        (
          omega arith,
          ((λ e. let bad : false ≡ true = (eq_iff "a" "b").1 e in absurd (ground arith)), tt),
        ),
      )
