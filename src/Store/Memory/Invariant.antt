-- ===== src/Store/Memory/Invariant.antt =====
-- The invariant of the run store under every sequence of its methods: who may hold a lease, how
-- the decisions of a run are numbered, and that each run stands under its own id.
use navigator_orchestrator_a.Prelude.{
  ℕ, String, ◌≡◌, refl, sym, subst, true, Option, some, List, [], ◌∷◌, arith, inl, inr, is_some,
  get, Bool-cases, Option-cases, Dict, Value,
}
use navigator_orchestrator_a.Store.Models.{
  RunRecord, RunState, running, Verdict, Principal, same_text,
}
use navigator_orchestrator_a.Store.Memory.{
  RunStore, empty_store, write_run, reclaim, stranded, requeued, leased, create_run, mark_state,
  claim_run, renew_lease, append_decision, expire_runs, expired, abandoned, moved,
}
use navigator_orchestrator_a.Store.Memory.Keyed.{IsKeyed, put-IsKeyed, id-get, write_each-IsKeyed}
use navigator_orchestrator_a.Store.Memory.Tables.{Holds, Holds-write_run, Holds-pass}
use navigator_orchestrator_a.Store.Memory.Claims.{
  Claimed, idle, taken, claim_run-Claimed, reclaim-IsKeyed,
}
use navigator_orchestrator_a.Store.Memory.Steps.{
  Op, create, mark, claim, renew, recover, decide, expire, apply, run_all,
}

-- A lease has a holder and an end, and only a running run has one.
pub record LeaseOk (k : String) (run : RunRecord) : Type 0 where
  pub paired : is_some run.leased_by ≡ is_some run.lease_expires_at
  pub only_running : is_some run.leased_by ≡ true → run.state ≡ running

-- Every field of the invariant that is about the run table.
pub record TableOk (s : RunStore) : Type 0 where
  pub keyed : IsKeyed s.runs
  pub leases : Holds LeaseOk s

write_run-TableOk :
    (s : RunStore) (k : String) (run : RunRecord)
    → run.id ≡ k
    → LeaseOk k run
    → TableOk s
    → TableOk (write_run s k run)
write_run-TableOk s k run e l h = record {
  keyed = put-IsKeyed s.runs k run e h.keyed;
  leases = Holds-write_run s k run l h.leases;
}

reclaim-TableOk : (now : ℕ) (s : RunStore) → TableOk s → TableOk (reclaim now s).1
unfolding reclaim requeued
reclaim-TableOk now s h = record {
  keyed = reclaim-IsKeyed now s h.keyed;
  leases =
      Holds-pass (stranded now) (requeued now) s
        (λ k run t l. record { paired = refl; only_running = λ e. cc }) h.keyed h.leases;
}

expired-LeaseOk :
    (day days now : ℕ) (clock : String → ℕ) (k : String) (run : RunRecord)
    → abandoned day days now run ≡ true
    → LeaseOk k run
    → LeaseOk k (expired clock run)
unfolding abandoned expired
expired-LeaseOk day days now clock k run t l = record {
  paired = l.paired;
  only_running = λ e. ground (arith, l.only_running e);
}

expire_runs-TableOk :
    (day days now : ℕ) (clock : String → ℕ) (s : RunStore)
    → TableOk s
    → TableOk (expire_runs day days now clock s).1
unfolding expire_runs
expire_runs-TableOk day days now clock s h = record {
  keyed = write_each-IsKeyed (expired clock) _ s (λ run. unfold expired in refl) h.keyed;
  leases =
      Holds-pass (abandoned day days now) (expired clock) s (expired-LeaseOk day days now clock)
        h.keyed h.leases;
}

module _ (s : RunStore) (h : TableOk s) where
  create_run-TableOk :
      (run_id workflow : String) (policy : Dict Value) (by : Option Principal) (created updated : ℕ)
      → TableOk (create_run run_id workflow policy by created updated s).1
  unfolding create_run
  create_run-TableOk run_id workflow policy by created updated =
      elim (Option-cases (get s.runs run_id)) [
        | inl e ↦
            rw (e, create_run)
              (write_run-TableOk s run_id _ refl (record { paired = refl; only_running = λ x. cc })
                h)
        | inr (r, e) ↦ rw (e, create_run) h
      ]

  moved-LeaseOk :
      (k : String) (state : RunState) (payload : Option (Dict Value)) (now : ℕ) (run : RunRecord)
      → LeaseOk k run
      → LeaseOk k (moved state payload now run)
  unfolding moved
  moved-LeaseOk k state payload now run l = record {
    paired = ground (arith, l.paired);
    only_running = λ e. ground arith;
  }

  mark_state-TableOk :
      (run_id : String) (state : RunState) (payload : Option (Dict Value)) (now : ℕ)
      → TableOk (mark_state run_id state payload now s).1
  unfolding mark_state
  mark_state-TableOk run_id state payload now = elim (Option-cases (get s.runs run_id)) [
    | inl e ↦ rw (e, mark_state) h
    | inr (r, e) ↦
        rw (e, mark_state)
          (write_run-TableOk s run_id (moved state payload now r) (id-get s.runs run_id r h.keyed e)
            (moved-LeaseOk run_id state payload now r (h.leases.at run_id r e)) h)
  ]

  renew_lease-TableOk :
      (run_id worker : String) (ticks now : ℕ) → TableOk (renew_lease run_id worker ticks now s).1
  unfolding renew_lease
  renew_lease-TableOk run_id worker ticks now = elim (Option-cases (get s.runs run_id)) [
    | inl e ↦ rw (e, renew_lease) h
    | inr (r, e) ↦
        rw (e, renew_lease)
          (elim (Bool-cases (same_text r.leased_by (some worker))) [
            | inl held ↦ rw held (
                write_run-TableOk s run_id _ (id-get s.runs run_id r h.keyed e)
                  (let l = h.leases.at run_id r e in
                    record { paired = ground arith; only_running = λ x. l.only_running x })
                  h)
            | inr not_held ↦ rw not_held h
          ])
  ]

  claim_run-TableOk :
      (worker : String) (workflows : List String) (ticks reclaimed now : ℕ)
      → TableOk (claim_run worker workflows ticks reclaimed now s).1
  claim_run-TableOk worker workflows ticks reclaimed now =
      go (claim_run-Claimed worker workflows ticks reclaimed now s h.keyed)
    where
      s' : RunStore
      s' = (reclaim reclaimed s).1

      h' : TableOk s'
      h' = reclaim-TableOk reclaimed s h

      go :
          {result : Option RunRecord × RunStore}
          → Claimed worker workflows ticks now s' result
          → TableOk result.1
      go (idle no_fit e) = subst (λ (r : Option RunRecord × RunStore). TableOk r.1) (sym e) h'
      go (taken run t e) =
          subst (λ (r : Option RunRecord × RunStore). TableOk r.1) (sym e)
            (write_run-TableOk s' run.id (leased worker ticks now run) (unfold leased in refl)
              (unfold leased in record { paired = refl; only_running = λ x. refl }) h')

pub append_decision-runs :
    (run_id : String) (v : Verdict) (p : Principal) (c : Option String) (uuid : String) (now : ℕ)
    (s : RunStore)
    → (append_decision run_id v p c uuid now s).1.runs ≡ s.runs
unfolding append_decision
append_decision-runs run_id v p c uuid now s = ground arith

pub apply-TableOk : (op : Op) (s : RunStore) → TableOk s → TableOk (apply op s)
unfolding apply
apply-TableOk (create i w p b c u) s h = create_run-TableOk s h i w p b c u
apply-TableOk (mark i st p n) s h = mark_state-TableOk s h i st p n
apply-TableOk (claim w ws t r n) s h = claim_run-TableOk s h w ws t r n
apply-TableOk (renew i w t n) s h = renew_lease-TableOk s h i w t n
apply-TableOk (recover n) s h = reclaim-TableOk n s h
apply-TableOk (decide i v p c u n) s h =
    let same = append_decision-runs i v p c u n s in
    record {
      keyed = subst IsKeyed (sym same) h.keyed;
      leases = record { at = λ k r e. h.leases.at k r (rw same at e) };
    }
apply-TableOk (expire d ds n c) s h = expire_runs-TableOk d ds n c s h

-- From a store where every run stands under its own id once, a lease has both a holder and an end
-- or neither, and only a running run has one, all of this holds again after any sequence of
-- operations.
pub run_all-TableOk : (ops : List Op) (s : RunStore) → TableOk s → TableOk (run_all ops s)
unfolding run_all
run_all-TableOk [] s h = h
run_all-TableOk (op ∷ ops) s h = run_all-TableOk ops (apply op s) (apply-TableOk op s h)

pub empty_store-TableOk : TableOk empty_store
unfolding get
empty_store-TableOk = record { keyed = tt; leases = record { at = λ k r e. absurd (cc) } }
