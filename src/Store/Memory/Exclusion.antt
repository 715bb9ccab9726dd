-- ===== src/Store/Memory/Exclusion.antt =====
-- Two workers never hold one run, only the holder renews, and the reclaim finds every lapsed
-- lease in one pass.
use navigator_orchestrator_a.Prelude.{
  ℕ, ◌+◌, ◌<◌, String, ◌≡◌, ◌≢◌, refl, ap, sym, ◌∙◌, subst, Bool, true, false, none, some, List, [],
  ◌∷◌, arith, inl, inr, ◌⊎◌, All, All-map, select, length, get, values, get-put_self, Option-cases,
}
use navigator_orchestrator_a.Store.Models.{RunRecord, same_text, ok, err, run_conflict}
use navigator_orchestrator_a.Store.Memory.{
  RunStore, write_run, reclaim, stranded, requeued, leased, claim_run, renew_lease,
}
use navigator_orchestrator_a.Store.Memory.Keyed.{IsKeyed, values-get}
use navigator_orchestrator_a.Store.Memory.Claims.{get-reclaim, reclaim-IsKeyed}
use navigator_orchestrator_a.Store.Memory.Invariant.{TableOk, apply-TableOk}
use navigator_orchestrator_a.Store.Memory.Steps.{Op, claim, apply, run_all}
use navigator_orchestrator_a.Store.Memory.Invariant.{run_all-TableOk}
use navigator_orchestrator_a.Store.Memory.Queue.{Grant, claim_run-Grant}
use navigator_orchestrator_a.Store.Memory.Protection.{Held, ByOthers, run_all-Held}

-- What is stored of a run right after it was given out.
Grant-stored :
    (w : String) (ws : List String) (t r n : ℕ) (s : RunStore) (run : RunRecord)
    → Grant w ws t r n s run
    → (get (claim_run w ws t r n s).1.runs run.id ≡ some run) × Held w (n + t) run
Grant-stored w ws t r n s run g =
    let same_id : run.id ≡ g.before.id = unfold leased in ap (λ (x : RunRecord). x.id) g.given in
    (
      rw g.written (
          subst (λ x. get (write_run (reclaim r s).1 g.before.id run).runs x ≡ some run)
            (sym same_id) (get-put_self (reclaim r s).1.runs g.before.id run)),
      unfold leased in
          record {
            running_now = ap (λ (x : RunRecord). x.state) g.given;
            holder = ap (λ (x : RunRecord). x.leased_by) g.given;
            ends = ap (λ (x : RunRecord). x.lease_expires_at) g.given;
          },
    )

-- In a table that satisfies the invariant, after a worker was given a run, whatever else happens to the store short of the lease's end (no
-- clock reading reaches it, and the run is neither marked nor renewed under the holder's name), no
-- claim gives that run out again.
pub claim_run_exclusive :
    (w w' : String) (ws ws' : List String) (t t' r r' n n' : ℕ) (s : RunStore) (ops : List Op)
    (run run' : RunRecord)
    → TableOk s
    → (claim_run w ws t r n s).0 ≡ some run
    → All (ByOthers w (n + t) run.id) ops
    → r' < n + t
    → (claim_run w' ws' t' r' n' (run_all ops (claim_run w ws t r n s).1)).0 ≡ some run'
    → run'.id ≢ run.id
claim_run_exclusive w w' ws ws' t t' r r' n n' s ops run run' valid given others lasts given' same =
    let g = claim_run-Grant w ws t r n s valid.keyed run given in
    let (stored, held) = Grant-stored w ws t r n s run g in
    let s1 = (claim_run w ws t r n s).1 in
    let ok1 : TableOk s1 = unfold apply in apply-TableOk (claim w ws t r n) s valid in
    let s2 = run_all ops s1 in
    let ok2 = run_all-TableOk ops s1 ok1 in
    let found = run_all-Held ops s1 w (n + t) run.id run ok1 stored held others in
    let found' : get (reclaim r' s2).1.runs run.id ≡ some run =
      unfold run_all stranded in ground (arith, get-reclaim r' s2 run.id ok2.keyed, held.ends) in
    let g' = claim_run-Grant w' ws' t' r' n' s2 ok2.keyed run' given' in
    let kept : run'.id ≡ g'.before.id = unfold leased in ap (λ (x : RunRecord). x.id) g'.given in
    let same' : g'.before.id ≡ run.id = sym kept ∙ same in
    let both : some run ≡ some g'.before =
      sym found' ∙ subst (λ x. get (reclaim r' s2).1.runs x ≡ some g'.before) same' g'.stored in
    ground (arith, g'.waited, held.running_now)

-- A renewal of a run that is stored succeeds exactly for the worker that the run is leased to: it then extends the lease
-- from now, and otherwise the store is left as it was and the error carries the run's state.
pub renew_lease_lem :
    (run_id worker : String) (ticks now : ℕ) (s : RunStore) (run : RunRecord)
    → get s.runs run_id ≡ some run
    → (same_text run.leased_by (some worker) ≡ true
        → renew_lease run_id worker ticks now s ≡ (
          ok (record run { lease_expires_at = some (now + ticks); updated_at = now }),
          write_run s run_id
              (record run { lease_expires_at = some (now + ticks); updated_at = now }),
        ))
      × (same_text run.leased_by (some worker) ≡ false
          → renew_lease run_id worker ticks now s ≡ (err (run_conflict run_id run.state), s))
unfolding renew_lease
renew_lease_lem run_id worker ticks now s run e = (λ t. ground arith, λ f. ground arith)

select-none :
    (test : RunRecord → Bool) (rs : List RunRecord)
    → All (λ r. test r ≡ false) rs
    → select test rs ≡ []
select-none test [] h = refl
select-none test (r ∷ rs) h = rw h.0 (select-none test rs h.1)

requeued_not_stranded : (now : ℕ) (run : RunRecord) → stranded now (requeued now run) ≡ false
unfolding stranded requeued
requeued_not_stranded now run = refl

-- In a table where each run stands under its own id, the reclaim leaves no lapsed lease behind: a second one at the same time finds none.
pub reclaim_idem : (now : ℕ) (s : RunStore) → IsKeyed s.runs → (reclaim now (reclaim now s).1).0 ≡ 0
reclaim_idem now s keyed =
    let s1 = (reclaim now s).1 in
    let clean =
      All-map (λ r. get s1.runs r.id ≡ some r) (λ r. stranded now r ≡ false) (values s1.runs)
        (λ r found. settled r found (Option-cases (get s.runs r.id)))
        (values-get s1.runs (reclaim-IsKeyed now s keyed)) in
    unfold reclaim in ap length (select-none (stranded now) (values s1.runs) clean)
  where
    settled :
        (r : RunRecord)
        → get (reclaim now s).1.runs r.id ≡ some r
        → (get s.runs r.id ≡ none) ⊎ ((old : RunRecord) × (get s.runs r.id ≡ some old))
        → stranded now r ≡ false
    settled r found (inl absent) = absurd (ground (arith, get-reclaim now s r.id keyed))
    settled r found (inr (old, e)) =
        ground (arith, get-reclaim now s r.id keyed, requeued_not_stranded now old)
