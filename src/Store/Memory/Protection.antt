-- ===== src/Store/Memory/Protection.antt =====
-- Which steps of the store leave a given run alone: a run that is finished, and a run whose lease
-- has not lapsed, are taken by nobody.
use navigator_orchestrator_a.Prelude.{
  ℕ, ◌<◌, String, ◌≡◌, ◌≢◌, sym, ◌∙◌, subst, true, false, Option, none, some, List, [], ◌∷◌, arith,
  inl, inr, All, get, get-put, str_eq, eq_iff, str_ne, Bool-cases, Option-cases, ◌⊎◌,
}
use navigator_orchestrator_a.Store.Models.{RunRecord, queued, running, is_terminal, same_text}
use navigator_orchestrator_a.Store.Memory.{
  RunStore, reclaim, stranded, leased, claim_run, renew_lease, expire_runs, abandoned, expired,
  create_run, mark_state,
}
use navigator_orchestrator_a.Store.Memory.Keyed.{IsKeyed, get-pass}
use navigator_orchestrator_a.Store.Memory.Claims.{
  Claimed, idle, taken, claim_run-Claimed, get-reclaim,
}
use navigator_orchestrator_a.Store.Memory.Invariant.{
  TableOk, LeaseOk, append_decision-runs, apply-TableOk,
}
use navigator_orchestrator_a.Store.Memory.Queue.{claimable_queued}
use navigator_orchestrator_a.Store.Memory.Steps.{
  Op, create, mark, claim, renew, recover, decide, expire, apply, run_all,
}

-- Why a step has no business with the run at `k`, for each step that writes runs.
abbrev Spares : Op → String → RunRecord → Type 0
Spares (mark i st p n) k run = i ≢ k
Spares (claim w ws t r n) k run = (stranded r run ≡ false) × (run.state ≢ queued)
Spares (renew i w t n) k run = same_text run.leased_by (some w) ≡ false
Spares (recover n) k run = stranded n run ≡ false
Spares (expire day days now c) k run = abandoned day days now run ≡ false
Spares _ k run = Unit

module _ (s : RunStore) (k : String) (run : RunRecord) (keyed : IsKeyed s.runs)
    (found : get s.runs k ≡ some run) where
  reclaim-spares : (n : ℕ) → stranded n run ≡ false → get (reclaim n s).1.runs k ≡ some run
  reclaim-spares n f = ground (arith, get-reclaim n s k keyed)

  claim_run-spares :
      (w : String) (ws : List String) (t r n : ℕ)
      → stranded r run ≡ false
      → run.state ≢ queued
      → get (claim_run w ws t r n s).1.runs k ≡ some run
  claim_run-spares w ws t r n f q = go (claim_run-Claimed w ws t r n s keyed)
    where
      still : get (reclaim r s).1.runs k ≡ some run
      still = reclaim-spares r f

      go :
          {result : Option RunRecord × RunStore}
          → Claimed w ws t n (reclaim r s).1 result
          → get result.1.runs k ≡ some run
      go (idle no_fit e) =
          subst (λ (x : Option RunRecord × RunStore). get x.1.runs k ≡ some run) (sym e) still
      go (taken old took e) =
          let other : str_eq old.id k ≡ false = str_ne old.id k (λ same.
            let both : some old ≡ some run =
              sym took.stored
              ∙ subst (λ x. get (reclaim r s).1.runs x ≡ some run) (sym same) still in
            q (ground (arith, claimable_queued ws old took.fits))) in
          subst (λ (x : Option RunRecord × RunStore). get x.1.runs k ≡ some run) (sym e)
            (get-put (reclaim r s).1.runs old.id k (leased w t n old) ∙ rw other still)

  apply-Spares : (op : Op) → Spares op k run → get (apply op s).runs k ≡ some run
  unfolding apply
  apply-Spares (create i w p b c u) h = create_spares (Option-cases (get s.runs i))
    where
      create_spares :
          (get s.runs i ≡ none) ⊎ ((r : RunRecord) × (get s.runs i ≡ some r))
          → get (create_run i w p b c u s).1.runs k ≡ some run
      create_spares (inl e) =
          unfold create_run in
          rw (e, create_run) (get-put s.runs i k _ ∙ ground (arith, eq_iff i k))
      create_spares (inr (r, e)) = unfold create_run in rw (e, create_run) found
  apply-Spares (mark i st p n) h = mark_spares (Option-cases (get s.runs i))
    where
      mark_spares :
          (get s.runs i ≡ none) ⊎ ((r : RunRecord) × (get s.runs i ≡ some r))
          → get (mark_state i st p n s).1.runs k ≡ some run
      mark_spares (inl e) = unfold mark_state in rw (e, mark_state) found
      mark_spares (inr (r, e)) =
          unfold mark_state in rw (e, mark_state) (get-put s.runs i k _ ∙ rw (str_ne i k h) found)
  apply-Spares (claim w ws t r n) h = claim_run-spares w ws t r n h.0 h.1
  apply-Spares (renew i w t n) h = renew_spares (Option-cases (get s.runs i))
    where
      renew_spares :
          (get s.runs i ≡ none) ⊎ ((r : RunRecord) × (get s.runs i ≡ some r))
          → get (renew_lease i w t n s).1.runs k ≡ some run
      renew_spares (inl e) = unfold renew_lease in rw (e, renew_lease) found
      renew_spares (inr (r, e)) = elim (Bool-cases (same_text r.leased_by (some w))) [
        | inl held ↦
            unfold renew_lease in
            rw (e, renew_lease) (rw held (get-put s.runs i k _ ∙ ground (arith, eq_iff i k)))
        | inr lost ↦ unfold renew_lease in rw (e, renew_lease) (rw lost found)
      ]
  apply-Spares (recover n) h = reclaim-spares n h
  apply-Spares (decide i v p c u n) h = rw (append_decision-runs i v p c u n s) found
  apply-Spares (expire day days n c) h =
      unfold expire_runs in get-pass (abandoned day days n) (expired c) s k keyed ∙ rw found (rw h)

-- The step is not a `mark_state` of the run at `k`.
abbrev pub LeavesAlone : String → Op → Type 0
LeavesAlone k (mark i st p n) = i ≢ k
LeavesAlone k _ = Unit

terminal_spared :
    (k : String) (run : RunRecord) (op : Op)
    → LeaseOk k run
    → is_terminal run ≡ true
    → LeavesAlone k op
    → Spares op k run
unfolding is_terminal
terminal_spared k run (create i w p b c u) l e h = tt
terminal_spared k run (mark i st p n) l e h = h
terminal_spared k run (claim w ws t r n) l e h =
    (unfold stranded in ground arith, λ q. ground arith)
terminal_spared k run (renew i w t n) l e h = elim (Bool-cases (same_text run.leased_by (some w))) [
  | inl held ↦ absurd (unfold same_text in ground (arith, l.only_running))
  | inr lost ↦ lost
]
terminal_spared k run (recover n) l e h = unfold stranded in ground arith
terminal_spared k run (decide i v p c u n) l e h = tt
terminal_spared k run (expire day days n c) l e h = unfold abandoned in ground arith

-- In a table that satisfies the invariant, a finished run (completed, failed or cancelled) is final:
-- whatever the store is asked to do, short of marking this very run, its record stays exactly as it
-- is.
pub run_all_terminal :
    (ops : List Op) (s : RunStore) (k : String) (run : RunRecord)
    → TableOk s
    → get s.runs k ≡ some run
    → is_terminal run ≡ true
    → All (LeavesAlone k) ops
    → get (run_all ops s).runs k ≡ some run
unfolding run_all
run_all_terminal [] s k run ok found e h = found
run_all_terminal (op ∷ ops) s k run ok found e h =
    run_all_terminal ops (apply op s) k run (apply-TableOk op s ok)
      (apply-Spares s k run ok.keyed found op
        (terminal_spared k run op (ok.leases.at k run found) e h.0))
      e h.1

-- The run is leased to `worker` until `until`.
pub record Held (worker : String) (until : ℕ) (run : RunRecord) : Type 0 where
  pub running_now : run.state ≡ running
  pub holder : run.leased_by ≡ some worker
  pub ends : run.lease_expires_at ≡ some until

-- A step of somebody else, whose clock has not reached `until`.
abbrev pub ByOthers : String → ℕ → String → Op → Type 0
ByOthers worker until k (mark i st p n) = i ≢ k
ByOthers worker until k (claim w ws t r n) = r < until
ByOthers worker until k (renew i w t n) = w ≢ worker
ByOthers worker until k (recover n) = n < until
ByOthers worker until k _ = Unit

Held-spared :
    (worker : String) (until : ℕ) (k : String) (run : RunRecord) (op : Op)
    → Held worker until run
    → ByOthers worker until k op
    → Spares op k run
Held-spared worker until k run (create i w p b c u) l h = tt
Held-spared worker until k run (mark i st p n) l h = h
Held-spared worker until k run (claim w ws t r n) l h =
    (unfold stranded in ground arith, λ q. ground arith)
Held-spared worker until k run (renew i w t n) l h =
    unfold same_text in ground (arith, str_ne worker w (λ e. h (sym e)))
Held-spared worker until k run (recover n) l h = unfold stranded in ground arith
Held-spared worker until k run (decide i v p c u n) l h = tt
Held-spared worker until k run (expire day days n c) l h = unfold abandoned in ground arith

-- In a table that satisfies the invariant, a running run that is leased stays as it is, lease and
-- all, through any operations that neither mark it nor renew under the holder's name, and whose
-- reclaims read a clock before the lease ends.
pub run_all-Held :
    (ops : List Op) (s : RunStore) (worker : String) (until : ℕ) (k : String) (run : RunRecord)
    → TableOk s
    → get s.runs k ≡ some run
    → Held worker until run
    → All (ByOthers worker until k) ops
    → get (run_all ops s).runs k ≡ some run
unfolding run_all
run_all-Held [] s worker until k run ok found held h = found
run_all-Held (op ∷ ops) s worker until k run ok found held h =
    run_all-Held ops (apply op s) worker until k run (apply-TableOk op s ok)
      (apply-Spares s k run ok.keyed found op (Held-spared worker until k run op held h.0)) held h.1
