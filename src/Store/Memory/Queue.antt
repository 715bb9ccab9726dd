-- ===== src/Store/Memory/Queue.antt =====
-- The queue of the run store: claims, leases and recovery.
use navigator_orchestrator_a.Prelude.{
  ℕ, ◌+◌, ◌≤◌, String, ◌≡◌, refl, true, false, Option, none, some, List, [], ◌∷◌, arith, sym, ap,
  ◌∙◌, inl, inr, Option-cases, Bool-cases, get, one_of, str_lt, key_lt,
}
use navigator_orchestrator_a.Store.Models.{RunRecord, queued, running, same_state}
use navigator_orchestrator_a.Store.Memory.{
  RunStore, write_run, reclaim, stranded, requeued, claimable, older, leased, claim_run,
}
use navigator_orchestrator_a.Store.Memory.Keyed.{IsKeyed}
use navigator_orchestrator_a.Store.Memory.Claims.{
  Claimed, idle, taken, claim_run-Claimed, get-reclaim,
}

pub claimable_queued :
    (workflows : List String) (run : RunRecord)
    → claimable workflows run ≡ true
    → run.state ≡ queued
unfolding claimable
claimable_queued [] run e = ground arith
claimable_queued (w ∷ ws) run e = ground arith

not_older :
    (a b : RunRecord)
    → older a b ≡ false
    → (b.created_at ≤ a.created_at) × (a.created_at ≡ b.created_at → str_lt a.id b.id ≡ false)
unfolding older key_lt
not_older a b e = (ground arith, λ same. ground arith)

-- A worker that names no workflow can execute any.
unfoldable pub Fits : List String → RunRecord → Type 0
Fits [] run = Unit
Fits (w ∷ ws) run = one_of run.workflow (w ∷ ws) ≡ true

claimable-Fits :
    (workflows : List String) (run : RunRecord)
    → claimable workflows run ≡ true
    → Fits workflows run
unfolding claimable Fits
claimable-Fits [] run e = tt
claimable-Fits (w ∷ ws) run e = ground arith

Fits-claimable :
    (workflows : List String) (run : RunRecord)
    → run.state ≡ queued
    → Fits workflows run
    → claimable workflows run ≡ true
unfolding claimable Fits same_state
Fits-claimable [] run q fit = rw q refl
Fits-claimable (w ∷ ws) run q fit = rw (q, fit) refl

-- How a run of the table came to wait: it did, or its lease has lapsed and was taken back.
pub data Came (reclaimed_at : ℕ) (r before : RunRecord) : Type 0 where
  was_queued : r.state ≡ queued → before ≡ r → Came reclaimed_at r before
  was_lapsed :
      (t : ℕ)
      → r.state ≡ running
      → r.lease_expires_at ≡ some t
      → t ≤ reclaimed_at
      → before ≡ record r {
        state = queued;
        leased_by = none;
        lease_expires_at = none;
        updated_at = reclaimed_at;
      }
      → Came reclaimed_at r before

stranded-lapsed :
    (now : ℕ) (r : RunRecord)
    → stranded now r ≡ true
    → (r.state ≡ running) × ((t : ℕ) × (r.lease_expires_at ≡ some t) × (t ≤ now))
unfolding stranded same_state
stranded-lapsed now r e = elim (Option-cases r.lease_expires_at) [
  | inl q ↦ absurd (ground arith)
  | inr (t, q) ↦ (ground arith, (t, q, ground arith))
]

came :
    (reclaimed_at : ℕ) (s : RunStore) (before : RunRecord)
    → IsKeyed s.runs
    → get (reclaim reclaimed_at s).1.runs before.id ≡ some before
    → before.state ≡ queued
    → (r : RunRecord) × (get s.runs before.id ≡ some r) × Came reclaimed_at r before
unfolding requeued
came reclaimed_at s before keyed found waits =
    let e = sym (get-reclaim reclaimed_at s before.id keyed) ∙ found in
    elim (Option-cases (get s.runs before.id)) [
      | inl q ↦ absurd (ground (arith, e))
      | inr (r, q) ↦ elim (Bool-cases (stranded reclaimed_at r)) [
        | inl lapsed ↦
            let (run, (t, lease, past)) = stranded-lapsed reclaimed_at r lapsed in
            (r, q, was_lapsed t run lease past (ground (arith, e)))
        | inr kept ↦
            let same : before ≡ r = ground (arith, e) in
            (r, q, was_queued (ap (λ x. x.state) (sym same) ∙ waits) same)
      ]
    ]

-- What a claim that gives a run promises of the store before and after.
pub record Grant (worker : String) (workflows : List String) (ticks reclaimed_at now : ℕ)
    (s : RunStore) (run : RunRecord) : Type 0 where
  -- the run as it was stored, after the reclaim
  pub before : RunRecord
  pub stored : get (reclaim reclaimed_at s).1.runs before.id ≡ some before
  pub waited : before.state ≡ queued
  pub from : (r : RunRecord) × (get s.runs before.id ≡ some r) × Came reclaimed_at r before
  pub fits : Fits workflows before
  -- no other run that waits and fits was created before it, or at the same time with a smaller id
  pub oldest :
      (k : String) (other : RunRecord)
      → get (reclaim reclaimed_at s).1.runs k ≡ some other
      → other.state ≡ queued
      → Fits workflows other
      → (before.created_at ≤ other.created_at)
        × (other.created_at ≡ before.created_at → str_lt other.id before.id ≡ false)
  pub given : run ≡ record before {
    state = running;
    leased_by = some worker;
    lease_expires_at = some (now + ticks);
    updated_at = now;
  }
  pub written :
      (claim_run worker workflows ticks reclaimed_at now s).1
      ≡ write_run (reclaim reclaimed_at s).1 before.id run

module _ (worker : String) (workflows : List String) (ticks reclaimed_at now : ℕ) (s : RunStore)
    (keyed : IsKeyed s.runs) where
  -- In a table where each run stands under its own id, a worker that is given a run is given the
  -- oldest that it can execute, of those that are queued once the lapsed leases are taken back (it
  -- was queued, or it was running with a lease that ended at the reclaim or before): none
  -- of them was created before it, or at the same time with a smaller id. It is running and leased
  -- to the worker until `ticks` from now, with its other fields as they were, and nothing else of
  -- the store changes.
  pub claim_run-Grant :
      (run : RunRecord)
      → (claim_run worker workflows ticks reclaimed_at now s).0 ≡ some run
      → Grant worker workflows ticks reclaimed_at now s run
  unfolding leased
  claim_run-Grant run e =
      go _ refl (claim_run-Claimed worker workflows ticks reclaimed_at now s keyed)
    where
      go :
          (result : Option RunRecord × RunStore)
          → claim_run worker workflows ticks reclaimed_at now s ≡ result
          → Claimed worker workflows ticks now (reclaim reclaimed_at s).1 result
          → Grant worker workflows ticks reclaimed_at now s run
      go result f (idle no_fit q) = absurd (cc)
      go result f (taken old t q) = record {
        before = old;
        stored = t.stored;
        waited = claimable_queued workflows old t.fits;
        from = came reclaimed_at s old keyed t.stored (claimable_queued workflows old t.fits);
        fits = claimable-Fits workflows old t.fits;
        oldest = λ k other found waits fit.
            not_older other old (t.oldest k other found (Fits-claimable workflows other waits fit));
        given = cc;
        written = cc;
      }

  -- A worker that is given nothing finds no queued run that it can execute.
  pub claim_run-none :
      (claim_run worker workflows ticks reclaimed_at now s).0 ≡ none
      → (k : String) (run : RunRecord) → get (reclaim reclaimed_at s).1.runs k ≡ some run
      → claimable workflows run ≡ false
  claim_run-none e = go _ refl (claim_run-Claimed worker workflows ticks reclaimed_at now s keyed)
    where
      go :
          (result : Option RunRecord × RunStore)
          → claim_run worker workflows ticks reclaimed_at now s ≡ result
          → Claimed worker workflows ticks now (reclaim reclaimed_at s).1 result
          → (k : String) (run : RunRecord) → get (reclaim reclaimed_at s).1.runs k ≡ some run
          → claimable workflows run ≡ false
      go result f (idle no_fit q) = no_fit
      go result f (taken old t q) = absurd (cc)
