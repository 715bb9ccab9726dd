-- ===== src/Store/Memory/Chains.antt =====
-- The decision chains of the run store: numbered from one, never rewritten, and a retry of the
-- latest decision is recognised.
use navigator_orchestrator_a.Prelude.{
  ℕ, suc, ◌+◌, String, ◌≡◌, refl, sym, ◌∙◌, ap, subst, true, false, Option, none, some, List, [],
  ◌∷◌, ◌++◌, append_assoc, append-nil, arith, if◌then◌else◌, inl, inr, length, get, put, get-put,
  get-put_self, str_eq, eq_iff, eq_refl, Bool-cases, Option-cases, Dict, Value,
}
use navigator_orchestrator_a.Store.Models.{
  RunRecord, RunState, awaiting_decision, DecisionRecord, Verdict, approve, reject, amend,
  Principal, same_state, same_verdict, same_text, matches, ok, err, run_conflict, run_not_found,
}
use navigator_orchestrator_a.Store.Memory.{
  RunStore, write_run, reclaim, lease_first, create_run, mark_state, claim_run, renew_lease,
  append_decision, expire_runs, chain, retried, new_decision, moved,
}
use navigator_orchestrator_a.Store.Memory.Keyed.{decisions-write_each}
use navigator_orchestrator_a.Store.Memory.Steps.{
  Op, create, mark, claim, renew, recover, decide, expire, apply, run_all,
}

-- The decisions of one run, numbered from `n` on.
abbrev pub IsChain : String → ℕ → List DecisionRecord → Type 0
IsChain run_id n [] = Unit
IsChain run_id n (d ∷ ds) = (d.run_id ≡ run_id) × (d.seq ≡ n) × IsChain run_id (suc n) ds

abbrev pub ChainsOk : RunStore → Type 0
ChainsOk s = (k : String) → IsChain k 1 (chain s k)

IsChain-append :
    (k : String) (n : ℕ) (ds : List DecisionRecord) (d : DecisionRecord)
    → IsChain k n ds
    → d.run_id ≡ k
    → d.seq ≡ n + length ds
    → IsChain k n (ds ++ d ∷ [])
IsChain-append k n [] d h e q = (e, omega arith, tt)
IsChain-append k n (x ∷ xs) d h e q = (h.0, h.1, IsChain-append k (suc n) xs d h.2 e (omega arith))

-- The chain of `k` in the new store is that of the old one, with more at its end.
abbrev pub Extends : RunStore → RunStore → String → Type 0
Extends s s' k = (more : List DecisionRecord) × (chain s' k ≡ chain s k ++ more)

same-Extends : (s s' : RunStore) (k : String) → s'.decisions ≡ s.decisions → Extends s s' k
same-Extends s s' k e = ([], rw e (sym (append-nil _)))

-- What `append_decision` does to the decisions.
data Decided (run_id : String) (s : RunStore) (s' : RunStore) : Type 0 where
  kept : s'.decisions ≡ s.decisions → Decided run_id s s'
  added :
      (d : DecisionRecord)
      → d.run_id ≡ run_id
      → d.seq ≡ length (chain s run_id) + 1
      → s'.decisions ≡ put s.decisions run_id (chain s run_id ++ d ∷ [])
      → Decided run_id s s'

module _ (run_id : String) (v : Verdict) (p : Principal) (c : Option String) (uuid : String)
    (now : ℕ) (s : RunStore) where
  abbrev decided : DecisionRecord
  decided = new_decision run_id (chain s run_id) v p c uuid now

  -- The run awaits a decision: one is added.
  pub append_decision_awaited :
      (run : RunRecord)
      → get s.runs run_id ≡ some run
      → run.state ≡ awaiting_decision
      → append_decision run_id v p c uuid now s ≡ (
        ok (decided, true),
        record s { decisions = put s.decisions run_id (chain s run_id ++ decided ∷ []) },
      )
  unfolding append_decision
  append_decision_awaited run e w = ground arith

  -- It awaits none: nothing changes.
  pub append_decision_moved :
      (run : RunRecord)
      → get s.runs run_id ≡ some run
      → same_state run.state awaiting_decision ≡ false
      → append_decision run_id v p c uuid now s ≡ (
        elim (retried (chain s run_id) v c p) [
          | some d ↦ ok (d, false)
          | none ↦ err (run_conflict run_id run.state)
        ],
        s,
      )
  unfolding append_decision
  append_decision_moved run e w = ground arith

  pub append_decision_unknown :
      get s.runs run_id ≡ none
      → append_decision run_id v p c uuid now s ≡ (err (run_not_found run_id), s)
  unfolding append_decision
  append_decision_unknown e = ground arith

  append_decision-Decided : Decided run_id s (append_decision run_id v p c uuid now s).1
  append_decision-Decided = elim (Option-cases (get s.runs run_id)) [
    | inl e ↦ rw (append_decision_unknown e) (kept refl)
    | inr (r, e) ↦ elim (Bool-cases (same_state r.state awaiting_decision)) [
      | inl t ↦
          rw (append_decision_awaited r e (awaits r.state t))
            (added decided (unfold new_decision in refl) (unfold new_decision in refl) refl)
      | inr f ↦ rw (append_decision_moved r e f) (kept refl)
    ]
  ]
    where
      awaits : (st : RunState) → same_state st awaiting_decision ≡ true → st ≡ awaiting_decision
      awaits st t = unfold same_state in ground arith

chain-put :
    (s s' : RunStore) (run_id k : String) (ds : List DecisionRecord)
    → s'.decisions ≡ put s.decisions run_id ds
    → chain s' k ≡ (if str_eq run_id k then ds else chain s k)
chain-put s s' run_id k ds e = ground (arith, get-put s.decisions run_id k ds)

lease_first-decisions :
    (worker : String) (ticks now : ℕ) (rs : List RunRecord) (s : RunStore)
    → (lease_first worker ticks now rs s).1.decisions ≡ s.decisions
unfolding lease_first
lease_first-decisions worker ticks now [] s = refl
lease_first-decisions worker ticks now (r ∷ rs) s = refl

claim_run-decisions :
    (worker : String) (workflows : List String) (ticks reclaimed_at now : ℕ) (s : RunStore)
    → (claim_run worker workflows ticks reclaimed_at now s).1.decisions ≡ s.decisions
unfolding claim_run
claim_run-decisions worker workflows ticks reclaimed_at now s =
    lease_first-decisions worker ticks now _ _ ∙ decisions-write_each _ _ s

module _ (i k : String) (s s' : RunStore) where
  Decided-Extends : Decided i s s' → Extends s s' k
  Decided-Extends (kept e) = same-Extends s s' k e
  Decided-Extends (added d own seq e) = elim (Bool-cases (str_eq i k)) [
    | inl same ↦ (d ∷ [], ground (arith, chain-put s s' i k (chain s i ++ d ∷ []) e, eq_iff i k))
    | inr other ↦ (
      [],
      rw (append-nil (chain s k)) (ground (arith, chain-put s s' i k (chain s i ++ d ∷ []) e)),
    )
  ]

  Decided-IsChain :
      Decided i s s' → IsChain i 1 (chain s i) → IsChain k 1 (chain s k) → IsChain k 1 (chain s' k)
  Decided-IsChain (kept e) g h = rw e h
  Decided-IsChain (added d own seq e) g h = elim (Bool-cases (str_eq i k)) [
    | inl same ↦
        let longer = IsChain-append i 1 (chain s i) d g own (omega (arith, seq)) in
        rw (chain-put s s' i k (chain s i ++ d ∷ []) e)
          (rw same (subst (λ x. IsChain x 1 (chain s i ++ d ∷ [])) ((eq_iff i k).0 same) longer))
    | inr other ↦ rw (chain-put s s' i k (chain s i ++ d ∷ []) e) (rw other h)
  ]

-- One step adds at most one decision, at the end of one chain.
apply-Decided : (op : Op) (s : RunStore) → (i : String) × Decided i s (apply op s)
unfolding apply
apply-Decided (create i w p b c u) s = (i, kept (unfold create_run in ground arith))
apply-Decided (mark i st p n) s = (i, kept (unfold mark_state in ground arith))
apply-Decided (claim w ws t r n) s = (w, kept (claim_run-decisions w ws t r n s))
apply-Decided (renew i w t n) s = (i, kept (unfold renew_lease in ground arith))
apply-Decided (recover n) s = ("", kept (unfold reclaim in decisions-write_each _ _ s))
apply-Decided (decide i v p c u n) s = (i, append_decision-Decided i v p c u n s)
apply-Decided (expire d ds n c) s = ("", kept (unfold expire_runs in decisions-write_each _ _ s))

-- The audit trail is append-only: whatever the store is asked to do, the decisions that a run has
-- stay as they are, in their order, at the beginning of its chain.
pub run_all-Extends : (ops : List Op) (s : RunStore) (k : String) → Extends s (run_all ops s) k
unfolding run_all
run_all-Extends [] s k = same-Extends s s k refl
run_all-Extends (op ∷ ops) s k =
    let (i, step) = apply-Decided op s in
    let (more, e) = Decided-Extends i k s (apply op s) step in
    let (later, f) = run_all-Extends ops (apply op s) k in
    (more ++ later, f ∙ ap (λ ds. ds ++ later) e ∙ append_assoc (chain s k) more later)

apply-ChainsOk : (op : Op) (s : RunStore) → ChainsOk s → ChainsOk (apply op s)
apply-ChainsOk op s h k =
    let (i, step) = apply-Decided op s in Decided-IsChain i k s (apply op s) step (h i) (h k)

-- From a store where the decisions of each run are its own and numbered 1, 2, 3, … in the order of
-- the chain, they are so after any sequence of operations.
pub run_all-ChainsOk : (ops : List Op) (s : RunStore) → ChainsOk s → ChainsOk (run_all ops s)
unfolding run_all
run_all-ChainsOk [] s h = h
run_all-ChainsOk (op ∷ ops) s h = run_all-ChainsOk ops (apply op s) (apply-ChainsOk op s h)

same_verdict_refl : (v : Verdict) → same_verdict v v ≡ true
unfolding same_verdict
same_verdict_refl approve = refl
same_verdict_refl reject = refl
same_verdict_refl amend = refl

same_text_refl : (t : Option String) → same_text t t ≡ true
unfolding same_text
same_text_refl none = refl
same_text_refl (some t) = eq_refl t

retried-append :
    (ds : List DecisionRecord) (d : DecisionRecord) (v : Verdict) (c : Option String)
    (p : Principal)
    → retried (ds ++ d ∷ []) v c p ≡ (if matches d v c p then some d else none)
unfolding retried
retried-append [] d v c p = refl
retried-append (x ∷ []) d v c p = refl
retried-append (x ∷ y ∷ ds) d v c p = retried-append (y ∷ ds) d v c p

module _ (run_id : String) (st : RunState) (payload : Option (Dict Value)) (now : ℕ) where
  pub mark_state_found :
      (s : RunStore) (run : RunRecord)
      → get s.runs run_id ≡ some run
      → mark_state run_id st payload now s
        ≡ (ok (moved st payload now run), write_run s run_id (moved st payload now run))
  unfolding mark_state
  mark_state_found s run e = ground arith

  state-moved : (run : RunRecord) → (moved st payload now run).state ≡ st
  unfolding moved
  state-moved run = refl

matches-new_decision :
    (run_id : String) (ds : List DecisionRecord) (v : Verdict) (p : Principal) (c : Option String)
    (uuid : String) (now : ℕ)
    → matches (new_decision run_id ds v p c uuid now) v c p ≡ true
unfolding matches new_decision
matches-new_decision run_id ds v p c uuid now =
    rw (same_verdict_refl v) (rw (same_text_refl c) (eq_refl p.subject))

-- A decision that was recorded, of a run that awaited one, and was followed by a mark that moved the
-- run to another state, is idempotent: sent again by the same principal with the same verdict and
-- comment, at whatever time and under whatever fresh id, it returns the recorded decision as not
-- new, and changes nothing.
pub append_decision_again :
    (run_id : String) (v : Verdict) (p : Principal) (c : Option String) (uuid uuid' : String)
    (now now' later : ℕ) (st : RunState) (payload : Option (Dict Value)) (s : RunStore)
    (run : RunRecord)
    → get s.runs run_id ≡ some run
    → run.state ≡ awaiting_decision
    → same_state st awaiting_decision ≡ false
    → let first = append_decision run_id v p c uuid now s in
      let s' = (mark_state run_id st payload later first.1).1 in
      append_decision run_id v p c uuid' now' s' ≡ (ok (decided run_id v p c uuid now s, false), s')
append_decision_again run_id v p c uuid uuid' now now' later st payload s run found awaits left =
    let d = decided run_id v p c uuid now s in
    let s1 : RunStore = record s {
      decisions = put s.decisions run_id (chain s run_id ++ d ∷ []);
    } in
    let s2 = write_run s1 run_id (moved st payload later run) in
    let longer : chain s2 run_id ≡ chain s run_id ++ d ∷ [] =
      ground (arith, get-put_self s.decisions run_id (chain s run_id ++ d ∷ [])) in
    rw (append_decision_awaited run_id v p c uuid now s run found awaits) (
      rw (mark_state_found run_id st payload later s1 run found) (
        append_decision_moved run_id v p c uuid' now' s2 (moved st payload later run)
          (get-put_self s.runs run_id _) (rw (state-moved run_id st payload later run) left)
        ∙ rw longer (
            rw (retried-append (chain s run_id) d v c p)
              (rw (matches-new_decision run_id (chain s run_id) v p c uuid now)))))
