-- ===== src/Store/Memory/Claims.antt =====
-- What `claim_run` does, case by case: the table after the reclaim, and the run that it takes.
use navigator_orchestrator_a.Prelude.{
  ℕ, String, ◌≡◌, refl, sym, Bool, true, false, Option, none, some, List, [], ◌∷◌, if◌then◌else◌,
  select, inl, inr, All, All-select, All-select_test, sort_by, All-sort_by, All-sort_by_inv,
  sort_by-IsSorted, IsSorted, IsStrictOrder, key_lt_asym, key_lt_trans_not, get, values, Bool-cases,
  subst,
}
use navigator_orchestrator_a.Store.Models.{RunRecord}
use navigator_orchestrator_a.Store.Memory.{
  RunStore, write_run, reclaim, stranded, requeued, claimable, older, leased, lease_first,
  claim_run,
}
use navigator_orchestrator_a.Store.Memory.Keyed.{
  IsKeyed, get-pass, values-get, All-get, write_each-IsKeyed,
}

module _ (a b : RunRecord) where
  older_asym : older a b ≡ true → older b a ≡ false
  unfolding older
  older_asym = key_lt_asym a.created_at a.id b.created_at b.id

  older_trans_not : (c : RunRecord) → older b a ≡ false → older c b ≡ false → older c a ≡ false
  unfolding older
  older_trans_not c = key_lt_trans_not a.created_at a.id b.created_at b.id c.created_at c.id

older_irrefl : (a : RunRecord) → older a a ≡ false
older_irrefl a = elim (Bool-cases (older a a)) [ inl t ↦ older_asym a a t | inr f ↦ f ]

pub older-IsStrictOrder : IsStrictOrder older
older-IsStrictOrder = record { asym = older_asym; trans_not = older_trans_not }

pub reclaim-IsKeyed : (now : ℕ) (s : RunStore) → IsKeyed s.runs → IsKeyed (reclaim now s).1.runs
unfolding reclaim requeued
reclaim-IsKeyed now s h = write_each-IsKeyed (requeued now) _ s (λ run. refl) h

pub get-reclaim :
    (now : ℕ) (s : RunStore) (k : String)
    → IsKeyed s.runs
    → get (reclaim now s).1.runs k ≡ (elim (get s.runs k) [
      | none ↦ none
      | some r ↦ some (if stranded now r then requeued now r else r)
    ])
unfolding reclaim
get-reclaim now s k h = get-pass (stranded now) (requeued now) s k h

-- The run that the worker is given, and why it.
pub record Taken (workflows : List String) (s : RunStore) (run : RunRecord) : Type 0 where
  pub stored : get s.runs run.id ≡ some run
  pub fits : claimable workflows run ≡ true
  -- no other run that fits is older
  pub oldest :
      (k : String) (other : RunRecord)
      → get s.runs k ≡ some other
      → claimable workflows other ≡ true
      → older other run ≡ false

All-select_inv {ℓ} :
    {A : Type ℓ} (P : A → Type 0) (test : A → Bool) (xs : List A)
    → All P (select test xs)
    → All (λ x. test x ≡ true → P x) xs
All-select_inv P test [] h = tt
All-select_inv P test (x ∷ xs) h = let r = go (test x) refl h in (r.0, All-select_inv P test xs r.1)
  where
    go :
        (b : Bool)
        → test x ≡ b
        → All P (if b then x ∷ select test xs else select test xs)
        → (test x ≡ true → P x) × All P (select test xs)
    go true e h = ((λ t. h.0), h.1)
    go false e h = ((λ t. absurd (cc)), h)

module _ (workflows : List String) (s : RunStore) (keyed : IsKeyed s.runs) where
  abbrev waiting : List RunRecord
  waiting = select (claimable workflows) (values s.runs)

  -- The head of the sorted list is the oldest of the runs that fit.
  first-Taken :
      (run : RunRecord) (rest : List RunRecord)
      → sort_by older waiting ≡ run ∷ rest
      → Taken workflows s run
  first-Taken run rest e =
      let stored =
        All-sort_by older (λ r. get s.runs r.id ≡ some r) waiting
          (All-select _ _ _ (values-get s.runs keyed)) in
      let fits =
        All-sort_by older (λ r. claimable workflows r ≡ true) waiting
          (All-select_test (claimable workflows) (values s.runs)) in
      let sorted = sort_by-IsSorted older older-IsStrictOrder waiting in
      record {
        stored = (subst (All (λ r. get s.runs r.id ≡ some r)) e stored).0;
        fits = (subst (All (λ r. claimable workflows r ≡ true)) e fits).0;
        oldest = λ k other found fit.
            let behind =
              subst (All (λ r. older r run ≡ false)) (sym e)
                (older_irrefl run, (subst (IsSorted older) e sorted).0) in
            All-get (λ r. claimable workflows r ≡ true → older r run ≡ false) s.runs k other
              (All-select_inv (λ r. older r run ≡ false) (claimable workflows) (values s.runs)
                (All-sort_by_inv older _ waiting behind))
              found fit;
      }

  -- With nothing that fits, the sorted list is empty.
  none-waiting :
      sort_by older waiting ≡ []
      → (k : String) (run : RunRecord) → get s.runs k ≡ some run
      → claimable workflows run ≡ false
  none-waiting e k run found =
      let gone : All (λ r. ⊥) waiting =
        All-sort_by_inv older (λ r. ⊥) waiting (subst (All (λ r. ⊥)) (sym e) tt) in
      let refuted =
        All-get (λ r. claimable workflows r ≡ true → ⊥) s.runs k run
          (All-select_inv (λ r. ⊥) (claimable workflows) (values s.runs) gone) found in
      elim (Bool-cases (claimable workflows run)) [ inl t ↦ absurd (refuted t) | inr f ↦ f ]

-- The outcomes of `claim_run`: nothing fits, or the oldest run that fits is leased.
pub data Claimed (worker : String) (workflows : List String) (lease_ticks now : ℕ) (s : RunStore)
    (result : Option RunRecord × RunStore) : Type 0 where
  idle :
      ((k : String) (run : RunRecord) → get s.runs k ≡ some run → claimable workflows run ≡ false)
      → result ≡ (none, s)
      → Claimed worker workflows lease_ticks now s result
  taken :
      (run : RunRecord)
      → Taken workflows s run
      → result ≡ (
        some (leased worker lease_ticks now run),
        write_run s run.id (leased worker lease_ticks now run),
      )
      → Claimed worker workflows lease_ticks now s result

lease_first-Claimed :
    (worker : String) (workflows : List String) (lease_ticks now : ℕ) (s : RunStore)
    → IsKeyed s.runs
    → (rs : List RunRecord) → sort_by older (select (claimable workflows) (values s.runs)) ≡ rs
    → Claimed worker workflows lease_ticks now s (lease_first worker lease_ticks now rs s)
unfolding lease_first
lease_first-Claimed worker workflows lease_ticks now s keyed [] e =
    idle (none-waiting workflows s keyed e) refl
lease_first-Claimed worker workflows lease_ticks now s keyed (run ∷ rest) e =
    taken run (first-Taken workflows s keyed run rest e) refl

pub claim_run-Claimed :
    (worker : String) (workflows : List String) (lease_ticks reclaimed_at now : ℕ) (s : RunStore)
    → IsKeyed s.runs
    → Claimed worker workflows lease_ticks now
        (reclaim reclaimed_at s).1
        (claim_run worker workflows lease_ticks reclaimed_at now s)
unfolding claim_run
claim_run-Claimed worker workflows lease_ticks reclaimed_at now s keyed =
    lease_first-Claimed worker workflows lease_ticks now (reclaim reclaimed_at s).1
      (reclaim-IsKeyed reclaimed_at s keyed) _ refl
