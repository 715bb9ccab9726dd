-- ===== src/Store/Memory/Tables.antt =====
-- Properties of every stored run, and how the writes of the store keep them.
use navigator_orchestrator_a.Prelude.{
  String, ◌≡◌, Bool, true, none, some, arith, if◌then◌else◌, select, inl, inr, Bool-cases, str_eq,
  eq_iff, get, values, get-put, Option-cases, subst, ◌⊎◌,
}
use navigator_orchestrator_a.Store.Models.{RunRecord}
use navigator_orchestrator_a.Store.Memory.{RunStore, write_run, write_each}
use navigator_orchestrator_a.Store.Memory.Keyed.{IsKeyed, get-pass}

-- `P` holds of every run that the store finds, under the key that finds it.
pub record Holds (P : String → RunRecord → Type 0) (s : RunStore) : Type 0 where
  pub at : (k : String) (run : RunRecord) → get s.runs k ≡ some run → P k run

module _ {P : String → RunRecord → Type 0} where
  pub Holds-write_run :
      (s : RunStore) (k : String) (run : RunRecord)
      → P k run
      → Holds P s
      → Holds P (write_run s k run)
  Holds-write_run s k run p h = record { at = λ j r e. go j r (rw get-put at e) }
    where
      go :
          (j : String) (r : RunRecord)
          → (if str_eq k j then some run else get s.runs j) ≡ some r
          → P j r
      go j r e = elim (Bool-cases (str_eq k j)) [
        | inl same ↦ subst (λ x. P x r) ((eq_iff k j).0 same) (subst (P k) (ground arith) p)
        | inr other ↦ h.at j r (ground arith)
      ]

  pub Holds-pass :
      (test : RunRecord → Bool) (change : RunRecord → RunRecord) (s : RunStore)
      → ((k : String) (run : RunRecord) → test run ≡ true → P k run → P k (change run))
      → IsKeyed s.runs
      → Holds P s
      → Holds P (write_each change (select test (values s.runs)) s)
  Holds-pass test change s keeps keyed h = record {
    at = λ k r e. go k r (Option-cases (get s.runs k)) (rw (get-pass test change s k keyed) at e);
  }
    where
      go :
          (k : String) (r : RunRecord)
          → (get s.runs k ≡ none) ⊎ ((a : RunRecord) × (get s.runs k ≡ some a))
          → (elim (get s.runs k) [ none ↦ none | some r ↦ some (if test r then change r else r) ])
            ≡ some r
          → P k r
      go k r (inl absent) e = absurd (ground arith)
      go k r (inr (a, found)) e = elim (Bool-cases (test a)) [
        | inl p ↦ subst (P k) (ground arith) (keeps k a p (h.at k a found))
        | inr n ↦ subst (P k) (ground arith) (h.at k a found)
      ]
