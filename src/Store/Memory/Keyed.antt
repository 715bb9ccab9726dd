-- ===== src/Store/Memory/Keyed.antt =====
-- The run table of InMemoryRunStore: each run stands under its own id, once. What a loop
-- `for run in found: self._runs[run.id] = change(run)` does to the table.
use navigator_orchestrator_a.Prelude.{
  String, ◌≡◌, refl, sym, ◌∙◌, subst, Bool, Option, none, some, List, [], ◌∷◌, arith, if◌then◌else◌,
  select, All, All-map, Bool-cases, inl, inr, str_eq, eq_iff, Dict, get, put, values, get-put,
}
use navigator_orchestrator_a.Store.Models.{RunRecord}
use navigator_orchestrator_a.Store.Memory.{RunStore, write_run, write_each}

abbrev pub IsKeyed : Dict RunRecord → Type 0
IsKeyed [] = Unit
IsKeyed ((k, run) ∷ d) = (run.id ≡ k) × (get d k ≡ none) × IsKeyed d

pub put-IsKeyed :
    (d : Dict RunRecord) (k : String) (run : RunRecord)
    → run.id ≡ k
    → IsKeyed d
    → IsKeyed (put d k run)
unfolding put get
put-IsKeyed [] k run e h = (e, refl, tt)
put-IsKeyed ((j, old) ∷ d) k run e h = elim (Bool-cases (str_eq j k)) [
  | inl same ↦ rw same (e ∙ sym ((eq_iff j k).0 same), h.1, h.2)
  | inr other ↦ rw other (
    h.0,
    ground (arith, get-put d k j run, eq_iff k j, eq_iff j k, h.1),
    put-IsKeyed d k run e h.2,
  )
]

-- A run that is found under a key has that key for its id.
pub id-get :
    (d : Dict RunRecord) (k : String) (run : RunRecord)
    → IsKeyed d
    → get d k ≡ some run
    → run.id ≡ k
unfolding get
id-get [] k run h e = cc
id-get ((j, old) ∷ d) k run h e = ground (arith, eq_iff j k, id-get d k run h.2)

-- A listed run is the one that its id finds.
pub values-get : (d : Dict RunRecord) → IsKeyed d → All (λ run. get d run.id ≡ some run) (values d)
unfolding get
values-get [] h = tt
values-get ((j, old) ∷ d) h = (
  ground (arith, eq_iff j old.id),
  All-map _ _ (values d) (λ run e. ground (arith, eq_iff j run.id)) (values-get d h.2),
)

-- What holds of every listed run holds of a run that is found.
pub All-get :
    (P : RunRecord → Type 0) (d : Dict RunRecord) (k : String) (run : RunRecord)
    → All P (values d)
    → get d k ≡ some run
    → P run
unfolding get
All-get P [] k run h e = absurd (cc)
All-get P ((j, old) ∷ d) k run h e = elim (Bool-cases (str_eq j k)) [
  | inl same ↦ subst P (ground arith) h.0
  | inr other ↦ All-get P d k run h.1 (ground arith)
]

-- The last of the runs with this id.
last_with : String → List RunRecord → Option RunRecord
last_with k [] = none
last_with k (run ∷ rest) = elim (last_with k rest) [
  | some r ↦ some r
  | none ↦ if str_eq run.id k then some run else none
]

module _ (change : RunRecord → RunRecord) where
  get-write_each :
      (rs : List RunRecord) (s : RunStore) (k : String)
      → get (write_each change rs s).runs k
        ≡ (elim (last_with k rs) [ some r ↦ some (change r) | none ↦ get s.runs k ])
  unfolding write_each last_with
  get-write_each [] s k = refl
  get-write_each (run ∷ rest) s k = ground (
    arith,
    get-write_each rest (write_run s run.id (change run)) k,
    get-put s.runs run.id k (change run),
  )

  pub decisions-write_each :
      (rs : List RunRecord) (s : RunStore) → (write_each change rs s).decisions ≡ s.decisions
  unfolding write_each
  decisions-write_each [] s = refl
  decisions-write_each (run ∷ rest) s = decisions-write_each rest _

  pub write_each-IsKeyed :
      (rs : List RunRecord) (s : RunStore)
      → ((run : RunRecord) → (change run).id ≡ run.id)
      → IsKeyed s.runs
      → IsKeyed (write_each change rs s).runs
  unfolding write_each
  write_each-IsKeyed [] s keeps h = h
  write_each-IsKeyed (run ∷ rest) s keeps h =
      write_each-IsKeyed rest _ keeps (put-IsKeyed s.runs run.id (change run) (keeps run) h)

module _ (test : RunRecord → Bool) where
  last_with-select :
      (d : Dict RunRecord) (k : String)
      → IsKeyed d
      → last_with k (select test (values d))
        ≡ (elim (get d k) [ none ↦ none | some r ↦ if test r then some r else none ])
  unfolding last_with get
  last_with-select [] k h = refl
  last_with-select ((j, old) ∷ d) k h =
      ground (arith, last_with-select d k h.2, eq_iff j k, eq_iff old.id k, eq_iff j old.id)

-- One pass over the table: the runs that pass the test are changed, and no other.
pub get-pass :
    (test : RunRecord → Bool) (change : RunRecord → RunRecord) (s : RunStore) (k : String)
    → IsKeyed s.runs
    → get (write_each change (select test (values s.runs)) s).runs k
      ≡ (elim (get s.runs k) [ none ↦ none | some r ↦ some (if test r then change r else r) ])
get-pass test change s k h = ground (
  arith,
  get-write_each change (select test (values s.runs)) s k,
  last_with-select test s.runs k h,
)
