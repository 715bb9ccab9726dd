-- ===== src/Store/Memory/Listing.antt =====
-- `list_runs`: the reviewer queue.
use mathlib.Core.List.{Perm}
use navigator_orchestrator_a.Prelude.{
  ℕ, zero, suc, ◌≤◌, ◌<◌, String, Bool, ◌&&◌, ◌≡◌, refl, true, false, Option, none, some, List, [],
  ◌∷◌, ◌++◌, arith, subst, select, take, str_eq, key_lt, drop, take-append-drop, length,
  length-take, sort_by, sort_by-perm, sort_by-IsSorted, IsSorted, IsStrictOrder, key_lt_asym,
  key_lt_trans_not, values, sym,
}
use navigator_orchestrator_a.Store.Models.{RunRecord, RunState, same_state}
use navigator_orchestrator_a.Store.Memory.{RunStore, list_runs, newer, selected}

module _ (a b : RunRecord) where
  newer_asym : newer a b ≡ true → newer b a ≡ false
  unfolding newer
  newer_asym = key_lt_asym b.updated_at b.id a.updated_at a.id

  newer_trans_not : (c : RunRecord) → newer b a ≡ false → newer c b ≡ false → newer c a ≡ false
  unfolding newer
  newer_trans_not c p q = key_lt_trans_not c.updated_at c.id b.updated_at b.id a.updated_at a.id q p

newer-IsStrictOrder : IsStrictOrder newer
newer-IsStrictOrder = record { asym = newer_asym; trans_not = newer_trans_not }

-- The run is of the workflow and in the state that were asked for, where they were.
unfoldable pub asked : Option String → Option RunState → RunRecord → Bool
asked none none run = true
asked (some w) none run = str_eq run.workflow w
asked none (some st) run = same_state run.state st
asked (some w) (some st) run = str_eq run.workflow w && same_state run.state st

selected-asked :
    (workflow : Option String) (state : Option RunState) (run : RunRecord)
    → selected workflow state run ≡ asked workflow state run
unfolding selected asked
selected-asked none none run = refl
selected-asked (some w) none run = ground arith
selected-asked none (some st) run = refl
selected-asked (some w) (some st) run = refl

select-asked :
    (workflow : Option String) (state : Option RunState) (runs : List RunRecord)
    → select (selected workflow state) runs ≡ select (asked workflow state) runs
select-asked workflow state [] = refl
select-asked workflow state (run ∷ runs) =
    ground (arith, selected-asked workflow state run, select-asked workflow state runs)

drop-short : (n : ℕ) (runs : List RunRecord) → length (take n runs) < n → drop n runs ≡ []
drop-short zero runs short = absurd (omega arith)
drop-short (suc n) [] short = refl
drop-short (suc n) (run ∷ runs) short = drop-short n runs (omega arith)

-- Updated later, or at the same time and of the later id.
abbrev pub fresher : RunRecord → RunRecord → Bool
fresher a b = key_lt b.updated_at b.id a.updated_at a.id

-- What a listing is, of the runs that match the filters: with the runs that the limit cut off, an
-- arrangement of all of them, newest first; and the limit cuts off none before it is reached.
pub record Listing (workflow : Option String) (state : Option RunState) (limit : ℕ) (s : RunStore)
    (listed : List RunRecord) : Type 0 where
  pub cut : List RunRecord
  pub all : Perm (listed ++ cut) (select (asked workflow state) (values s.runs))
  pub newest_first : IsSorted fresher (listed ++ cut)
  pub bounded : length listed ≤ limit
  pub full : length listed < limit → cut ≡ []

-- The reviewer queue is the newest `limit` of exactly the runs that match the filters: the later
-- `updated_at` first, and the greater id first where these are equal; all of them when they are
-- fewer than `limit`.
pub list_runs-Listing :
    (workflow : Option String) (state : Option RunState) (limit : ℕ) (s : RunStore)
    → Listing workflow state limit s (list_runs workflow state limit s)
unfolding list_runs newer
list_runs-Listing workflow state limit s =
    let found = select (selected workflow state) (values s.runs) in
    let sorted = sort_by newer found in
    let whole = sym (take-append-drop limit sorted) in
    record {
      cut = drop limit sorted;
      all =
          subst (λ l. Perm (take limit sorted ++ drop limit sorted) l)
            (select-asked workflow state (values s.runs))
            (subst (λ l. Perm l found) whole (sort_by-perm newer found));
      newest_first =
          subst (IsSorted newer) whole (sort_by-IsSorted newer newer-IsStrictOrder found);
      bounded = omega (arith, length-take limit sorted);
      full = drop-short limit sorted;
    }
