-- ===== src/Store/RunLog/Tests.antt =====
-- The run log on a small input, and its theorem there.
use navigator_orchestrator_a.Prelude.{String, ◌≡◌, refl, none, List, [], ◌∷◌, get, put}
use navigator_orchestrator_a.Store.RunLog.{Line, read, entry_of, append, append_all}

abbrev line : String → String → Line
line run_id status = record {
  run_id = run_id;
  workflow = "kyc";
  status = status;
  step = none;
  detail = [];
  at = 4;
}

abbrev calls : List Line
calls = line "a" "started" ∷ line "b" "started" ∷ line "a" "completed" ∷ []

two_entries :
    read (append_all calls []) "a"
    ≡ entry_of 1 (line "a" "started") ∷ entry_of 2 (line "a" "completed") ∷ []
unfolding append_all append read get put
two_entries = refl
