-- ===== src/Store/RunLog/Numbering.antt =====
-- What a run's log holds after any calls of `append`, for whatever runs.
use navigator_orchestrator_a.Prelude.{ℕ, suc, String, Bool, List, [], ◌∷◌, str_eq}
use navigator_orchestrator_a.Store.RunLog.{RunLog, RunLogEntry, Line, entry_of}

-- The entries of these lines, numbered from `n` on.
unfoldable pub numbered : ℕ → List Line → List RunLogEntry
numbered n [] = []
numbered n (line ∷ lines) = entry_of n line ∷ numbered (suc n) lines

abbrev pub of_run : String → Line → Bool
of_run k line = str_eq line.run_id k
