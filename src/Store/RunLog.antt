-- ===== src/Store/RunLog.antt =====
-- InMemoryRunLogStore of store/run_log.py: the entries of each run, whose `seq` the store assigns
-- under its lock. The clock's reading is an argument.
pub mod Numbering
mod Tests
use navigator_orchestrator_a.Prelude.{
  ℕ, ◌+◌, String, Option, none, some, List, [], ◌∷◌, ◌++◌, length, Dict, get, put, Value,
}

pub record RunLogEntry : Type 0 where
  pub run_id : String
  pub seq : ℕ
  pub workflow : String
  pub step : Option String
  pub status : String
  pub at : ℕ
  pub detail : Dict Value

abbrev pub RunLog : Type 0
RunLog = Dict (List RunLogEntry)

-- self._entries.get(run_id, ())
unfoldable pub read : RunLog → String → List RunLogEntry
read log run_id = elim (get log run_id) [ none ↦ [] | some entries ↦ entries ]

-- The keyword arguments of `append`, and the clock's reading.
pub record Line : Type 0 where
  pub run_id : String
  pub workflow : String
  pub status : String
  pub step : Option String
  pub detail : Dict Value
  pub at : ℕ

unfoldable pub entry_of : ℕ → Line → RunLogEntry
entry_of seq line = record {
  run_id = line.run_id;
  seq = seq;
  workflow = line.workflow;
  step = line.step;
  status = line.status;
  at = line.at;
  detail = line.detail;
}

-- The new entry and the new log.
unfoldable pub append : Line → RunLog → RunLogEntry × RunLog
unfolding read
append line log =
    let entries = read log line.run_id in
    let entry = entry_of (length entries + 1) line in
    (entry, put log line.run_id (entries ++ entry ∷ []))

unfoldable pub append_all : List Line → RunLog → RunLog
append_all [] log = log
append_all (line ∷ lines) log = append_all lines (append line log).1
