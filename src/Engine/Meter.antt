-- ===== src/Engine/Meter.antt =====
-- The cost meter of src/navigator_orchestrator/engine/observability.py. A price is in dollars for
-- a million tokens, so a cost is a whole number of millionths of a dollar; the source divides it
-- by a million into a float.
use navigator_orchestrator_a.Prelude.{
  ℕ, ◌+◌, ◌*◌, String, Option, none, some, List, [], ◌∷◌, select, if◌then◌else◌, Dict, get,
  join_all, split_at, str_eq,
}

pub record Usage : Type 0 where
  pub input_tokens : ℕ
  pub output_tokens : ℕ

abbrev pub no_usage : Usage
no_usage = record { input_tokens = 0; output_tokens = 0 }

unfoldable pub plus : Usage → Usage → Usage
plus a b = record {
  input_tokens = a.input_tokens + b.input_tokens;
  output_tokens = a.output_tokens + b.output_tokens;
}

pub record CostEntry : Type 0 where
  pub run_id : String
  pub workflow : String
  pub model : String
  pub usage : Usage
  pub cost_micros : Option ℕ

-- _PRICES
abbrev pub prices : Dict (ℕ × ℕ)
prices =
    ("claude-fable-5", (10, 50))
    ∷ ("claude-mythos-5", (10, 50))
    ∷ ("claude-opus-5", (5, 25))
    ∷ ("claude-opus-4-8", (5, 25))
    ∷ ("claude-opus-4-7", (5, 25))
    ∷ ("claude-sonnet-5", (3, 15))
    ∷ ("claude-sonnet-4-6", (3, 15))
    ∷ ("claude-haiku-4-5", (1, 5))
    ∷ []

-- s.removeprefix("anthropic."): the text up to the first dot, with the rest put back
remove_vendor : String → String
remove_vendor s = elim (split_at b'.' s) [
  | [] ↦ s
  | head ∷ [] ↦ s
  | head ∷ p ∷ ps ↦ if str_eq head "anthropic" then join_all "." (p ∷ ps) else s
]

-- model.split(":", 1)[-1]
after_colon : String → String
after_colon s = elim (split_at b':' s) [
  | [] ↦ s
  | head ∷ [] ↦ s
  | head ∷ p ∷ ps ↦ join_all ":" (p ∷ ps)
]

unfoldable pub estimate_cost : String → Usage → Option ℕ
unfolding remove_vendor after_colon
estimate_cost model usage = elim (get prices (remove_vendor (after_colon model))) [
  | none ↦ none
  | some (per_input, per_output) ↦
      some (usage.input_tokens * per_input + usage.output_tokens * per_output)
]

-- CostMeter.record: the entry that it appends
unfoldable pub cost_entry : String → String → String → Usage → CostEntry
unfolding estimate_cost
cost_entry run_id workflow model usage = record {
  run_id = run_id;
  workflow = workflow;
  model = model;
  usage = usage;
  cost_micros = estimate_cost model usage;
}

unfoldable pub for_run : String → List CostEntry → List CostEntry
for_run run_id entries = select (λ e. str_eq e.run_id run_id) entries
