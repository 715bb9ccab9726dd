-- ===== src/Engine/Policy.antt =====
-- src/navigator_orchestrator/engine/policy.py: the knobs of a run and the per-request overrides.
pub mod Overrides
mod Tests
use navigator_orchestrator_a.Prelude.{
  ℕ, zero, suc, ◌*◌, String, Bool, true, false, ◌&&◌, not, Option, none, some, List, [], ◌∷◌, ltb,
  leb, if◌then◌else◌, or_else, join_all, split_at,
}
use navigator_orchestrator_a.Engine.State.{Result, ok, err, raised}

power_of_two : ℕ → ℕ
power_of_two zero = 1
power_of_two (suc n) = 2 * power_of_two n

-- A float of the language: a sign and a mantissa over a power of two, an infinity, or a NaN.
pub data Float : Type 0 where
  -- negative, mantissa, exponent of the denominator
  finite : Bool → ℕ → ℕ → Float
  -- negative
  infinite : Bool → Float
  nan : Float

-- ge=0.0, le=2.0 (-0.0 is not below 0.0)
unfoldable pub temperature_ok : Float → Bool
unfolding power_of_two
temperature_ok (finite true mantissa exponent) = leb mantissa 0
temperature_ok (finite false mantissa exponent) = leb mantissa (2 * power_of_two exponent)
temperature_ok _ = false

-- gt=0
unfoldable pub positive : Float → Bool
positive (finite negative mantissa exponent) = not negative && ltb 0 mantissa
positive (infinite negative) = not negative
positive nan = false

pub data Effort : Type 0 where
  low medium high xhigh max : Effort

-- The fields with their types; `PolicyData` is the keywords of the constructor.
pub record Policy : Type 0 where
  pub model : String
  pub temperature : Option Float
  pub effort : Option Effort
  pub max_retries : ℕ
  pub timeout_s : Float
  pub budget_tokens : Option ℕ
  pub max_tokens : ℕ

unfoldable pub default_policy : Policy
default_policy = record {
  model = "fake:local";
  temperature = none;
  effort = none;
  max_retries = 2;
  timeout_s = finite false 60 0;
  budget_tokens = none;
  max_tokens = 4096;
}

-- `":" in value`: `split` gives two pieces or more
unfoldable pub has_prefix : String → Bool
has_prefix model = elim (split_at b':' model) [ p ∷ q ∷ rest ↦ true | _ ↦ false ]

-- The field constraints and the validator of `model`.
unfoldable pub satisfies : Policy → Bool
unfolding temperature_ok positive has_prefix
satisfies p =
    has_prefix p.model
    && (elim p.temperature [ none ↦ true | some t ↦ temperature_ok t ])
    && leb p.max_retries 10
    && positive p.timeout_s
    && (elim p.budget_tokens [ none ↦ true | some n ↦ ltb 0 n ])
    && ltb 0 p.max_tokens

-- Policy(**data)
unfoldable pub construct : Policy → Result Policy
unfolding satisfies
construct data_ = if satisfies data_ then ok data_ else err (raised "ValidationError" "")

-- model.split(":", 1)[0]
unfoldable pub provider : Policy → String
provider p = elim (split_at b':' p.model) [ [] ↦ "" | head ∷ rest ↦ head ]

-- model.split(":", 1)[1], of a policy that was constructed
unfoldable pub model_id : Policy → String
model_id p = elim (split_at b':' p.model) [ [] ↦ "" | head ∷ rest ↦ join_all ":" rest ]

unfoldable pub with_overrides : Policy → Option String → Option Float → Result Policy
unfolding construct
with_overrides base model temperature = construct (record base {
  model = or_else model base.model;
  temperature = elim temperature [ none ↦ base.temperature | some t ↦ some t ];
})
