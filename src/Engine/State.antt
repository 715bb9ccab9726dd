-- ===== src/Engine/State.antt =====
-- src/navigator_orchestrator/engine/state.py: the edge contracts, the initial state, and what a
-- run raises. A Pydantic model is its name, its validation and its dumps (the library's, so
-- parameters); an instance of it is its fields.
use navigator_orchestrator_a.Prelude.{
  ◌≡◌, refl, ◌⊎◌, inl, inr, String, List, [], ◌∷◌, map, Dict, Value, nil, str, arr, obj, fields_of,
  items_of,
}

-- One entry of `ValidationError.errors()`, without the keys that are not put on the wire.
pub record ErrorEntry : Type 0 where
  pub loc : List Value
  pub msg : String
  pub kind : String

-- ContractError, with its direction, model name and errors; any other exception, by the name of
-- its type and its text.
pub data Exn : Type 0 where
  contract_error : String → String → List Value → Exn
  raised : String → String → Exn

pub data Result {ℓ} (A : Type ℓ) : Type ℓ where
  ok : A → Result A
  err : Exn → Result A

pub Result-cases {ℓ} :
    {A : Type ℓ} (r : Result A) → ((a : A) × (r ≡ ok a)) ⊎ ((e : Exn) × (r ≡ err e))
Result-cases (ok a) = inl (a, refl)
Result-cases (err e) = inr (e, refl)

-- What `model_validate` gives: an instance's fields, or the entries of the ValidationError.
pub data Validated : Type 0 where
  instance_of : Dict Value → Validated
  invalid : List ErrorEntry → Validated

pub record Contract : Type 0 where
  pub model_name : String
  pub model_validate : Value → Validated
  pub model_dump : Dict Value → Dict Value
  pub model_dump_json : Dict Value → Dict Value

serializable_error : ErrorEntry → Value
serializable_error e =
    obj (fields_of (("loc", arr (items_of e.loc)) ∷ ("msg", str e.msg) ∷ ("type", str e.kind) ∷ []))

unfoldable pub serializable_errors : List ErrorEntry → List Value
unfolding serializable_error
serializable_errors = map serializable_error

-- validate_input and validate_output, for the direction "input" or "output"
unfoldable pub validate : String → Contract → Value → Result (Dict Value)
unfolding serializable_errors
validate direction model raw = elim (model.model_validate raw) [
  | instance_of fields ↦ ok fields
  | invalid errors ↦ err (contract_error direction model.model_name (serializable_errors errors))
]

-- ContractError.as_payload
unfoldable pub as_payload : String → String → List Value → Dict Value
as_payload direction model_name errors =
    ("error", str "contract_error")
    ∷ ("direction", str direction)
    ∷ ("contract", str model_name)
    ∷ ("detail", arr (items_of errors))
    ∷ []

-- new_state(input=...): no messages, and the scratch
unfoldable pub new_state : Dict Value → Dict Value
new_state scratch = ("messages", arr nil) ∷ ("scratch", obj (fields_of scratch)) ∷ []
