-- ===== src/Sdk/Calls/Filling.antt =====
-- What a substituted call has become.
use navigator_orchestrator_a.Prelude.{String, ◌≡◌, none, some, List, [], ◌∷◌, Dict, Value}
use navigator_orchestrator_a.Sdk.Context.{ok}
use navigator_orchestrator_a.Sdk.Calls.Quoting.{quote}
use navigator_orchestrator_a.Sdk.Calls.Placeholders.{placeholder}
use navigator_orchestrator_a.Sdk.Calls.{value_of, text_of}

-- A segment that is no placeholder stays, and a placeholder gives the one segment that is its quoted
-- value.
pub data Filled (show : Value → String) (pool : Dict Value)
    : List String → List String → Type 0 where
  nothing : Filled show pool [] []
  literal :
      (part : String) (parts segments : List String)
      → placeholder part ≡ none
      → Filled show pool parts segments
      → Filled show pool (part ∷ parts) (part ∷ segments)
  filled :
      (part name : String) (value : Value) (parts segments : List String)
      → placeholder part ≡ some name
      → value_of pool name ≡ ok value
      → Filled show pool parts segments
      → Filled show pool (part ∷ parts) (quote (text_of show value) ∷ segments)
