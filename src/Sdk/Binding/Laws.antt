-- ===== src/Sdk/Binding/Laws.antt =====
-- What a hook is called with, when `bind_kwargs` calls it.
use navigator_orchestrator_a.Prelude.{String, ◌≡◌, ◌⊎◌, none, Dict, get, Value}

-- Everything that is bound is what the pool has under that name.
abbrev FromPool : Dict Value → Dict Value → Type 0
FromPool bound available = (k : String) → (get bound k ≡ none) ⊎ (get bound k ≡ get available k)
