-- ===== src/Engine/Tools.antt =====
-- src/navigator_orchestrator/engine/tools.py: the tools by name, and the guard on writes. What a
-- tool does when it is called is not modelled.
pub mod Guard
use navigator_orchestrator_a.Prelude.{
  String, Bool, true, false, ◌||◌, not, if◌then◌else◌, Option, none, some, List, [], ◌∷◌, map, any,
  select, Dict, get, put, has, is_some, keys, join, repr, sort_by, str_lt,
}
use navigator_orchestrator_a.Engine.State.{Result, ok, err, raised}

pub data Capability : Type 0 where
  semantic graph relational document : Capability

unfoldable pub same_capability : Capability → Capability → Bool
same_capability semantic semantic = true
same_capability graph graph = true
same_capability relational relational = true
same_capability document document = true
same_capability _ _ = false

-- A tool, by its spec.
pub record ToolSpec : Type 0 where
  pub name : String
  pub description : String
  pub capabilities : List Capability
  pub writable : Bool

abbrev pub ToolRegistry : Type 0
ToolRegistry = Dict ToolSpec

unfoldable pub register_tool : ToolSpec → ToolRegistry → Result (Unit {0}) × ToolRegistry
register_tool tool tools =
    if has tools tool.name
    then (
      err (raised "ValueError" (join "tool " (join (repr tool.name) " is already registered"))),
      tools,
    )
    else (ok tt, put tools tool.name tool)

unfoldable pub get_tool : String → ToolRegistry → Result ToolSpec
get_tool name tools = elim (get tools name) [
  | some tool ↦ ok tool
  | none ↦ err (raised "KeyError" (repr (join "unknown tool " (repr name))))
]

unfoldable pub tool_names : ToolRegistry → List String
tool_names tools = sort_by str_lt (keys tools)

by_name : String × ToolSpec → String × ToolSpec → Bool
by_name a b = str_lt a.0 b.0

unfoldable pub offers : Capability → ToolSpec → Bool
unfolding same_capability
offers capability tool = any (same_capability capability) tool.capabilities

unfoldable pub by_capability : Capability → ToolRegistry → List ToolSpec
unfolding by_name offers
by_capability capability tools = select (offers capability) (map (λ e. e.1) (sort_by by_name tools))

unfoldable pub require_writable : String → ToolRegistry → Result ToolSpec
unfolding get_tool
require_writable name tools = elim (get_tool name tools) [
  | err e ↦ err e
  | ok tool ↦
      if not tool.writable
      then err (raised "WriteNotPermittedError" (join "tool " (join (repr name) " is read-only")))
      else ok tool
]
