-- ===== src/Engine/Tools/Guard.antt =====
-- The guard on writes, after any registrations.
use navigator_orchestrator_a.Prelude.{
  String, true, false, ◌≡◌, ◌≢◌, some, List, [], ◌∷◌, arith, get, get-put, eq_iff,
}
use navigator_orchestrator_a.Engine.State.{ok}
use navigator_orchestrator_a.Engine.Tools.{
  ToolSpec, ToolRegistry, register_tool, get_tool, require_writable,
}

-- Every registration in turn; one that is refused changes nothing.
unfoldable pub register_tools : List ToolSpec → ToolRegistry → ToolRegistry
register_tools [] tools = tools
register_tools (t ∷ ts) tools = register_tools ts (register_tool t tools).1

register_tool-kept :
    (t found : ToolSpec) (tools : ToolRegistry) (name : String)
    → get tools name ≡ some found
    → get (register_tool t tools).1 name ≡ some found
unfolding register_tool
register_tool-kept t found tools name e =
    ground (arith, eq_iff t.name name, get-put tools t.name name t)

register_tools-kept :
    (ts : List ToolSpec) (found : ToolSpec) (tools : ToolRegistry) (name : String)
    → get tools name ≡ some found
    → get (register_tools ts tools) name ≡ some found
unfolding register_tools
register_tools-kept [] found tools name e = e
register_tools-kept (t ∷ ts) found tools name e =
    register_tools-kept ts found (register_tool t tools).1 name
      (register_tool-kept t found tools name e)

-- A tool that was registered as read-only is never handed out for writing, and one that was
-- registered as writable always is, itself: no later registration under its name replaces it.
pub require_writable-register_tool :
    (t : ToolSpec) (ts : List ToolSpec) (tools : ToolRegistry)
    → (register_tool t tools).0 ≡ ok tt
    → let r = require_writable t.name (register_tools ts (register_tool t tools).1) in
      ((t.writable ≡ true → r ≡ ok t) × (t.writable ≡ false → (s : ToolSpec) → r ≢ ok s))
unfolding require_writable get_tool register_tool
require_writable-register_tool t ts tools e =
    let put_there : get (register_tool t tools).1 t.name ≡ some t =
      ground (arith, eq_iff t.name t.name, get-put tools t.name t.name t) in
    let found = register_tools-kept ts t (register_tool t tools).1 t.name put_there in
    (λ w. ground (arith, found), λ w s q. ground (arith, found))
