-- ===== src/Sdk/Binding.antt =====
-- sdk/binding.py: the keyword arguments that a hook is called with.
pub mod Laws
use navigator_orchestrator_a.Prelude.{
  String, Bool, true, false, if◌then◌else◌, ◌||◌, Option, none, some, List, [], ◌∷◌, any, Dict, get,
  put, has, Value, join, repr,
}
use navigator_orchestrator_a.Sdk.Context.{
  Hook, Parameter, Kind, positional_only, positional_or_keyword, var_positional, keyword_only,
  var_keyword, Exn, raised, some_error, Result, ok, err,
}

is_var_keyword : Kind → Bool
is_var_keyword var_keyword = true
is_var_keyword _ = false

is_named : Kind → Bool
is_named positional_or_keyword = true
is_named keyword_only = true
is_named _ = false

-- takes_var_keyword
unfoldable pub takes_var_keyword : Hook → Bool
unfolding is_var_keyword
takes_var_keyword fn = any (λ p. is_var_keyword p.kind) fn.parameters

-- The parameters that a keyword can name.
named : List Parameter → List Parameter
unfolding is_named
named [] = []
named (p ∷ ps) = let rest = named ps in if is_named p.kind then p ∷ rest else rest

-- Without the first one, `ctx`, unless it is keyword-only.
without_ctx : List Parameter → List Parameter
without_ctx [] = []
without_ctx (p ∷ ps) = elim p.kind [ positional_or_keyword ↦ ps | _ ↦ p ∷ ps ]

unfoldable pub declared_parameters : Hook → List Parameter
unfolding named without_ctx
declared_parameters fn = without_ctx (named fn.parameters)

-- {name: available[name] for name in allowed if name in available}
unfoldable pub pick : List String → Dict Value → Dict Value → Dict Value
pick [] available bound = bound
pick (name ∷ names) available bound =
    pick names available (elim (get available name) [ none ↦ bound | some v ↦ put bound name v ])

-- The loop over the declared parameters.
unfoldable pub bind_each : String → List Parameter → Dict Value → Dict Value → Result (Dict Value)
bind_each fn_name [] available bound = ok bound
bind_each fn_name (p ∷ ps) available bound = elim (get available p.name) [
  | some v ↦ bind_each fn_name ps available (put bound p.name v)
  | none ↦ elim p.has_default [
    | true ↦ bind_each fn_name ps available bound
    | false ↦ err (
        raised some_error "BindingError" (
          join fn_name
            (join "() requires " (join (repr p.name) ", which the engine cannot supply here"))))
  ]
]

unfoldable pub bind_kwargs : Hook → Dict Value → List String → Result (Dict Value)
unfolding takes_var_keyword declared_parameters
bind_kwargs fn available allowed =
    if takes_var_keyword fn
    then ok (pick allowed available [])
    else bind_each fn.fn_name (declared_parameters fn) available []
