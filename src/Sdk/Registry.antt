-- ===== src/Sdk/Registry.antt =====
-- sdk/registry.py: the implementations that a step's `uses` names. The module's dictionary is
-- passed along; whether two callables are one object (`is`) is an argument of the registration.
use navigator_orchestrator_a.Prelude.{
  String, Bool, if◌then◌else◌, none, some, [], Dict, get, put, keys, join, repr, join_all, sort_by,
  str_lt, ◌∷◌,
}
use navigator_orchestrator_a.Sdk.Context.{Hook, Result, ok, err, raised, value_error, some_error}

-- `well_formed` is NAME.match(name); the registration of another callable is refused.
unfoldable pub register_implementation :
    (Hook → Hook → Bool) → (String → Bool) → String → Hook → Dict Hook → Result Hook × Dict Hook
register_implementation is well_formed name fn implementations =
    if well_formed name
    then elim (get implementations name) [
      | none ↦ (ok fn, put implementations name fn)
      | some existing ↦ if is existing fn then (ok fn, put implementations name fn) else (
        err (
            raised value_error "ValueError" (
              join "implementation " (
                join (repr name)
                  (join " is already registered (by " (join existing.module_name ")"))))),
        implementations,
      )
    ]
    else (
      err (
          raised value_error "ValueError" (
            join (repr name)
              " is not a valid implementation name; expected 'namespace.verb' in lowercase, e.g. 'client.draft'")),
      implementations,
    )

-- " (registered: …)"
listed : Dict Hook → String
listed [] = " (registered: none)"
listed (e ∷ d) = join " (registered: " (join (join_all ", " (sort_by str_lt (keys (e ∷ d)))) ")")

-- `str` of a KeyError is the `repr` of its message.
unfoldable pub resolve_uses : String → Dict Hook → Result Hook
unfolding listed
resolve_uses name implementations = elim (get implementations name) [
  | some fn ↦ ok fn
  | none ↦ err (
      raised some_error "UnknownImplementationError"
        (repr (join "unknown implementation " (join (repr name) (listed implementations)))))
]
