-- ===== src/Sdk/Catalog.antt =====
-- TemplateRegistry of sdk/templates.py: the templates by name.
pub mod Registration
use navigator_orchestrator_a.Prelude.{
  String, Option, none, some, List, [], ◌∷◌, Dict, get, put, keys, join, join_all, repr, sort_by,
  str_lt,
}
use navigator_orchestrator_a.Sdk.Context.{raised, value_error, some_error, Result, ok, err}
use navigator_orchestrator_a.Sdk.Templates.{Template}

abbrev pub TemplateRegistry : Type 0
TemplateRegistry = Dict Template

unfoldable pub register : Template → TemplateRegistry → Result Template × TemplateRegistry
register template templates = elim (get templates template.name) [
  | some found ↦ (
    err (
        raised value_error "ValueError"
          (join "template " (join (repr template.name) " is already registered"))),
    templates,
  )
  | none ↦ (ok template, put templates template.name template)
]

unfoldable pub names : TemplateRegistry → List String
names templates = sort_by str_lt (keys templates)

-- ", ".join(self.names()) or "none"
known : TemplateRegistry → String
unfolding names
known [] = "none"
known (e ∷ templates) = join_all ", " (names (e ∷ templates))

-- `str` of a KeyError is the `repr` of its message.
unfoldable pub get_template : String → TemplateRegistry → Result Template
unfolding known
get_template name templates = elim (get templates name) [
  | some template ↦ ok template
  | none ↦ err (
      raised some_error "UnknownTemplateError" (
        repr (
          join "unknown workflow "
            (join (repr name) (join " (registered: " (join (known templates) ")"))))))
]
