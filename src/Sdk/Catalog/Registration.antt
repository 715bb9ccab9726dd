-- ===== src/Sdk/Catalog/Registration.antt =====
-- A template that is registered stays what it is.
use navigator_orchestrator_a.Prelude.{
  String, ◌≡◌, ◌∙◌, inl, inr, some, List, [], ◌∷◌, arith, Option-cases, Bool-cases, get, get-put,
  str_eq, eq_iff,
}
use navigator_orchestrator_a.Sdk.Context.{ok}
use navigator_orchestrator_a.Sdk.Templates.{Template}
use navigator_orchestrator_a.Sdk.Catalog.{TemplateRegistry, register, get_template}

-- Every registration in turn; one that is refused changes nothing.
unfoldable pub register_all : List Template → TemplateRegistry → TemplateRegistry
register_all [] templates = templates
register_all (t ∷ ts) templates = register_all ts (register t templates).1

register-kept :
    (t found : Template) (templates : TemplateRegistry) (name : String)
    → get templates name ≡ some found
    → get (register t templates).1 name ≡ some found
unfolding register
register-kept t found templates name e = elim (Option-cases (get templates t.name)) [
  | inl free ↦ elim (Bool-cases (str_eq t.name name)) [
    | inl same ↦ absurd (ground (arith, eq_iff t.name name))
    | inr apart ↦ rw (free, register) (get-put templates t.name name t ∙ rw apart e)
  ]
  | inr (u, taken) ↦ rw (taken, register) e
]

kept_all :
    (ts : List Template) (found : Template) (templates : TemplateRegistry) (name : String)
    → get templates name ≡ some found
    → get (register_all ts templates) name ≡ some found
unfolding register_all
kept_all [] found templates name e = e
kept_all (t ∷ ts) found templates name e =
    kept_all ts found (register t templates).1 name (register-kept t found templates name e)

register-get :
    (t : Template) (templates : TemplateRegistry)
    → (register t templates).0 ≡ ok t
    → get (register t templates).1 t.name ≡ some t
unfolding register
register-get t templates e = elim (Option-cases (get templates t.name)) [
  | inl free ↦
      rw (free, register) (get-put templates t.name t.name t ∙ ground (arith, eq_iff t.name t.name))
  | inr (u, taken) ↦ absurd (ground arith)
]

-- Registration never replaces: a template that was registered without an error is what its name
-- gives from then on, whatever is registered after it.
pub get_template-register :
    (t : Template) (ts : List Template) (templates : TemplateRegistry)
    → (register t templates).0 ≡ ok t
    → get_template t.name (register_all ts (register t templates).1) ≡ ok t
unfolding get_template
get_template-register t ts templates e =
    let found = kept_all ts t (register t templates).1 t.name (register-get t templates e) in
    ground (arith, found)
