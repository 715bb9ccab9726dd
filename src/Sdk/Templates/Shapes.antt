-- ===== src/Sdk/Templates/Shapes.antt =====
-- What the constructors of sdk/templates.py refuse: a template's step names are distinct, and what
-- a step that is accepted looks like.
use navigator_orchestrator_a.Prelude.{
  String, ◌≡◌, refl, ◌↔◌, false, none, List, [], ◌∷◌, map, arith, one_of, eq_iff, All,
}
use navigator_orchestrator_a.Sdk.Templates.{Step, Template, hook_names, repeated, template_error}

-- No name is there twice.
abbrev pub IsDistinct : List String → Type 0
IsDistinct [] = Unit
IsDistinct (n ∷ ns) = (one_of n ns ≡ false) × IsDistinct ns

abbrev Unseen : List String → List Step → Type 0
Unseen seen = All (λ s. one_of s.name seen ≡ false)

Unseen-tail :
    (n : String) (seen : List String) (steps : List Step)
    → Unseen (n ∷ seen) steps
    → (one_of n (map (λ s. s.name) steps) ≡ false) × Unseen seen steps
Unseen-tail n seen [] h = (refl, tt)
Unseen-tail n seen (s ∷ steps) h =
    let (apart, rest) = Unseen-tail n seen steps h.1 in
    let here = h.0 in (ground (arith, eq_iff n s.name, eq_iff s.name n), (ground arith, rest))

Unseen-cons :
    (n : String) (seen : List String) (steps : List Step)
    → one_of n (map (λ s. s.name) steps) ≡ false
    → Unseen seen steps
    → Unseen (n ∷ seen) steps
Unseen-cons n seen [] apart h = tt
Unseen-cons n seen (s ∷ steps) apart h =
    let here = h.0 in
    (ground (arith, eq_iff n s.name, eq_iff s.name n), Unseen-cons n seen steps (ground arith) h.1)

repeated_sound :
    (seen : List String) (steps : List Step)
    → repeated seen steps ≡ none
    → Unseen seen steps × IsDistinct (map (λ s. s.name) steps)
unfolding repeated
repeated_sound seen [] e = (tt, tt)
repeated_sound seen (s ∷ steps) e =
    let here : one_of s.name seen ≡ false = ground arith in
    let later : repeated (s.name ∷ seen) steps ≡ none = ground arith in
    let (unseen, distinct) = repeated_sound (s.name ∷ seen) steps later in
    let (apart, rest) = Unseen-tail s.name seen steps unseen in ((here, rest), (apart, distinct))

repeated_complete :
    (seen : List String) (steps : List Step)
    → Unseen seen steps
    → IsDistinct (map (λ s. s.name) steps)
    → repeated seen steps ≡ none
unfolding repeated
repeated_complete seen [] u d = refl
repeated_complete seen (s ∷ steps) u d =
    let here = u.0 in
    let ih = repeated_complete (s.name ∷ seen) steps (Unseen-cons s.name seen steps d.0 u.1) d.1 in
    ground arith

-- Nothing has been seen before the first step.
Unseen-empty : (steps : List Step) → Unseen [] steps
Unseen-empty [] = tt
Unseen-empty (s ∷ steps) = (refl, Unseen-empty steps)

-- A template is accepted exactly when no two of its steps have one name.
pub template_error-IsDistinct :
    (t : Template) → (template_error t ≡ none) ↔ IsDistinct (hook_names t)
unfolding template_error hook_names
template_error-IsDistinct t = (
  (λ e. (repeated_sound [] t.steps e).1),
  (λ d. repeated_complete [] t.steps (Unseen-empty t.steps) d),
)
