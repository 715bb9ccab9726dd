-- ===== src/Engine/Workflows/Registration.antt =====
-- The registry keeps what it registered, each workflow with its source.
use navigator_orchestrator_a.Prelude.{
  String, ◌≡◌, refl, ◌∙◌, Option, none, some, List, [], ◌∷◌, arith, get, get-put, has, join, eq_iff,
}
use navigator_orchestrator_a.Prelude.Splitting.{has_text-colon}
use navigator_orchestrator_a.Engine.State.{ok}
use navigator_orchestrator_a.Engine.Workflows.{
  Workflow, WorkflowSource, python, make_source, python_source, source_of, Registry, empty_registry,
  register, get_workflow, source,
}

unfoldable pub register_all : List (Workflow × Option WorkflowSource) → Registry → Registry
register_all [] r = r
register_all ((w, given) ∷ ws) r = register_all ws (register w given r).1

register-kept :
    (w found : Workflow) (given : Option WorkflowSource) (r : Registry) (name : String)
    → get r.workflows name ≡ some found
    → get (register w given r).1.workflows name ≡ some found
unfolding register
register-kept w found given r name e =
    ground (arith, eq_iff w.name name, get-put r.workflows w.name name w)

register_all-kept :
    (ws : List (Workflow × Option WorkflowSource)) (found : Workflow) (r : Registry) (name : String)
    → get r.workflows name ≡ some found
    → get (register_all ws r).workflows name ≡ some found
unfolding register_all
register_all-kept [] found r name e = e
register_all-kept ((w, given) ∷ ws) found r name e =
    register_all-kept ws found (register w given r).1 name (register-kept w found given r name e)

register-get :
    (w : Workflow) (given : Option WorkflowSource) (r : Registry)
    → (register w given r).0 ≡ ok w
    → get (register w given r).1.workflows w.name ≡ some w
unfolding register
register-get w given r e = ground (arith, eq_iff w.name w.name, get-put r.workflows w.name w.name w)

-- The source that a registration is to keep: the one that was given, or else the name of the class,
-- as a Python source without a text.
unfoldable pub source_for : Workflow → Option WorkflowSource → WorkflowSource
source_for w (some given) = given
source_for w none = record {
  kind = python;
  logical_name = join w.type_module (join ":" w.type_name);
  source_text = none;
}

source_of-source_for :
    (w : Workflow) (given : Option WorkflowSource) → source_of w given ≡ ok (source_for w given)
unfolding source_of source_for python_source make_source
source_of-source_for w (some given) = refl
source_of-source_for w none = rw (has_text-colon w.type_module w.type_name) refl

register-get_source :
    (w : Workflow) (given : Option WorkflowSource) (r : Registry)
    → (register w given r).0 ≡ ok w
    → get (register w given r).1.sources w.name ≡ some (source_for w given)
unfolding register
register-get_source w given r e = ground (
  arith,
  eq_iff w.name w.name,
  source_of-source_for w given,
  get-put r.sources w.name w.name (source_for w given),
)

register-source_kept :
    (w found : Workflow) (given : Option WorkflowSource) (r : Registry) (name : String)
    → get r.workflows name ≡ some found
    → get (register w given r).1.sources name ≡ get r.sources name
unfolding register has
register-source_kept w found given r name e = ground (
  arith,
  eq_iff w.name name,
  source_of-source_for w given,
  get-put r.sources w.name name (source_for w given),
)

register_all-source_kept :
    (ws : List (Workflow × Option WorkflowSource)) (found : Workflow) (r : Registry) (name : String)
    → get r.workflows name ≡ some found
    → get (register_all ws r).sources name ≡ get r.sources name
unfolding register_all
register_all-source_kept [] found r name e = refl
register_all-source_kept ((w, given) ∷ ws) found r name e =
    register_all-source_kept ws found (register w given r).1 name
      (register-kept w found given r name e)
    ∙ register-source_kept w found given r name e

-- In a registry that is made by registrations alone, a workflow that was registered without an
-- error is what its name gives whatever is registered after it, and its source is found: exactly
-- the one that was given with it, or, when none was, a Python source without a text, under the name
-- of the workflow's class.
pub source-register :
    (before after : List (Workflow × Option WorkflowSource)) (w : Workflow)
    (given : Option WorkflowSource)
    → (register w given (register_all before empty_registry)).0 ≡ ok w
    → let r = register_all after (register w given (register_all before empty_registry)).1 in
      (get_workflow w.name r ≡ ok w) × (source w.name r ≡ ok (source_for w given))
unfolding get_workflow source
source-register before after w given e =
    let r0 = register_all before empty_registry in
    let r1 = (register w given r0).1 in
    let r = register_all after r1 in
    let stored = register-get w given r0 e in
    let found = register_all-kept after w r1 w.name stored in
    let there =
      register_all-source_kept after w r1 w.name stored ∙ register-get_source w given r0 e in
    (ground arith, ground arith)
