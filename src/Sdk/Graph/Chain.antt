-- ===== src/Sdk/Graph/Chain.antt =====
-- The graph that `build_graph` makes is one chain: each step in the template's order, the judges
-- that hang on it right before and right after it.
use navigator_orchestrator_a.Prelude.{
  String, Bool, true, false, ◌&&◌, not, ◌≡◌, refl, sym, ap, subst, ◌∙◌, none, List, [], ◌∷◌, ◌++◌,
  map, append_assoc, append-nil, All, arith, eq_iff, one_of, str_eq, truncate, non_empty,
}
use navigator_orchestrator_a.Prelude.Splitting.{free}
use navigator_orchestrator_a.Sdk.Context.{Result, ok, err}
use navigator_orchestrator_a.Sdk.Templates.{Step, Template}
use navigator_orchestrator_a.Sdk.Templates.Shapes.{IsDistinct}
use navigator_orchestrator_a.Sdk.Events.{Origin}
use navigator_orchestrator_a.Sdk.Runner.{Setting}
use navigator_orchestrator_a.Sdk.Judge.{Judge, Model, node_name}
use navigator_orchestrator_a.Sdk.Graph.{
  Node, StateGraph, LangGraph, next, close_chain, start, end, add, add_judges, add_steps,
  attached_before, attached_after, make_node, make_judge_node, check_placements, build_graph,
}

-- The edges that lead from `previous` through the names, and the last of these.
abbrev pub path : String → List String → List (String × String)
path previous [] = []
path previous (n ∷ ns) = (previous, n) ∷ path n ns

abbrev pub last : String → List String → String
last previous [] = previous
last previous (n ∷ ns) = last n ns

-- The node of each judge.
judge_nodes : Origin → Model → List Judge → List (String × Node)
judge_nodes origin model [] = []
judge_nodes origin model (j ∷ js) =
    (node_name j, make_judge_node origin model j) ∷ judge_nodes origin model js

-- The nodes in the order in which a run passes them.
unfoldable pub plan : Origin → Setting → Model → List Judge → List Step → List (String × Node)
unfolding judge_nodes
plan origin setting model judges [] = []
plan origin setting model judges (step ∷ steps) =
    judge_nodes origin model (attached_before judges step.name)
    ++ ((step.name, make_node origin setting step)
        ∷ (judge_nodes origin model (attached_after judges step.name)
            ++ plan origin setting model judges steps))

abbrev names : List (String × Node) → List String
names = map (λ n. n.0)

path-append :
    (p : String) (xs ys : List String) → path p (xs ++ ys) ≡ path p xs ++ path (last p xs) ys
path-append p [] ys = refl
path-append p (x ∷ xs) ys = ap (λ l. (p, x) ∷ l) (path-append x xs ys)

last-append : (p : String) (xs ys : List String) → last p (xs ++ ys) ≡ last (last p xs) ys
last-append p [] ys = refl
last-append p (x ∷ xs) ys = last-append x xs ys

names-append : (xs ys : List (String × Node)) → names (xs ++ ys) ≡ names xs ++ names ys
names-append [] ys = refl
names-append (x ∷ xs) ys = ap (λ l. x.0 ∷ l) (names-append xs ys)

-- A name that LangGraph takes for a node: not empty, without the characters that it reserves, not
-- one of its own names, which begin with two underscores (START and END do), and not a key of the
-- state.
unfoldable pub plain_name : String → Bool
plain_name s =
    non_empty s
    && free b':' s
    && free b'|' s
    && not (str_eq (truncate 2 s) "__")
    && not (one_of s ("pool" ∷ "notes" ∷ "steps" ∷ []))

abbrev pub ArePlain : List String → Type 0
ArePlain names = All (λ s. plain_name s ≡ true) names

-- `add_node` takes a node of such a name that it has not got yet, behind those that it has.
abbrev pub TakesNodes : LangGraph → Type 0
TakesNodes langgraph =
    (ns : List (String × Node)) (name : String) (node : Node)
    → plain_name name ≡ true
    → one_of name (names ns) ≡ false
    → langgraph.add_node ns name node ≡ ok (ns ++ (name, node) ∷ [])

-- What a builder is left with, once it has added these nodes in turn.
abbrev grown : LangGraph → List (String × Node) → StateGraph × String → Result (StateGraph × String)
grown langgraph [] b = ok b
grown langgraph (n ∷ ns) b = next (add langgraph n.0 n.1 b) (grown langgraph ns)

next_assoc :
    (r : Result (StateGraph × String)) (f g : StateGraph × String → Result (StateGraph × String))
    → next (next r f) g ≡ next r (λ b. next (f b) g)
next_assoc (ok b) f g = refl
next_assoc (err e) f g = refl

next-ap :
    (r : Result (StateGraph × String)) (f g : StateGraph × String → Result (StateGraph × String))
    → ((b : StateGraph × String) → f b ≡ g b)
    → next r f ≡ next r g
next-ap (ok b) f g same = same b
next-ap (err e) f g same = refl

module _ (langgraph : LangGraph) where
  grown-append :
      (xs ys : List (String × Node)) (b : StateGraph × String)
      → grown langgraph (xs ++ ys) b ≡ next (grown langgraph xs b) (grown langgraph ys)
  grown-append [] ys b = refl
  grown-append (x ∷ xs) ys b =
      next-ap (add langgraph x.0 x.1 b) (grown langgraph (xs ++ ys))
        (λ c. next (grown langgraph xs c) (grown langgraph ys)) (grown-append xs ys)
      ∙ sym (next_assoc (add langgraph x.0 x.1 b) (grown langgraph xs) (grown langgraph ys))

  add_judges-grown :
      (origin : Origin) (model : Model) (js : List Judge) (b : StateGraph × String)
      → add_judges langgraph origin model js b ≡ grown langgraph (judge_nodes origin model js) b
  unfolding add_judges judge_nodes
  add_judges-grown origin model [] b = refl
  add_judges-grown origin model (j ∷ js) b =
      next-ap (add langgraph (node_name j) (make_judge_node origin model j) b) _ _
        (add_judges-grown origin model js)

  add_steps-grown :
      (origin : Origin) (setting : Setting) (model : Model) (judges : List Judge)
      (steps : List Step) (b : StateGraph × String)
      → add_steps langgraph origin setting model judges steps b
        ≡ grown langgraph (plan origin setting model judges steps) b
  unfolding add_steps plan
  add_steps-grown origin setting model judges [] b = refl
  add_steps-grown origin setting model judges (step ∷ steps) b =
      let before = attached_before judges step.name in
      let after = attached_after judges step.name in
      let rest = plan origin setting model judges steps in
      let place = add langgraph step.name (make_node origin setting step) in
      let front = grown langgraph (judge_nodes origin model before) b in
      let back = judge_nodes origin model after in
      let all_steps = add_steps langgraph origin setting model judges steps in
      ap (λ r. next (next (next r place) (add_judges langgraph origin model after)) all_steps)
        (add_judges-grown origin model before b)
      ∙ next-ap (next (next front place) (add_judges langgraph origin model after)) all_steps
          (grown langgraph rest) (add_steps-grown origin setting model judges steps)
      ∙ ap (λ r. next r (grown langgraph rest))
          (next-ap (next front place) (add_judges langgraph origin model after)
            (grown langgraph back) (add_judges-grown origin model after))
      ∙ next_assoc (next front place) (grown langgraph back) (grown langgraph rest)
      ∙ next_assoc front place (λ c. next (grown langgraph back c) (grown langgraph rest))
      ∙ next-ap front
          (λ c. next (place c) (λ d. next (grown langgraph back d) (grown langgraph rest)))
          (grown langgraph ((step.name, make_node origin setting step) ∷ (back ++ rest)))
          (λ c. next-ap (place c) _ _ (λ d. sym (grown-append back rest d)))
      ∙ sym (
          grown-append (judge_nodes origin model before)
            ((step.name, make_node origin setting step) ∷ (back ++ rest)) b)

-- None of the nodes has a name of `taken`.
abbrev Apart : List String → List (String × Node) → Type 0
Apart taken ns = All (λ m. one_of m.0 taken ≡ false) ns

Apart-nil : (ns : List (String × Node)) → Apart [] ns
Apart-nil [] = tt
Apart-nil (n ∷ ns) = (refl, Apart-nil ns)

one_of-append :
    (s t : String) (taken : List String)
    → one_of s taken ≡ false
    → str_eq t s ≡ false
    → one_of s (taken ++ t ∷ []) ≡ false
one_of-append s t [] free_ apart = ground (arith, eq_iff s t, eq_iff t s)
one_of-append s t (u ∷ us) free_ apart = ground (arith, one_of-append s t us (ground arith) apart)

Apart-append :
    (taken : List String) (s : String) (ns : List (String × Node))
    → Apart taken ns
    → one_of s (names ns) ≡ false
    → Apart (taken ++ s ∷ []) ns
Apart-append taken s [] apart out = tt
Apart-append taken s (n ∷ ns) apart out = (
  one_of-append n.0 s taken apart.0 (ground arith),
  Apart-append taken s ns apart.1 (ground arith),
)

grown-path :
    (langgraph : LangGraph)
    → TakesNodes langgraph
    → (ns : List (String × Node)) (g : StateGraph) (previous : String) → ArePlain (names ns)
    → IsDistinct (names ns)
    → Apart (names g.nodes) ns
    → grown langgraph ns (g, previous)
      ≡ ok (
        record { nodes = g.nodes ++ ns; edges = g.edges ++ path previous (names ns) },
        last previous (names ns),
      )
unfolding add
grown-path langgraph takes [] g previous plain distinct apart = rw append-nil (rw append-nil refl)
grown-path langgraph takes (n ∷ ns) g previous plain distinct apart =
    let g' : StateGraph = record {
      nodes = g.nodes ++ n ∷ [];
      edges = g.edges ++ (previous, n.0) ∷ [];
    } in
    let added : add langgraph n.0 n.1 (g, previous) ≡ ok (g', n.0) =
      rw (takes g.nodes n.0 n.1 plain.0 apart.0, add) refl in
    let apart' : Apart (names g'.nodes) ns =
      subst (λ taken. Apart taken ns) (sym (names-append g.nodes (n ∷ [])))
        (Apart-append (names g.nodes) n.0 ns apart.1 distinct.0) in
    ap (λ r. next r (grown langgraph ns)) added
    ∙ grown-path langgraph takes ns g' n.0 plain.1 distinct.1 apart'
    ∙ rw append_assoc (rw append_assoc refl)

pub build_graph-plan :
    (langgraph : LangGraph) (origin : Origin) (setting : Setting) (model : Model)
    (template : Template) (judges : List Judge)
    → TakesNodes langgraph
    → check_placements template judges ≡ none
    → ArePlain (map (λ n. n.0) (plan origin setting model judges template.steps))
    → IsDistinct (map (λ n. n.0) (plan origin setting model judges template.steps))
    → build_graph langgraph origin setting model template judges
      ≡ ok (record {
        nodes = plan origin setting model judges template.steps;
        edges =
            path start
              (map (λ n. n.0) (plan origin setting model judges template.steps) ++ end ∷ []);
      })
unfolding build_graph close_chain
build_graph-plan langgraph origin setting model template judges takes placed plain distinct =
    let ns = plan origin setting model judges template.steps in
    let built =
      add_steps-grown langgraph origin setting model judges template.steps
        (record { nodes = []; edges = [] }, start)
      ∙ grown-path langgraph takes ns (record { nodes = []; edges = [] }) start plain distinct
          (Apart-nil ns) in
    rw (placed, build_graph) (rw built (rw (path-append start (names ns) (end ∷ [])) refl))
