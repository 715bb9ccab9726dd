-- ===== src/Engine/Workflows.antt =====
-- src/navigator_orchestrator/engine/workflow.py: a registered capability, its source metadata, and
-- the registry. What a workflow brings (its contracts and graph) is in its record; the graph is
-- LangGraph's, so what it does when it is run is a parameter in the record `Graph`.
pub mod Registration
use navigator_orchestrator_a.Prelude.{
  ℕ, String, Bool, true, false, ◌&&◌, ◌||◌, not, if◌then◌else◌, Option, none, some, List, [], ◌∷◌,
  ◌++◌, map, Dict, get, put, keys, values, has, is_some, or_else, join, join_all, repr, sort_by,
  str_lt, str_eq, non_empty, has_text, one_of, Value, obj, Fields, get_field, truthy,
}
use navigator_orchestrator_a.Engine.State.{Result, ok, err, raised, Exn, Contract}
use navigator_orchestrator_a.Engine.Policy.{Policy}

-- A chat model message: its content (a text, blocks, or anything else) and its usage metadata.
pub data Block : Type 0 where
  plain : String → Block
  -- the block's "type" and str(block.get("text", ""))
  typed : String → String → Block
  opaque : Block

pub data Content : Type 0 where
  text : String → Content
  blocks : List Block → Content
  no_content : Content

pub record Message : Type 0 where
  pub content : Content
  -- input_tokens, output_tokens; 0 where one is missing
  pub usage_metadata : Option (ℕ × ℕ)

-- An event of `astream_events`: `node` is metadata["langgraph_node"], `chunk` is data["chunk"] and
-- `reply` is data["output"] of a chat model's event, `output` is data["output"] of a chain's.
pub record RawEvent : Type 0 where
  pub event : String
  pub name : String
  pub run_id : String
  pub node : Option String
  pub has_parents : Bool
  pub chunk : Message
  pub reply : Message
  pub output : Value

pub data GraphInput : Type 0 where
  -- Command(resume=...)
  command : Dict Value → GraphInput
  -- the initial state
  fresh : Dict Value → GraphInput

-- A compiled graph. `astream` is what the stream of an input on a thread gives before it ends or
-- raises, and `pending` is the interrupts of the tasks of the state that it leaves.
pub record Graph : Type 0 where
  pub has_checkpointer : Bool
  pub astream : GraphInput → String → List RawEvent × Option Exn
  pub pending : GraphInput → String → Result (List (List Value))

-- A chat model, by its identity: what it answers is what the graph streams.
pub record Client : Type 0 where
  pub identity : ℕ

pub record Workflow : Type 0 where
  pub name : String
  -- type(self).__module__ and __qualname__, which is __name__ for a class of a module
  pub type_module : String
  pub type_name : String
  pub input_contract : Contract
  pub output_contract : Contract
  pub idempotent : Bool
  pub cache_ttl_s : Option ℕ
  pub checkpointed : Bool
  pub prompt_refs : List String
  pub build_graph : Policy → Client → Result Graph

pub data SourceKind : Type 0 where
  yaml python : SourceKind

pub record WorkflowSource : Type 0 where
  pub kind : SourceKind
  pub logical_name : String
  pub source_text : Option String

value_error : String → Exn
value_error = raised "ValueError"

-- WorkflowSource(...) with its __post_init__
unfoldable pub make_source : SourceKind → String → Option String → Result WorkflowSource
unfolding value_error
make_source kind logical_name source_text =
    if not (has_text logical_name)
    then err (value_error "workflow source logical_name must not be empty")
    else (elim kind [
      | yaml ↦ elim source_text [
        | none ↦ err (value_error "a YAML workflow source must carry its exact text")
        | some t ↦ ok (record { kind = yaml; logical_name = logical_name; source_text = some t })
      ]
      | python ↦ elim source_text [
        | some t ↦ err (value_error "a Python workflow source must not expose source text")
        | none ↦ ok (record { kind = python; logical_name = logical_name; source_text = none })
      ]
    ])

-- WorkflowSource.python
unfoldable pub python_source : Workflow → Result WorkflowSource
unfolding make_source
python_source w = make_source python (join w.type_module (join ":" w.type_name)) none

-- `value` is state["scratch"]["output"], if that is a mapping
unfoldable pub extract_output : Workflow → Fields → Result Fields
unfolding value_error
extract_output w state =
    let missing = err (
      value_error (
        join "workflow "
          (join (repr w.name) " produced no output in state['scratch']['output']"))) in
    elim (get_field state "scratch") [
      | some (obj scratch) ↦ elim (get_field scratch "output") [
        | some (obj output) ↦ ok output
        | _ ↦ missing
      ]
      | some value ↦ if truthy value then err (raised "AttributeError" "") else missing
      | none ↦ missing
    ]

pub record Registry : Type 0 where
  pub workflows : Dict (Workflow)
  pub sources : Dict WorkflowSource

-- A set's elements: each once.
distinct : List String → List String
distinct [] = []
distinct (s ∷ ss) = let rest = distinct ss in if one_of s rest then rest else s ∷ rest

abbrev pub empty_registry : Registry
empty_registry = record { workflows = []; sources = [] }

-- source or WorkflowSource.python(workflow)
unfoldable pub source_of : Workflow → Option WorkflowSource → Result WorkflowSource
unfolding python_source
source_of w none = python_source w
source_of w (some source) = ok source

-- The workflow is written before its source is made.
unfoldable pub register : Workflow → Option WorkflowSource → Registry → Result (Workflow) × Registry
unfolding source_of value_error
register w source r =
    if not (non_empty w.name)
    then (err (value_error (join w.type_name " must set a non-empty `name`")), r)
    else (if has r.workflows w.name
        then (err (value_error (join "workflow " (join (repr w.name) " is already registered"))), r)
        else (let r' = record r { workflows = put r.workflows w.name w } in
            elim (source_of w source) [
              | err e ↦ (err e, r')
              | ok found ↦ (ok w, record r' { sources = put r.sources w.name found })
            ]))

unfoldable pub names : Registry → List String
names r = sort_by str_lt (keys r.workflows)

-- ", ".join(self.names()) or "none"
known : Registry → String
unfolding names
known r = elim r.workflows [ [] ↦ "none" | e ∷ es ↦ join_all ", " (names r) ]

-- `str` of a KeyError is the `repr` of its message.
unfoldable pub get_workflow : String → Registry → Result (Workflow)
unfolding known
get_workflow name r = elim (get r.workflows name) [
  | some w ↦ ok w
  | none ↦ err (
      raised "UnknownWorkflowError" (
        repr (
          join "unknown workflow "
            (join (repr name) (join " (registered: " (join (known r) ")"))))))
]

unfoldable pub source : String → Registry → Result WorkflowSource
unfolding get_workflow
source name r = elim (get_workflow name r) [
  | err e ↦ err e
  | ok w ↦ elim (get r.sources name) [
    | some found ↦ ok found
    | none ↦ err (raised "KeyError" (repr name))
  ]
]

all_refs : List (Workflow) → List String
all_refs [] = []
all_refs (w ∷ ws) = w.prompt_refs ++ all_refs ws

unfoldable pub prompt_refs : Registry → List String
unfolding distinct all_refs
prompt_refs r = sort_by str_lt (distinct (all_refs (values r.workflows)))
