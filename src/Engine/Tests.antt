-- ===== src/Engine/Tests.antt =====
-- A small deployment: a workflow whose graph says one word, and its runs.
use navigator_orchestrator_a.Prelude.{
  ℕ, ◌+◌, String, true, false, ◌≡◌, refl, none, some, [], ◌∷◌, if◌then◌else◌, get, str, obj, field,
  end, is_some, join, split_at, str_eq,
}
use navigator_orchestrator_a.Store.Models.{awaiting_decision}
use navigator_orchestrator_a.Store.Memory.{RunStore, empty_store}
use navigator_orchestrator_a.Engine.Events.{final}
use navigator_orchestrator_a.Engine.State.{ok, Contract, instance_of}
use navigator_orchestrator_a.Engine.Policy.{Policy, default_policy, provider, model_id, has_prefix}
use navigator_orchestrator_a.Engine.Policy.Overrides.{provider-model_id}
use navigator_orchestrator_a.Engine.Cache.{cache_key, Entries, get_entry, set_entry, lapsed}
use navigator_orchestrator_a.Engine.Cache.Expiry.{get_entry-set_entry}
use navigator_orchestrator_a.Engine.Meter.{no_usage}
use navigator_orchestrator_a.Engine.Workflows.{
  Workflow, Graph, RawEvent, Message, text, no_content, empty_registry, register, get_workflow,
  source, source_of, python_source, make_source,
}
use navigator_orchestrator_a.Engine.Workflows.Registration.{
  register_all, source_for, source-register,
}
use navigator_orchestrator_a.Engine.Runner.Actions.{Runner, World}
use navigator_orchestrator_a.Engine.Runner.{start, decision, stream, key_of}
use navigator_orchestrator_a.Engine.Runner.Lifecycle.{Ended, state_of}
use navigator_orchestrator_a.Engine.Runner.Lifecycle.Stream.{stream-Ended}
use navigator_orchestrator_a.Engine.Runner.Keeping.Logging.{Recorded, stream-Recorded}
use navigator_orchestrator_a.Engine.Runner.Keeping.Cached.{stream-cache, stream-hit}

abbrev pub open_contract : Contract
open_contract = record {
  model_name = "Echo";
  model_validate = λ v. elim v [ obj fs ↦ instance_of [] | _ ↦ instance_of [] ];
  model_dump = λ d. d;
  model_dump_json = λ d. d;
}

abbrev silence : Message
silence = record { content = no_content; usage_metadata = none }

abbrev pub says : String → RawEvent
says word = record {
  event = "on_chat_model_stream";
  name = "llm";
  run_id = "x";
  node = none;
  has_parents = true;
  chunk = record { content = text word; usage_metadata = none };
  reply = silence;
  output = str "";
}

abbrev pub ends : RawEvent
ends = record {
  event = "on_chain_end";
  name = "g";
  run_id = "r";
  node = none;
  has_parents = false;
  chunk = silence;
  reply = silence;
  output = obj (field "scratch" (obj (field "output" (obj end) end)) end);
}

abbrev pub word_graph : Graph
word_graph = record {
  has_checkpointer = true;
  astream = λ input thread. (says "hi" ∷ ends ∷ [], none);
  pending = λ input thread. ok [];
}

abbrev pub echo : Workflow
echo = record {
  name = "echo";
  type_module = "workflows.echo";
  type_name = "EchoWorkflow";
  input_contract = open_contract;
  output_contract = open_contract;
  idempotent = true;
  cache_ttl_s = none;
  checkpointed = false;
  prompt_refs = [];
  build_graph = λ policy client. ok word_graph;
}

abbrev pub deployment : Runner
deployment = record {
  registry = record { workflows = ("echo", echo) ∷ []; sources = [] };
  default_policy = default_policy;
  client_factory = λ policy. ok (record { identity = 1 });
  fingerprint = λ policy. policy.model;
  normalized = λ d. "{}";
  sha256 = λ s. "k";
  clock = λ n. 10 + n;
}

abbrev pub fresh_world : World
fresh_world = record {
  clients = [];
  runs = some empty_store;
  log = some [];
  cache = some [];
  entries = [];
  sent = [];
  patience = none;
  usage = no_usage;
  reads = 0;
}

-- A run that awaits a decision.
abbrev pub paused_store : RunStore
paused_store = record {
  runs =
      (
        "r1",
        record {
          id = "r1";
          workflow = "echo";
          state = awaiting_decision;
          policy = [];
          gate_payload = none;
          created_by = none;
          leased_by = none;
          lease_expires_at = none;
          created_at = 1;
          updated_at = 1;
        },
      )
      ∷ [];
  decisions = [];
}

abbrev pub paused_world : World
paused_world = record fresh_world { runs = some paused_store }

known : is_some (state_of "r1" paused_world) ≡ true
unfolding state_of get
known = refl

-- The paused run is resumed and read to the end.
stream-Ended_example : Ended "r1" paused_world (
    stream deployment echo default_policy "r1"
      (decision (("verdict", str "approve") ∷ []))
      paused_world)
stream-Ended_example =
    stream-Ended deployment echo default_policy "r1" (decision (("verdict", str "approve") ∷ []))
      paused_world refl known

abbrev impatient_world : World
impatient_world = record fresh_world { patience = some 0 }

-- The client closes a new run at its first event.
stream-Recorded_example :
    Recorded "echo" default_policy.model "r1" impatient_world
      (stream deployment echo default_policy "r1" (start [] none) impatient_world)
stream-Recorded_example =
    stream-Recorded deployment echo default_policy "r1" (start [] none) impatient_world

stream-cache_example :
    (stream deployment echo default_policy "r1" (decision []) paused_world).cache ≡ some []
stream-cache_example = stream-cache deployment echo default_policy "r1" [] paused_world

abbrev one_entry : Entries
one_entry = ("k", (some 5000, ("text", str "hi") ∷ [])) ∷ []

abbrev cached_world : World
cached_world = record fresh_world { cache = some one_entry }

abbrev stopped : Runner
stopped = record deployment { clock = λ n. 10 }

hit_key : key_of stopped cached_world echo [] default_policy ≡ some "k"
unfolding key_of cache_key
hit_key = refl

unlapsed : (n : ℕ) → lapsed (some 5000) (stopped.clock n) ≡ false
unfolding lapsed
unlapsed n = refl

cached_entry : get one_entry "k" ≡ some (some 5000, ("text", str "hi") ∷ [])
unfolding get
cached_entry = refl

new_here : state_of "r1" cached_world ≡ none
unfolding state_of get
new_here = refl

stream-hit_example :
    let v = stream stopped echo default_policy "r1" (start [] none) cached_world in
    (v.sent ≡ final "r1" (("text", str "hi") ∷ []) true ∷ []) × (v.clients ≡ [])
stream-hit_example =
    stream-hit stopped echo default_policy "r1" "k" [] none one_entry (some 5000)
      (("text", str "hi") ∷ []) cached_world new_here refl hit_key cached_entry unlapsed

-- Set at 3 for 5 ticks: gone at 8.
get_entry-set_entry_example :
    (get_entry "k" 8 (set_entry "k" [] (some 5) 3 [])).0
    ≡ (if str_eq "k" "k" then none else (get_entry "k" 8 []).0)
get_entry-set_entry_example = get_entry-set_entry "k" "k" [] (some 5) 3 8 []

abbrev bedrock : Policy
bedrock = record default_policy { model = "bedrock:anthropic.claude:1" }

prefixed : has_prefix bedrock.model ≡ true
unfolding has_prefix
prefixed = refl

provider-model_id_example :
    (join (provider bedrock) (join ":" (model_id bedrock)) ≡ "bedrock:anthropic.claude:1")
    × (split_at b':' (provider bedrock) ≡ provider bedrock ∷ [])
provider-model_id_example = provider-model_id bedrock prefixed

registered : (register echo none (register_all [] empty_registry)).0 ≡ ok echo
unfolding register register_all get source_of python_source make_source
registered = refl

source-register_example :
    let r =
      register_all ((echo, none) ∷ []) (register echo none (register_all [] empty_registry)).1 in
    (get_workflow "echo" r ≡ ok echo) × (source "echo" r ≡ ok (source_for echo none))
source-register_example = source-register [] ((echo, none) ∷ []) echo none registered
