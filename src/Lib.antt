-- ===== src/Lib.antt =====
-- The workflow engine navigator-orchestrator: what runs the steps of a workflow template, in order or
-- as a graph with human gates and model judges, and keeps the runs, their queue and their decisions.
--
-- The program's parts, and the modules that model them (paths from the repository's root):
--   src/navigator_orchestrator/store/models.py, store/base.py   Store.Models (records, states, errors)
--   src/navigator_orchestrator/store/memory.py                  Store.Memory (InMemoryRunStore)
--   src/navigator_orchestrator/store/run_log.py                 Store.RunLog (InMemoryRunLogStore)
--   src/navigator_orchestrator/store/events.py                  Sdk.Events (rows, and how runs write them)
--   src/navigator_orchestrator/sdk/context.py                   Sdk.Context (Ctx, exceptions, hooks)
--   src/navigator_orchestrator/sdk/templates.py                 Sdk.Templates (Param, Step, Template)
--   (the TemplateRegistry of the same file)                     Sdk.Catalog
--   src/navigator_orchestrator/sdk/binding.py                   Sdk.Binding (bind_kwargs)
--   src/navigator_orchestrator/sdk/registry.py                  Sdk.Registry (uses)
--   src/navigator_orchestrator/sdk/preflight.py, with backend_requirements of sdk/service.py and
--     Backend of sdk/project.py                                 Sdk.Preflight
--   src/navigator_orchestrator/sdk/execution.py                 Sdk.Execution (call_step_hook, …)
--   src/navigator_orchestrator/sdk/runner.py                    Sdk.Runner (run_template)
--   src/navigator_orchestrator/sdk/judge.py                     Sdk.Judge (run_judge)
--   src/navigator_orchestrator/sdk/graph.py                     Sdk.Graph (run_template_graph)
--   src/navigator_orchestrator/sdk/service.py, its _send        Sdk.Service
--   (validate_call and interpolate of the same file)            Sdk.Calls
--   src/navigator_orchestrator/events.py                        Engine.Events (what crosses the wire)
--   src/navigator_orchestrator/engine/state.py, policy.py       Engine.State, Engine.Policy
--   src/navigator_orchestrator/engine/cache.py                  Engine.Cache (InMemoryCache)
--   src/navigator_orchestrator/engine/observability.py          Engine.Meter (CostMeter)
--   src/navigator_orchestrator/engine/workflow.py, tools.py     Engine.Workflows, Engine.Tools
--   src/navigator_orchestrator/engine/runner.py                 Engine.Runner (Runner: run, resume)
--   src/navigator_orchestrator/api/authz.py, routes.py          Api.Authz, Api.Routes
--   workflows/kyc/templates/kyc_onboarding.py                   Kyc (the rules and the template)
--
-- How they interact: a template's steps are run by Sdk.Runner, or by the nodes that Sdk.Graph hands to
-- LangGraph; both bind a hook's arguments from the pool of products (Sdk.Binding), execute it
-- (Sdk.Execution) and write the rows of the run (Sdk.Events), after one preflight (Sdk.Preflight).
-- Judges (Sdk.Judge) are nodes of the graph. The run store is the API's and the worker's: a method
-- holds one lock, so it is one step on the store, and Store.Memory.Steps makes sequences of them.
--
-- The engine's runner (Engine.Runner) takes a workflow from the registry and turns its graph's stream
-- into events, and writes the run store, the run log, the cache and the meter on the way; the routes
-- (Api.Routes) start runs and post decisions, which resume them. A run of the engine is an action on
-- Engine.Runner.World: it returns, raises, or is closed by its client, who may leave at any event.
--
-- The names of state and operations are those of the source. A dict is an association list in
-- insertion order (Prelude.Dicts), where assigning to a key keeps its place. A time is a number of
-- ticks; readings of the clock and fresh uuids are arguments. An exception is a value of
-- Sdk.Context.Exn, with the classes that some handler names; a run is an action on a World, its
-- context, its rows and its counter (Sdk.Events.M). A keyword that Python would refuse as given twice
-- is refused by record_row. The event status "ok" is the constructor `succeeded`. A JSON-like value is
-- Prelude.Values.Value; a value of any other class is `other`, by its type's name and its truth. A
-- number that is not a natural number is `num`, by its text and its truth. Characters are bytes of
-- ASCII where a method of str asks for their class.
--
-- Code outside the repository is an argument: LangGraph's `add_node` and `ainvoke` (Sdk.Graph.LangGraph), the model
-- and `json` (Sdk.Judge.Model), processes, HTTP and JSON Schema (Sdk.Execution.Engine), object
-- identity and the pattern of names (Sdk.Registry), what a request meets (Sdk.Service.Reply), what a
-- compiled graph streams (Engine.Workflows.Graph), the digest and JSON texts of a cache key, and what
-- Pydantic validates and dumps (Engine.State.Contract, Api.Routes.Context). Three
-- loops run on fuel: the two asks of a judge and the two attempts of an agent step, whose bounds are
-- the source's own, and Sdk.Service.send, whose fuel of `retries + 1` is enough since no attempt
-- after the last is to be retried.
--
-- An amount in the KYC rules is in euros and a percentage in hundredths; what half a portfolio can
-- touch is kept doubled. The two agent hooks of that workflow ask a model and are left out.
--
-- Not modelled: file and network access, the command line, the check of the HTTP framework, tracing,
-- configuration, document and schema loading, the shell executor, and of the service executor what is round
-- its calls and its sending loop.
pub mod Prelude
pub mod Engine
pub mod Api
pub mod Kyc
pub mod Store
pub mod Sdk
