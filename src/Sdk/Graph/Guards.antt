-- ===== src/Sdk/Graph/Guards.antt =====
-- A judge in the graph: what a run that goes past it has been given.
use navigator_orchestrator_a.Prelude.{String, ◌≡◌, List, Dict, Value}
use navigator_orchestrator_a.Sdk.Judge.{Judge, Model, Verdict}
use navigator_orchestrator_a.Sdk.Judge.Control.{Allowed}
use navigator_orchestrator_a.Sdk.Graph.{NodeOut, update, verdict_of}

-- The judge allowed the run with a verdict, and the node hands on that verdict.
pub record Guarded (model : Model) (j : Judge) (pool : Dict Value) (out : NodeOut) : Type 0 where
  pub verdict : Verdict
  pub allowed : Allowed model j pool verdict
  pub added : List String
  pub hands_on : out ≡ update (verdict_of j verdict added)
