-- ===== src/Sdk/Service/Attempts.antt =====
-- How often a call is sent.
use navigator_orchestrator_a.Prelude.{ℕ, ◌+◌, ◌≤◌, ◌<◌, ◌≡◌, true, false, Option, some}
use navigator_orchestrator_a.Sdk.Context.{Result}
use navigator_orchestrator_a.Sdk.Preflight.{Backend}
use navigator_orchestrator_a.Sdk.Templates.{Call}
use navigator_orchestrator_a.Sdk.Service.{Response, Reply, settled, again}

-- What the loop ends with, from `attempt` requests on.
pub record Sent (transport : ℕ → Reply) (backend : Backend) (call : Call) (retries attempt : ℕ)
    (out : Option (Result Response × ℕ)) : Type 0 where
  pub sent : ℕ
  pub ends : out ≡ some (settled backend call (transport sent), sent)
  pub more : attempt < sent
  pub bounded : sent ≤ retries + 1
  -- each request before the last met a reply that is to be retried
  pub retried : (n : ℕ) → attempt < n → n < sent → again call (transport n) n (retries + 1) ≡ true
  pub final : again call (transport sent) sent (retries + 1) ≡ false
