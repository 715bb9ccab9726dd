-- ===== src/Sdk/Service.antt =====
-- The sending loop of sdk/service.py: `_send` and `should_retry`. The transport is an argument: what
-- the n-th request of the loop meets. The waits between the requests are not modelled.
pub mod Attempts
mod Tests
use navigator_orchestrator_a.Prelude.{
  ℕ, zero, suc, ◌+◌, String, Bool, true, false, not, ◌&&◌, ◌||◌, if◌then◌else◌, ◌==◌, leb, Option,
  none, some, List, [], ◌∷◌, one_of, join,
}
use navigator_orchestrator_a.Sdk.Context.{Exn, raised, some_error, Result, ok, err}
use navigator_orchestrator_a.Sdk.Preflight.{Backend}
use navigator_orchestrator_a.Sdk.Templates.{Call}

pub record Response : Type 0 where
  pub status_code : ℕ
  pub text : String

-- A response, a timeout or transport error with its message, or any other exception.
pub data Reply : Type 0 where
  responds : Response → Reply
  unreachable : String → Reply
  crashes : Exn → Reply

abbrev pub idempotent : List String
idempotent = "GET" ∷ "HEAD" ∷ "PUT" ∷ "DELETE" ∷ "PATCH" ∷ []

-- `none` is a connection error or a timeout.
unfoldable pub should_retry : String → Option ℕ → ℕ → ℕ → Bool
should_retry method status attempt limit =
    if leb limit attempt || not (one_of method idempotent)
    then false
    else elim status [ none ↦ true | some code ↦ code == 429 || leb 500 code ]

service_failed : Backend → Call → String → Exn
service_failed backend call m =
    raised some_error "ServiceFailed"
      (join call.method (join " " (join backend.name (join call.path (join " failed: " m)))))

-- What the loop makes of a reply that it does not retry.
unfoldable pub settled : Backend → Call → Reply → Result Response
unfolding service_failed
settled backend call (responds response) = ok response
settled backend call (unreachable m) = err (service_failed backend call m)
settled backend call (crashes e) = err e

-- Whether the loop goes on after the reply to this attempt.
unfoldable pub again : Call → Reply → ℕ → ℕ → Bool
unfolding should_retry
again call (responds response) attempt limit =
    should_retry call.method (some response.status_code) attempt limit
again call (unreachable m) attempt limit = should_retry call.method none attempt limit
again call (crashes e) attempt limit = false

module _ (transport : ℕ → Reply) (backend : Backend) (call : Call) (retries : ℕ) where
  -- The loop, from the number of requests sent so far: the result and the requests in all. `none` is
  -- that the fuel ran out.
  unfoldable pub send_from : ℕ → ℕ → Option (Result Response × ℕ)
  unfolding again settled
  send_from zero attempt = none
  send_from (suc left) attempt =
      elim (again call (transport (attempt + 1)) (attempt + 1) (retries + 1)) [
        | true ↦ send_from left (attempt + 1)
        | false ↦ some (settled backend call (transport (attempt + 1)), attempt + 1)
      ]

  -- _send
  unfoldable pub send : Option (Result Response × ℕ)
  unfolding send_from
  send = send_from (retries + 1) 0
