-- ===== src/Sdk/Service/Tests.antt =====
-- A server that is down twice.
use navigator_orchestrator_a.Prelude.{
  ℕ, String, null, if◌then◌else◌, ◌==◌, ◌≡◌, refl, false, some, [],
}
use navigator_orchestrator_a.Sdk.Context.{ok}
use navigator_orchestrator_a.Sdk.Preflight.{Backend}
use navigator_orchestrator_a.Sdk.Templates.{Call}
use navigator_orchestrator_a.Sdk.Service.{
  Reply, responds, unreachable, settled, send, send_from, again, should_retry,
}

abbrev flaky : ℕ → Reply
flaky n =
    if n == 1
    then unreachable "timeout"
    else if n == 2
    then responds (record { status_code = 503; text = "" })
    else responds (record { status_code = 200; text = "{}" })

abbrev backend : Backend
backend = record { name = "core"; base_url = "http://core"; token_env = []; timeout = 30 }

abbrev request : String → Call
request method = record {
  method = method;
  path = "/v1/x";
  query = [];
  body = null;
  optional_404 = false;
  public = false;
}

-- A GET gets through at the third request.
third_time :
    send flaky backend (request "GET") 2 ≡ some (ok (record { status_code = 200; text = "{}" }), 3)
unfolding send send_from again should_retry settled
third_time = refl
