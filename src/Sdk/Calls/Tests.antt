-- ===== src/Sdk/Calls/Tests.antt =====
-- A call with a value that holds a slash.
use navigator_orchestrator_a.Prelude.{true, false, ◌≡◌, refl, [], ◌∷◌, Dict, Value, null, str}
use navigator_orchestrator_a.Sdk.Templates.{Call}
use navigator_orchestrator_a.Sdk.Calls.Quoting.{quote, stays, utf8, percent, hex, nth}

abbrev declared : Call
declared = record {
  method = "GET";
  path = "/v1/x/$id";
  query = [];
  body = null;
  optional_404 = false;
  public = true;
}

abbrev sent : Call
sent = record declared { path = "/v1/x/a%2Fb"; public = false }

abbrev pool : Dict Value
pool = ("id", str "a/b") ∷ []

quoted : quote "a/b é" ≡ "a%2Fb%20%C3%A9"
unfolding quote stays utf8 percent hex nth
quoted = refl
