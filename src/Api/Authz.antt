-- ===== src/Api/Authz.antt =====
-- src/navigator_orchestrator/api/authz.py: the principal of a request. Headers are looked up by
-- name in lower case.
pub mod Attribution
use navigator_orchestrator_a.Prelude.{
  String, Bool, true, false, ◌&&◌, not, if◌then◌else◌, Option, none, some, List, [], ◌∷◌, Dict, get,
  or_else, join, repr, strip, non_empty, Value, str,
}
use navigator_orchestrator_a.Store.Models.{Principal, is_anonymous}

abbrev pub Headers : Type 0
Headers = Dict String

unfoldable pub anonymous : Principal
anonymous = record { subject = "anonymous"; scopes = "workflows:run" ∷ []; issuer = "stub" }

-- StubPrincipalProvider, and HeaderPrincipalProvider with its header and issuer.
pub data Provider : Type 0 where
  stub : Provider
  header : String → String → Provider

-- provider(request)
unfoldable pub provide : Provider → Headers → Option Principal
unfolding anonymous
provide stub headers = some anonymous
provide (header name issuer) headers = elim (get headers name) [
  | none ↦ none
  | some raw ↦
      if not (non_empty raw)
      then none
      else some (record { subject = strip raw; scopes = []; issuer = issuer })
]

pub record Settings : Type 0 where
  pub require_principal : Bool
  pub principal_header : String
  pub allowed_models : List String

-- make_principal_provider of api/app.py
unfoldable pub make_principal_provider : Settings → Provider
make_principal_provider settings =
    if settings.require_principal then header settings.principal_header "header" else stub

unfoldable pub current_principal : Provider → Headers → Principal
unfolding provide anonymous
current_principal provider headers = or_else (provide provider headers) anonymous

-- principal is None or principal.is_anonymous
unfoldable pub unattributable : Option Principal → Bool
unattributable none = true
unattributable (some p) = is_anonymous p

-- None is the HTTPException 403.
unfoldable pub require_principal : Settings → Provider → Headers → Option Principal
unfolding provide anonymous unattributable
require_principal settings provider headers =
    let principal = provide provider headers in
    if settings.require_principal && unattributable principal
    then none
    else some (or_else principal anonymous)

-- The detail of the 403.
unfoldable pub principal_required : Settings → Dict Value
principal_required settings =
    ("error", str "principal_required")
    ∷ (
      "detail",
      str (
          join "a decision must be attributable; supply the " (
            join (repr settings.principal_header)
              " header (or set NAVIGATOR_REQUIRE_PRINCIPAL=false for local dev)")),
    )
    ∷ []
