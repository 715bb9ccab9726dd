-- ===== src/Api/Authz/Attribution.antt =====
-- Who may decide, in a deployment that asks for a principal.
use navigator_orchestrator_a.Prelude.{
  ◌≡◌, none, some, [], arith, get, strip, non_empty, str_eq, if◌then◌else◌, ◌||◌, not,
}
use navigator_orchestrator_a.Store.Models.{is_anonymous}
use navigator_orchestrator_a.Api.Authz.{
  Headers, Settings, provide, unattributable, make_principal_provider, require_principal, anonymous,
}

-- With the deployment's own provider: when a principal is required, a request is let through
-- exactly when its header is there, is not empty and is not `anonymous` once stripped, and it then
-- acts under the stripped header; when none is required, every request acts as `anonymous`.
pub require_principal_lem :
    (settings : Settings) (headers : Headers)
    → require_principal settings (make_principal_provider settings) headers ≡ (
        if settings.require_principal
        then (elim (get headers settings.principal_header) [
          | none ↦ none
          | some raw ↦
              if not (non_empty raw) || str_eq (strip raw) "anonymous"
              then none
              else some (record { subject = strip raw; scopes = []; issuer = "header" })
        ])
        else some anonymous)
unfolding require_principal make_principal_provider provide unattributable is_anonymous
require_principal_lem settings headers = ground arith
