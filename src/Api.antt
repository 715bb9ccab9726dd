-- ===== src/Api.antt =====
-- src/navigator_orchestrator/api: who acts, and the routes.
pub mod Authz
pub mod Routes
