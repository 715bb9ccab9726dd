-- ===== src/Store.antt =====
-- src/navigator_orchestrator/store: the run records, the run store and the run log.
pub mod Models
pub mod Memory
pub mod RunLog
