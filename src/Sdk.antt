-- ===== src/Sdk.antt =====
-- src/navigator_orchestrator/sdk: steps and templates, hooks and their binding, and the two runners.
pub mod Context
pub mod Templates
pub mod Binding
pub mod Registry
pub mod Catalog
pub mod Preflight
pub mod Execution
pub mod Events
pub mod Runner
pub mod Judge
pub mod Graph
pub mod Service
pub mod Calls
mod Tests
