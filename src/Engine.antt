-- ===== src/Engine.antt =====
-- src/navigator_orchestrator/engine and events.py: the engine that runs a registered workflow and
-- turns it into a stream of events.
pub mod Events
pub mod State
pub mod Policy
pub mod Cache
pub mod Meter
pub mod Workflows
pub mod Tools
pub mod Runner
pub mod Tests
