-- ===== src/Agentic.antt =====
-- The steps before a request goes to a model: the session it belongs to, src/usecases/agentic_tracker.rs,
-- and the orchestration of the budget, of the warm-up of a tool's connection and of the schemas in
-- the body, src/usecases/agentic_orchestrator.rs. The clock and the random ids are arguments.
mod Examples
pub mod Session
pub mod Orchestrator
