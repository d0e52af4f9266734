-- ===== src/Agent.antt =====
-- backend/app/modules/agent: planner, tool registry, executor, trace, memory and service.
pub mod Json
pub mod Tools
pub mod Plan
pub mod Registry
pub mod Trace
pub mod Executor
pub mod Planner
pub mod Service
