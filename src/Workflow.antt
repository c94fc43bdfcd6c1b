-- ===== src/Workflow.antt =====
-- packages/core/src/workflow: the reliable delivery of facts.
pub mod Failures
pub mod Delivery
pub mod Pump
