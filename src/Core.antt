-- ===== src/Core.antt =====
-- packages/core/src/index.ts: commands, their execution, and the work request resource.
pub mod Types
pub mod Commands
pub mod Store
pub mod Executor
pub mod WorkRequests
