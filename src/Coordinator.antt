-- ===== src/Coordinator.antt =====
-- internal/coordinator: the state machine of a recovery job.
pub mod Job
pub mod Transition
pub mod Handle
pub mod Shutdown
pub mod Safety
pub mod Tokens
pub mod Progress
