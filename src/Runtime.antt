-- ===== src/Runtime.antt =====
-- core/runtime: the state machine and the node registry.
pub mod Fsm
pub mod NodeRegistry
