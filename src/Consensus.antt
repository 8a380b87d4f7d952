-- ===== src/Consensus.antt =====
-- engine/internal/consensus: the proposal codec and the replicated state machine.
pub mod Codec
pub mod StateMachine
pub mod Node
