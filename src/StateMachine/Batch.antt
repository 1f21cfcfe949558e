-- ===== src/StateMachine/Batch.antt =====
-- What commands that are batched do, beside the same commands one by one.
pub mod Commands
pub mod Sim
pub mod Law
