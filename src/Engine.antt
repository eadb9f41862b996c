-- ===== src/Engine.antt =====
-- engine/e_gem.c: the engine that keeps the sessions with the HSM.
pub mod Memory
pub mod Config
pub mod Password
pub mod Slotid
pub mod Session
