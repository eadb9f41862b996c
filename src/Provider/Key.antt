-- ===== src/Provider/Key.antt =====
-- The key contexts of lunaProvider/lunaCommon.c and the operations on keys in the HSM, of
-- lunaProvider/lunaPqcSig.c and lunaProvider/lunaPqcKem.c. A thread runs an operation between
-- LUNA_OQS_READKEY_LOCK and LUNA_OQS_READKEY_UNLOCK (Provider/KeyLock.antt).
pub mod State
pub mod Find
pub mod Export
pub mod Firmware
pub mod Gen
pub mod Sign
pub mod Wrap
pub mod Decap
pub mod Peer
pub mod Encap
pub mod Unwrapping
pub mod Encapsulation
pub mod Decapsulation
pub mod Ops
pub mod Steady
pub mod Once
pub mod Fresh
pub mod Objects
pub mod Found
pub mod Active
