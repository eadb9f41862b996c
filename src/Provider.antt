-- ===== src/Provider.antt =====
-- The provider's own code in lunaProvider/lunaCommon.c.
pub mod Base64
pub mod Blob
pub mod Key
pub mod KeyLock
pub mod Keyshare
pub mod Rng
pub mod Algorithms
pub mod Names
