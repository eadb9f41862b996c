-- ===== src/Engine/Session.antt =====
-- The session contexts of engine/e_gem.c: the per-process state, the cache of idle sessions, the
-- start and the end of the PKCS#11 library, and opening and closing a context.
pub mod State
pub mod Cache
pub mod Init
pub mod Commands
pub mod Context
pub mod Close
pub mod Moves
pub mod Lifecycle
pub mod Taking
pub mod Opening
pub mod Returning
pub mod Closing
pub mod World
pub mod Owners
pub mod Transfer
pub mod Handover
pub mod Ownership
pub mod Severity
pub mod Leak
pub mod Steady
pub mod Process
pub mod Opened
pub mod Counting
pub mod Finishing
pub mod Reuse
pub mod Purge
pub mod Exclusive
