-- ===== src/Tests.antt =====
-- Runs and examples: each example applies a theorem at concrete values.
mod Sample
mod Sessions
mod Closes
mod Logins
mod Blocks
mod Keys
mod Slots
mod Randoms
mod Tables
mod Objects
mod MlDsa
mod Operations
mod Secrets
