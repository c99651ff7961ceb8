-- ===== src/Tests.antt =====
-- The theorems at concrete inputs.
mod Digests
mod Saving
mod Queues
mod Tables
mod Migrating
mod Hashing
mod Stores
mod Flattening
mod Debugging
mod Reading
