-- ===== src/LockApi.antt =====
-- lock_api/src: what is built from the raw locks.
pub mod Remutex
