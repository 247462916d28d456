-- ===== src/Sync.antt =====
-- The crate `parking_lot` (src): the locks over the parking lot.
pub mod RawMutex
pub mod Once
pub mod RawRwLock
pub mod RawCondvar
