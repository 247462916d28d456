-- ===== src/Core.antt =====
-- The crate `parking_lot_core` (core/src).
pub mod FairTimeout
pub mod SpinWait
pub mod Queue
pub mod Hash
pub mod Lot
pub mod Locking
