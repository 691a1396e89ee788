-- ===== src/Transfers.antt =====
-- The transfer machinery of `AtemProtocol` (atemwire/protocol.py).
pub mod Lane
pub mod Waiting
pub mod Trigger
pub mod Chunks
pub mod Locks
pub mod Fields
pub mod Requests
pub mod Abort
pub mod Service
pub mod Filed
pub mod Sound
pub mod Handled
pub mod Ended
pub mod Asked
pub mod Run
pub mod Enough
pub mod Cut
pub mod Drained
pub mod Retry
pub mod Polite
pub mod Sent
mod Tests
