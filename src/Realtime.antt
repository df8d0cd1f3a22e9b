-- ===== src/Realtime.antt =====
-- src/realtime: the ring of recent events and the connection counts of one replica (registry.rs), the
-- poll that fills it from the outbox (tailer.rs), the session proofs (session.rs) and the event
-- stream
-- (sse.rs).
pub mod Registry
pub mod Window
pub mod Slots
pub mod Tailer
pub mod Polls
pub mod Session
pub mod Proofs
pub mod Stream
pub mod Allow
pub mod Delivery
mod Scenarios
mod Exchanges
mod Connections
