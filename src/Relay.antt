-- ===== src/Relay.antt =====
-- src/relay: the two WebSockets of a daemon, and the clients that it knows.
pub mod Connection
pub mod Primary
pub mod Agreement
mod Tests
