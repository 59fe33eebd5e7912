-- ===== src/Approval.antt =====
-- The clients that a self-hosted daemon lets in: src/relay/clients.ts, the commands on the stored
-- tokens in src/commands/clients.ts, and the daemon itself, src/commands/start.ts.
pub mod Tokens
pub mod Queue
pub mod Daemon
pub mod Changes
mod Tests
