-- ===== src/Channel.antt =====
-- src/relay/channel-*.ts, exec-bridge.ts and exec-allow-list.ts: the channel multiplexer that the
-- daemon runs inside each encrypted tunnel.
pub mod Framing
pub mod AllowList
pub mod Registry
pub mod Exec
pub mod Control
pub mod Dispatcher
pub mod Connection
pub mod SessionBridge
pub mod OpenHandler
mod Tests
