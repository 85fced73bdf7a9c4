-- ===== src/Sync.antt =====
-- Synchronisation between paired devices (crates/bypass-cli/src/sync/).
pub mod RateLimit
pub mod Peers
pub mod Wire
pub mod Syncing
pub mod Pairing
pub mod Daemon
