-- ===== src/Examples.antt =====
-- Concrete backends, tests on concrete inputs, and the theorems at inputs that meet their hypotheses.
pub mod Backends
pub mod Paths
pub mod Stores
pub mod Texts
pub mod Peering
pub mod Daemons
pub mod Imports
pub mod Vaults
pub mod Disks
pub mod PeerFiles
pub mod Bundles
pub mod Restores
pub mod Backups
pub mod Hosting
pub mod Pairings
