-- ===== src/Lib.antt =====
-- bypass: a password store compatible with pass. An entry is a file of ciphertext in a directory
-- tree; this library models the Rust code that keeps, lists and moves entries, and what surrounds
-- it.
--
-- The program and the files that model it:
-- - RelPath: paths inside the store (crates/bypass-core/src/path.rs). RelPath/Valid is about what
--   `RelPath::new` accepts, RelPath/Walk about `parent`, `file_name`, `segments` and `join`.
-- - Storage, Crypto, Vcs: the three backend traits (crates/bypass-core/src/storage.rs, crypto.rs,
--   vcs.rs), records of operations on a state. What their documentation promises is in the records
--   of laws `IsBlobMap` and `IsDecryptable`, which the theorems take as parameters.
-- - GpgId: the recipients of an entry (crates/bypass-core/src/gpg_id.rs), with GpgId/Nearest for
--   the walk up the directories and GpgId/Parse for the file's lines.
-- - Store: the orchestrator (crates/bypass-core/src/store.rs), one function for each method, in
--   the monad of Exec: the state comes back beside the result, on errors too. Store/Blobs and
--   Store/Attributes hold its helpers; the other files below Store are about its methods.
-- - Entry: entries as text (crates/bypass-core/src/entry.rs).
-- - Audit: the leak audit (crates/bypass-cli/src/audit.rs).
-- - Import: import of foreign vaults (crates/bypass-core/src/import.rs): slugs, with Import/Body
--   for the bodies and Import/Prepare for a batch. Import/Csv, Import/Bitwarden and Import/Keepass
--   are csv.rs, bitwarden.rs and keepass.rs in crates/bypass-core/src/import/, and Import/Driver
--   is crates/bypass-cli/src/import.rs.
-- - Sync: synchronisation between devices (crates/bypass-cli/src/sync/). Sync/RateLimit is
--   ratelimit.rs, Sync/Peers is peers.rs, Sync/Wire is wire.rs, Sync/Syncing is syncing.rs, with
--   Serving for the responder, Receiving for the initiator and TieBreak for diverged devices.
--   Sync/Pairing is pairing.rs, with Pairing/Session for the two sides over a transport.
--   Sync/Daemon is daemon.rs: Daemon has the handlers and Daemon/Loop its loop, a relation between
--   states that is a step of the loop or the end of a task. Queries of git2, runs of git,
--   serde_json and the clock are parameters.
-- - Bundle: backup bundles (crates/bypass-core/src/bundle.rs), with tar and toml as parameters;
--   the writer's builder and the visitor's state are explicit, so that what happened before an
--   error stays.
-- - Generate, Otp: crates/bypass-core/src/generate.rs and otp.rs, with rand and totp_rs as
--   parameters.
-- - Host: the native-messaging host (crates/bypass-cli/src/messaging_host.rs). Host has the
--   dispatch of a request to the store, Host/Framing the frames, Host/Loop the loop over them.
--   Standard input is the bytes to come and the way they end, standard output and serde_json are
--   parameters.
-- - Cli: the commands that work on the store (crates/bypass-cli/src/main.rs), with Cli/Tree for
--   the listing (crates/bypass-cli/src/tree.rs), Cli/Git for the warning before destructive git
--   commands, and Cli/Rotation about `generate`. Cli/Restore is crates/bypass-cli/src/restore.rs,
--   and its modules are about the blobs that change and the one commit. Cli/Backup is
--   crates/bypass-cli/src/backup.rs. The clipboard is a parameter, and what is printed is a list.
-- - Fs: std::fs as an interface, and the atomic write that three components share. Fs/StorageFs is
--   crates/bypass-cli/src/storage_fs.rs, Fs/AppStorage is crates/bypass-ffi/src/storage.rs, and
--   Sync/Peers/File is the file of crates/bypass-cli/src/sync/peers.rs. The loop that shreds a
--   file is on fuel, the file's length, and writes at least a byte in each round. Fs/Atomic,
--   Fs/Writes, Fs/Links and Fs/Shred are about them.
-- - Text: Rust's `str` as a list of code points, with what the code uses of the standard library;
--   Text/Utf8 is its encoding. Prelude: the names that all files share.
-- - Examples: backends that can run, and runs on concrete inputs.
--
-- How the model reads the code: a `Result` is an `Outcome`, whose third case `abort` is a panic or
-- a loop out of fuel; `?` is the bind. The loop of `resolve_recipients` gets one round more than
-- the length of the path, and a parent is shorter than its path, which is enough; that of the
-- native-messaging host gets one more than the bytes of its input, of which each round takes some.
-- Messages of errors are represented by what they name.
--
-- Not modelled: argument parsing, the calls of gpg, git and std::fs, the listing of directories,
-- the network, and the Android and browser front ends, which do input and output around this core.
pub mod Prelude
pub mod Text
pub mod RelPath
pub mod Storage
pub mod Crypto
pub mod Vcs
pub mod GpgId
pub mod Exec
pub mod Store
pub mod Entry
pub mod Audit
pub mod Bundle
pub mod Cli
pub mod Examples
pub mod Fs
pub mod Generate
pub mod Host
pub mod Import
pub mod Otp
pub mod Sync
