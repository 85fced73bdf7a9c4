-- ===== src/Sync/Daemon.antt =====
-- The sync daemon (crates/bypass-cli/src/sync/daemon.rs): its peers in memory, the handlers of its
-- loop and the tasks that it spawns. A hash map is an association list, in the order in which it is
-- iterated. A peer id is represented by a text, and an address is opaque.
pub mod Loop
pub mod Table
pub mod Reload
pub mod Dials
use bypass.Prelude.{
  ℕ, ◌⊎◌, inl, inr, Bool, true, false, Option, none, some, List, [], ◌∷◌, ◌++◌, Outcome, ok, err,
  abort, ◌==◌, if◌then◌else◌, map,
}
use bypass.Exec.{Exec}
use bypass.Text.{Text, Bytes, codes, text_eq}
use bypass.Store.Sorting.{sort_by}
use bypass.Sync.Peers.{PeerRecord, Peers}
use bypass.Sync.Syncing.{
  SyncAction, up_to_date, fast_forwarded, peer_behind, rebased, awaiting_peer_rebase, rejected_leak,
}

pub record PeerEntry (Multiaddr : Type 0) : Type 0 where
  pub name : Text
  pub addr : Option Multiaddr
  pub discovered : Bool
  pub last_sync : Option (Text × ℕ)
  pub in_flight : Bool

abbrev pub from_record : {Multiaddr : Type 0} → PeerRecord → PeerEntry Multiaddr
from_record rec = record {
  name = rec.name;
  addr = none;
  discovered = false;
  last_sync = none;
  in_flight = false;
}

-- The operations of a hash map. `update_entry` is a change through `get_mut`.
module _ {V : Type 0} where
  unfoldable pub find_entry : Text → List (Text × V) → Option V
  find_entry p [] = none
  find_entry p ((q, v) ∷ m) = if text_eq q p then some v else find_entry p m

  unfoldable pub remove_entry : Text → List (Text × V) → List (Text × V)
  remove_entry p [] = []
  remove_entry p ((q, v) ∷ m) = if text_eq q p then m else (q, v) ∷ remove_entry p m

  unfoldable pub insert_entry : Text → V → List (Text × V) → List (Text × V)
  insert_entry p v [] = (p, v) ∷ []
  insert_entry p v ((q, w) ∷ m) = if text_eq q p then (q, v) ∷ m else (q, w) ∷ insert_entry p v m

  unfoldable pub update_entry : Text → (V → V) → List (Text × V) → List (Text × V)
  update_entry p change [] = []
  update_entry p change ((q, v) ∷ m) =
      if text_eq q p then (q, change v) ∷ m else (q, v) ∷ update_entry p change m

-- What a look at the metadata of the peers file finds: its modification time, where the system has
-- one.
pub data Metadata : Type 0 where
  not_found : Metadata
  stat_failed : Metadata
  modified : Option ℕ → Metadata

-- The peers file as it is at some moment: its metadata, and what `Peers::load` makes of it,
-- an error being represented by its text.
pub record PeersFile : Type 0 where
  pub metadata : Metadata
  pub load : Text ⊎ Peers

pub data ReloadError : Type 0 where
  stat_error : ReloadError
  load_error : Text → ReloadError

pub record DaemonState (Multiaddr : Type 0) : Type 0 where
  pub peers : List (Text × PeerEntry Multiaddr)
  pub peers_toml_mtime : Option ℕ

pub data DiscoveryEvent (Multiaddr : Type 0) : Type 0 where
  discovered : Text → Multiaddr → DiscoveryEvent Multiaddr
  expired : Text → Multiaddr → DiscoveryEvent Multiaddr

pub record PeerStatus : Type 0 where
  pub name : Text
  pub peer_id : Text
  pub discovered : Bool
  pub last_sync_action : Option Text
  pub last_sync_unix : Option ℕ

pub record StatusSnapshot : Type 0 where
  pub local_peer_id : Text
  pub listening_addrs : List Text
  pub peers : List PeerStatus

abbrev pub sync_action_name : {FilePath : Type 0} → SyncAction FilePath → Text
sync_action_name up_to_date = codes "UpToDate"
sync_action_name (fast_forwarded from to) = codes "FastForwarded"
sync_action_name peer_behind = codes "PeerBehind"
sync_action_name (rebased onto) = codes "Rebased"
sync_action_name awaiting_peer_rebase = codes "AwaitingPeerRebase"
sync_action_name (rejected_leak issues) = codes "RejectedLeak"

abbrev same_mtime : Option ℕ → Option ℕ → Bool
same_mtime none none = true
same_mtime none (some t) = false
same_mtime (some s) none = false
same_mtime (some s) (some t) = s == t

module _ {Multiaddr : Type 0} where
  -- The entry of a record: the one that was there, under the record's name, or a new one.
  abbrev pub entry_for : PeerRecord → Option (PeerEntry Multiaddr) → PeerEntry Multiaddr
  entry_for rec none = from_record rec
  entry_for rec (some e) = record e { name = rec.name }

  -- A round of the loop of `apply_peers`, on the old entries and those kept so far.
  abbrev pub apply_record :
      PeerRecord
      → Option Text
      → List (Text × PeerEntry Multiaddr) × List (Text × PeerEntry Multiaddr)
      → List (Text × PeerEntry Multiaddr) × List (Text × PeerEntry Multiaddr)
  apply_record rec none maps = maps
  apply_record rec (some pid) (old, keep) =
      (remove_entry pid old, insert_entry pid (entry_for rec (find_entry pid old)) keep)

  -- `handle_discovery` where the peer has the entry `e`.
  abbrev pub mark_discovered :
      Text
      → Multiaddr
      → Option (PeerEntry Multiaddr)
      → DaemonState Multiaddr
      → Option (Text × Multiaddr) × DaemonState Multiaddr
  mark_discovered peer addr none st = (none, st)
  mark_discovered peer addr (some e) st = (
    (if e.in_flight then none else some (peer, addr)),
    record st {
      peers =
          update_entry peer
            (λ x. record x { discovered = true; addr = some addr; in_flight = true }) st.peers;
    },
  )

  abbrev pub on_event :
      DiscoveryEvent Multiaddr
      → DaemonState Multiaddr
      → Option (Text × Multiaddr) × DaemonState Multiaddr
  on_event (discovered peer addr) st = mark_discovered peer addr (find_entry peer st.peers) st
  on_event (expired peer addr) st = (
    none,
    record st { peers = update_entry peer (λ x. record x { discovered = false }) st.peers },
  )

module _ {Multiaddr : Type 0} (parse_peer_id : Text → Option Text) where
  unfoldable pub apply_records :
      List PeerRecord
      → List (Text × PeerEntry Multiaddr) × List (Text × PeerEntry Multiaddr)
      → List (Text × PeerEntry Multiaddr)
  apply_records [] maps = maps.1
  apply_records (rec ∷ recs) maps =
      apply_records recs (apply_record rec (parse_peer_id rec.peer_id) maps)

  abbrev pub apply_peers : Peers → DaemonState Multiaddr → DaemonState Multiaddr
  apply_peers table st = record st { peers = apply_records table.peers (st.peers, []) }

  abbrev pub reloaded :
      Option ℕ → Text ⊎ Peers → Exec (DaemonState Multiaddr) ReloadError (Unit {0})
  reloaded mtime (inl e) st = (err (load_error e), st)
  reloaded mtime (inr fresh) st =
      (ok tt, record (apply_peers fresh st) { peers_toml_mtime = mtime })

  abbrev pub reload_found :
      Metadata → Text ⊎ Peers → Exec (DaemonState Multiaddr) ReloadError (Unit {0})
  reload_found not_found load st = (ok tt, record { peers = []; peers_toml_mtime = none })
  reload_found stat_failed load st = (err stat_error, st)
  reload_found (modified mtime) load st =
      if same_mtime mtime st.peers_toml_mtime then (ok tt, st) else reloaded mtime load st

  unfoldable pub reload_peers_if_changed :
      PeersFile → Exec (DaemonState Multiaddr) ReloadError (Unit {0})
  reload_peers_if_changed file st = reload_found file.metadata file.load st

  unfoldable pub handle_discovery :
      PeersFile
      → DiscoveryEvent Multiaddr
      → DaemonState Multiaddr
      → Option (Text × Multiaddr) × DaemonState Multiaddr
  unfolding reload_peers_if_changed
  handle_discovery file event st = on_event event (reload_peers_if_changed file st).1

abbrev action_of : Option (Text × ℕ) → Option Text
action_of none = none
action_of (some (action, at)) = some action

abbrev time_of : Option (Text × ℕ) → Option ℕ
time_of none = none
time_of (some (action, at)) = some at

module _ {Multiaddr : Type 0} where
  -- A round of the loop of `collect_known_addrs`, before the rounds on the other entries.
  abbrev pub collected :
      Text
      → PeerEntry Multiaddr
      → Option Multiaddr
      → Bool
      → List (Text × Multiaddr) × List (Text × PeerEntry Multiaddr)
      → List (Text × Multiaddr) × List (Text × PeerEntry Multiaddr)
  collected pid e none in_flight (out, m) = (out, (pid, e) ∷ m)
  collected pid e (some addr) true (out, m) = (out, (pid, e) ∷ m)
  collected pid e (some addr) false (out, m) =
      ((pid, addr) ∷ out, (pid, record e { in_flight = true }) ∷ m)

  unfoldable pub collect :
      List (Text × PeerEntry Multiaddr)
      → List (Text × Multiaddr) × List (Text × PeerEntry Multiaddr)
  collect [] = ([], [])
  collect ((pid, e) ∷ m) = collected pid e e.addr e.in_flight (collect m)

  abbrev pub collect_known_addrs :
      DaemonState Multiaddr → List (Text × Multiaddr) × DaemonState Multiaddr
  collect_known_addrs st = ((collect st.peers).0, record st { peers = (collect st.peers).1 })

  abbrev status_of : (Text → Text) → Text × PeerEntry Multiaddr → PeerStatus
  status_of to_base58 (pid, e) = record {
    name = e.name;
    peer_id = to_base58 pid;
    discovered = e.discovered;
    last_sync_action = action_of e.last_sync;
    last_sync_unix = time_of e.last_sync;
  }

  unfoldable pub snapshot :
      (Text → Text)
      → (Multiaddr → Text)
      → Text
      → List Multiaddr
      → DaemonState Multiaddr
      → StatusSnapshot
  snapshot to_base58 to_string local_peer_id listening_addrs st = record {
    local_peer_id = to_base58 local_peer_id;
    listening_addrs = map to_string listening_addrs;
    peers = sort_by (λ s. s.name) (map (status_of to_base58) st.peers);
  }
