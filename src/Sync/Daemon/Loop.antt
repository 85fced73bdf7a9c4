-- ===== src/Sync/Daemon/Loop.antt =====
-- The loop of the sync daemon (crates/bypass-cli/src/sync/daemon.rs): an arm of its `select!` that
-- runs is followed by the spawning of the dials that it decided on, one after the other, and tasks
-- finish at any time between.
use bypass.Prelude.{
  ℕ, ◌⊎◌, inl, inr, ◌≡◌, false, Option, none, some, List, [], ◌∷◌, ◌++◌, Outcome, ok, err, abort,
}
use bypass.Exec.{Exec}
use bypass.Text.{Text, Bytes, codes}
use bypass.Sync.Wire.{Serde, refusal}
use bypass.Sync.RateLimit as RateLimit
use bypass.Sync.RateLimit.{AttemptLog, RateLimited, check_and_record}
use bypass.Sync.Peers.{Peers}
use bypass.Sync.Syncing.{Repo}
use bypass.Sync.Syncing.Serving.{reply, serve}
use bypass.Sync.Daemon.{
  PeerEntry, PeersFile, DaemonState, DiscoveryEvent, find_entry, update_entry, apply_peers,
  reload_peers_if_changed, handle_discovery, collect_known_addrs,
}

-- `pending` are the dials that the loop has decided on and not yet spawned, `tasks` the syncs under
-- way.
pub record Daemon (Multiaddr : Type 0) : Type 0 where
  pub state : DaemonState Multiaddr
  pub ratelimit : AttemptLog
  pub pending : List (Text × Multiaddr)
  pub tasks : List (Text × Multiaddr)

module _ {Multiaddr : Type 0} where
  abbrev land : PeerEntry Multiaddr → PeerEntry Multiaddr
  land e = record e { in_flight = false }

  -- What follows the test of the rate limit: a task, or the end of the flight.
  abbrev pub launch :
      Text → Multiaddr → Outcome RateLimited (Unit {0}) → Daemon Multiaddr → Daemon Multiaddr
  launch peer addr (ok u) d = record d { tasks = (peer, addr) ∷ d.tasks }
  launch peer addr (err e) d = record d {
    state = record d.state { peers = update_entry peer land d.state.peers };
  }
  launch peer addr abort d = d

  unfoldable pub spawn_sync_with_peer : ℕ → Text → Multiaddr → Daemon Multiaddr → Daemon Multiaddr
  spawn_sync_with_peer now peer addr d =
      launch peer addr (check_and_record peer now d.ratelimit).0
        (record d { ratelimit = (check_and_record peer now d.ratelimit).1 })

  -- The entry at the end of its sync, from what `run_one_sync` came to: an error, or the name of the
  -- action.
  abbrev pub synced : Text ⊎ Text → ℕ → PeerEntry Multiaddr → PeerEntry Multiaddr
  synced (inl e) now entry = land entry
  synced (inr action) now entry = record entry { in_flight = false; last_sync = some (action, now) }

  unfoldable pub finish_sync : Text → Text ⊎ Text → ℕ → Daemon Multiaddr → Daemon Multiaddr
  finish_sync peer result now d = record d {
    state = record d.state { peers = update_entry peer (synced result now) d.state.peers };
  }

  abbrev pub to_dial : Option (Text × Multiaddr) → List (Text × Multiaddr)
  to_dial none = []
  to_dial (some dial) = dial ∷ []

  abbrev pub on_tick : Daemon Multiaddr → Daemon Multiaddr
  on_tick d = record d {
    state = (collect_known_addrs d.state).1;
    pending = (collect_known_addrs d.state).0;
  }

module _ {Multiaddr : Type 0} (parse_peer_id : Text → Option Text) where
  -- The daemon before its first event.
  abbrev pub started : Peers → Option ℕ → Daemon Multiaddr
  started initial_peers mtime = record {
    state =
        apply_peers parse_peer_id initial_peers (record { peers = []; peers_toml_mtime = mtime });
    ratelimit = RateLimit.new;
    pending = [];
    tasks = [];
  }

  abbrev pub on_discovery :
      PeersFile → DiscoveryEvent Multiaddr → Daemon Multiaddr → Daemon Multiaddr
  on_discovery file event d = record d {
    state = (handle_discovery parse_peer_id file event d.state).1;
    pending = to_dial (handle_discovery parse_peer_id file event d.state).0;
  }

module _ (𝓙 : Serde) (𝓡 : Repo) (describe : 𝓡.Error → Text) (decimal : ℕ → Text) where
  abbrev pub not_paired : Bytes
  not_paired = reply 𝓙 𝓡 describe decimal (refusal (codes "not a paired peer"))

  abbrev pub rate_limited : Bytes
  rate_limited =
      reply 𝓙 𝓡 describe decimal (refusal (codes "rate-limited (ADR-0016: 3 attempts / 60 s)"))

  -- The answer to a paired peer, from what the rate limit says.
  abbrev pub answer : 𝓡.State → Bytes → Outcome RateLimited (Unit {0}) → Outcome ⊥ Bytes
  answer repo bytes (ok u) = ok (serve 𝓙 𝓡 describe decimal repo bytes)
  answer repo bytes (err e) = ok rate_limited
  answer repo bytes abort = abort

  abbrev pub answer_from :
      {Multiaddr : Type 0}
      → 𝓡.State
      → Text
      → Bytes
      → ℕ
      → Option (PeerEntry Multiaddr)
      → Daemon Multiaddr
      → Outcome ⊥ Bytes × Daemon Multiaddr
  answer_from repo peer bytes now none d = (ok not_paired, d)
  answer_from repo peer bytes now (some e) d = (
    answer repo bytes (check_and_record peer now d.ratelimit).0,
    record d { ratelimit = (check_and_record peer now d.ratelimit).1 },
  )

  module _ {Multiaddr : Type 0} (parse_peer_id : Text → Option Text) where
    -- The bytes are those of the reply; `now` is the clock's reading.
    unfoldable pub handle_inbound :
        PeersFile → ℕ → 𝓡.State → Text → Bytes → Exec (Daemon Multiaddr) ⊥ Bytes
    handle_inbound file now repo peer bytes d =
        let st = (reload_peers_if_changed parse_peer_id file d.state).1 in
        answer_from repo peer bytes now (find_entry peer st.peers) (record d { state = st })

    -- What the daemon does next, where the peers file is as given.
    pub data Step (file : PeersFile) (d : Daemon Multiaddr) : Daemon Multiaddr → Type 0 where
      inbound :
          (now : ℕ) (repo : 𝓡.State) (peer : Text) (bytes : Bytes)
          → d.pending ≡ []
          → Step file d (handle_inbound file now repo peer bytes d).1
      discovery :
          (event : DiscoveryEvent Multiaddr)
          → d.pending ≡ []
          → Step file d (on_discovery parse_peer_id file event d)
      tick : d.pending ≡ [] → Step file d (on_tick d)
      dial :
          (now : ℕ) (peer : Text) (addr : Multiaddr) (rest : List (Text × Multiaddr))
          → d.pending ≡ (peer, addr) ∷ rest
          → Step file d (spawn_sync_with_peer now peer addr (record d { pending = rest }))
      finish :
          (before after : List (Text × Multiaddr)) (peer : Text) (addr : Multiaddr)
          (result : Text ⊎ Text) (now : ℕ)
          → d.tasks ≡ before ++ (peer, addr) ∷ after
          → Step file d (finish_sync peer result now (record d { tasks = before ++ after }))

    -- What the daemon may do from one state on, while the peers file changes as it likes.
    pub data Run (d : Daemon Multiaddr) : Daemon Multiaddr → Type 0 where
      here : Run d d
      next : {e f : Daemon Multiaddr} (file : PeersFile) → Run d e → Step file e f → Run d f
