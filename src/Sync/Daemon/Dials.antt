-- ===== src/Sync/Daemon/Dials.antt =====
-- No peer is synced with twice at a time (the loop of crates/bypass-cli/src/sync/daemon.rs).
use bypass.Prelude.{
  ℕ, ◌+◌, ◌≤◌, ◌≡◌, refl, ◌⊎◌, true, false, Option, none, some, [], ◌∷◌, ◌++◌, arith, ok, err,
  abort, Outcome,
}
use bypass.Text.{Text, Bytes, text_eq}
use bypass.Sync.Wire.{Serde}
use bypass.Sync.RateLimit.{RateLimited, check_and_record}
use bypass.Sync.Peers.{Peers}
use bypass.Sync.Syncing.{Repo}
use bypass.Sync.Daemon.{
  PeerEntry, PeersFile, DaemonState, DiscoveryEvent, discovered, expired, find_entry, apply_records,
  reload_peers_if_changed, handle_discovery, mark_discovered, on_event,
}
use bypass.Sync.Daemon.Loop.{
  Daemon, Step, Run, here, next, inbound, discovery, tick, dial, finish, started, handle_inbound,
  answer_from, launch, spawn_sync_with_peer, finish_sync, synced, to_dial,
}
use bypass.Sync.Daemon.Table.{
  one, dials, dials-append, idle, dials-collect, idle-update_le, idle-update_same, idle-update_off,
}
use bypass.Sync.Daemon.Reload.{Keeps, idle-reload, apply_idle}

module _ {A : Type 0} (p : Text) where
  -- The syncs with the peer that are under way or decided on.
  abbrev pub busy : Daemon A → ℕ
  busy d = dials p d.pending + dials p d.tasks

  -- Each of them, and each entry that may start another, counts.
  abbrev pub AtMostOne : Daemon A → Type 0
  AtMostOne d = busy d + idle p d.state.peers ≤ 1

  mark_idle :
      (peer : Text) (addr : A) (found : Option (PeerEntry A)) (st : DaemonState A)
      → find_entry peer st.peers ≡ found
      → dials p (to_dial (mark_discovered peer addr found st).0)
          + idle p (mark_discovered peer addr found st).1.peers
        ≡ idle p st.peers
  mark_idle peer addr none st e = omega arith
  mark_idle peer addr (some x) st e =
      let off =
        idle-update_off p peer
          (λ (y : PeerEntry A). record y { discovered = true; addr = some addr; in_flight = true })
          st.peers x (λ y. refl) e in
      ground (arith, off)

  event_idle :
      (event : DiscoveryEvent A) (st : DaemonState A)
      → dials p (to_dial (on_event event st).0) + idle p (on_event event st).1.peers
        ≡ idle p st.peers
  event_idle (discovered peer addr) st = mark_idle peer addr (find_entry peer st.peers) st refl
  event_idle (expired peer addr) st =
      let same =
        idle-update_same p peer (λ x. record x { discovered = false }) st.peers (λ x. refl) in
      omega (arith, same)

  launch-idle :
      (peer : Text) (addr : A) (r : Outcome RateLimited (Unit {0})) (d : Daemon A)
      → one (text_eq peer p) + (busy d + idle p d.state.peers) ≤ 1
      → AtMostOne (launch peer addr r d)
  launch-idle peer addr (ok u) d h = omega (arith, h)
  launch-idle peer addr (err e) d h =
      omega (arith, h, idle-update_le p peer (λ x. record x { in_flight = false }) d.state.peers)
  launch-idle peer addr abort d h = omega (arith, h)

  finish_idle :
      (peer : Text) (result : Text ⊎ Text) (now : ℕ) (d : Daemon A)
      → one (text_eq peer p) + (busy d + idle p d.state.peers) ≤ 1
      → AtMostOne (finish_sync peer result now d)
  unfolding finish_sync
  finish_idle peer result now d h =
      omega (arith, h, idle-update_le p peer (synced result now) d.state.peers)

  module _ (𝓙 : Serde) (𝓡 : Repo) (describe : 𝓡.Error → Text) (decimal : ℕ → Text) where
    answer_idle :
        (repo : 𝓡.State) (peer : Text) (bytes : Bytes) (now : ℕ) (found : Option (PeerEntry A))
        (d : Daemon A)
        → AtMostOne d
        → AtMostOne (answer_from 𝓙 𝓡 describe decimal repo peer bytes now found d).1
    answer_idle repo peer bytes now none d h = h
    answer_idle repo peer bytes now (some e) d h = h

    module _ (parse_peer_id : Text → Option Text) where
      Step-AtMostOne :
          {file : PeersFile} {d e : Daemon A}
          → Step 𝓙 𝓡 describe decimal parse_peer_id file d e
          → Keeps parse_peer_id p (busy d) d.state file
          → AtMostOne d
          → AtMostOne e
      unfolding handle_inbound handle_discovery spawn_sync_with_peer
      Step-AtMostOne {file} {d} (inbound now repo peer bytes idle_loop) kept h =
          let st = (reload_peers_if_changed parse_peer_id file d.state).1 in
          answer_idle repo peer bytes now (find_entry peer st.peers) (record d { state = st })
            (idle-reload parse_peer_id p (busy d) file d.state h kept)
      Step-AtMostOne {file} {d} (discovery event idle_loop) kept h =
          let st = (reload_peers_if_changed parse_peer_id file d.state).1 in
          let reload = idle-reload parse_peer_id p (busy d) file d.state h kept in
          let no_dial : dials p d.pending ≡ 0 = rw idle_loop in
          omega (arith, event_idle event st, reload, no_dial)
      Step-AtMostOne {file} {d} (tick idle_loop) kept h =
          let no_dial : dials p d.pending ≡ 0 = rw idle_loop in
          omega (arith, dials-collect p d.state.peers, h, no_dial)
      Step-AtMostOne {file} {d} (dial now peer addr rest first_of) kept h =
          let first : dials p d.pending ≡ one (text_eq peer p) + dials p rest = rw first_of in
          launch-idle peer addr (check_and_record peer now d.ratelimit).0 _
            (omega (arith, first, h))
      Step-AtMostOne {file} {d} (finish before after peer addr result now running) kept h =
          let first : dials p d.tasks ≡ dials p before + (one (text_eq peer p) + dials p after) =
            rw running (dials-append p before ((peer, addr) ∷ after)) in
          finish_idle peer result now (record d { tasks = before ++ after })
            (omega (arith, first, dials-append p before after, h))

      -- What the peers file keeps to during a run.
      abbrev pub KeepsAll : {d e : Daemon A} → Run 𝓙 𝓡 describe decimal parse_peer_id d e → Type 0
      KeepsAll here = Unit
      KeepsAll (next {e} file run step) = KeepsAll run × Keeps parse_peer_id p (busy e) e.state file

      Run-AtMostOne :
          {d e : Daemon A} (run : Run 𝓙 𝓡 describe decimal parse_peer_id d e)
          → KeepsAll run
          → AtMostOne d
          → AtMostOne e
      Run-AtMostOne here kept h = h
      Run-AtMostOne (next file run step) kept h =
          Step-AtMostOne step kept.1 (Run-AtMostOne run kept.0 h)

      -- However the events of the daemon interleave: as long as the peers file that it sees, while
      -- a sync with the peer is decided on or under way, names the peer at most once, and not
      -- again after its entry was dropped, there is at most one such sync, and while there is one,
      -- no entry of the peer can start another.
      pub busy-Run :
          (initial_peers : Peers) (mtime : Option ℕ) (d : Daemon A)
          (run : Run 𝓙 𝓡 describe decimal parse_peer_id
            (started parse_peer_id initial_peers mtime)
            d)
          → KeepsAll run
          → busy d + idle p d.state.peers ≤ 1
      busy-Run initial_peers mtime d run kept =
          let start : 0 + idle p (apply_records parse_peer_id initial_peers.peers ([], [])) ≤ 1 =
            apply_idle parse_peer_id p 0 initial_peers.peers [] (omega arith)
              (λ h. absurd (omega arith)) in
          Run-AtMostOne run kept start
