-- ===== src/Sync/Daemon/Reload.antt =====
-- The reloading of the peers file by the sync daemon (`apply_peers` and `reload_peers_if_changed` of
-- crates/bypass-cli/src/sync/daemon.rs), and what it does to requests and to syncs under way.
use bypass.Prelude.{
  ℕ, zero, suc, ◌+◌, ◌≤◌, ◌<◌, ◌≡◌, ◌≢◌, refl, inl, inr, ◌⊎◌, ap, sym, false, Option, none, some,
  List, [], ◌∷◌, arith, Bool-cases, Option-cases, ok, ◌==◌, ==_iff,
}
use bypass.Text.{Text, Bytes, text_eq, is_some}
use bypass.Text.Laws.{text_eq_iff}
use bypass.Sync.Wire.{Serde}
use bypass.Sync.Peers.{PeerRecord, Peers}
use bypass.Sync.Syncing.{Repo}
use bypass.Sync.Daemon.{
  PeerEntry, PeersFile, Metadata, not_found, stat_failed, modified, DaemonState, find_entry,
  insert_entry, remove_entry, entry_for, apply_records, reload_peers_if_changed, reload_found,
  same_mtime,
}
use bypass.Sync.Daemon.Loop.{Daemon, handle_inbound, not_paired}
use bypass.Sync.Daemon.Table.{
  one, dials, idle, dials-le-idle, dials-insert_ne, dials-insert_le, idle-insert_flying,
  idle-remove_ne, find-flying,
}

abbrev pub names : Text → Option Text → ℕ
names p none = 0
names p (some q) = one (text_eq q p)

find_entry-none :
    {V : Type 0} (p : Text) (m : List (Text × V)) → dials p m ≡ 0 → find_entry p m ≡ none
unfolding find_entry
find_entry-none p [] h = refl
find_entry-none p ((q, v) ∷ m) h = ground (arith, find_entry-none p m)

module _ (parse_peer_id : Text → Option Text) (p : Text) where
  -- How many records of the table are about the peer.
  abbrev pub occurrences : List PeerRecord → ℕ
  occurrences [] = 0
  occurrences (rec ∷ recs) = names p (parse_peer_id rec.peer_id) + occurrences recs

module _ {A : Type 0} (parse_peer_id : Text → Option Text) (p : Text) where
  -- The table does not name the peer: it has no entry but those kept so far.
  apply-unlisted :
      (recs : List PeerRecord) (old keep : List (Text × PeerEntry A))
      → occurrences parse_peer_id p recs ≡ 0
      → (dials p (apply_records parse_peer_id recs (old, keep)) ≡ dials p keep)
        × (idle p (apply_records parse_peer_id recs (old, keep)) ≡ idle p keep)
  unfolding apply_records
  apply-unlisted [] old keep h = (refl, refl)
  apply-unlisted (rec ∷ recs) old keep h = elim (Option-cases (parse_peer_id rec.peer_id)) [
    | inl e ↦
        let unnamed : 0 + occurrences parse_peer_id p recs ≡ 0 = rw e at h in
        rw e (apply-unlisted recs old keep (omega arith))
    | inr (q, e) ↦
        let named : one (text_eq q p) + occurrences parse_peer_id p recs ≡ 0 = rw e at h in
        let entry = entry_for rec (find_entry q old) in
        let apart = dials-insert_ne p q entry keep (ground arith) in
        let rest =
          apply-unlisted recs (remove_entry q old) (insert_entry q entry keep) (omega arith) in
        rw e (omega (arith, rest, apart))
  ]

  -- The table has at most one entry for the peer.
  apply-once :
      (recs : List PeerRecord) (old keep : List (Text × PeerEntry A))
      → dials p keep ≤ 1
      → dials p (apply_records parse_peer_id recs (old, keep)) ≤ 1
  unfolding apply_records
  apply-once [] old keep h = h
  apply-once (rec ∷ recs) old keep h = elim (Option-cases (parse_peer_id rec.peer_id)) [
    | inl e ↦ rw e (apply-once recs old keep h)
    | inr (q, e) ↦ rw e (
        apply-once recs (remove_entry q old) _
          (dials-insert_le p q (entry_for rec (find_entry q old)) keep h))
  ]

  -- An entry in flight that is named once stays in flight.
  apply-flying :
      (recs : List PeerRecord) (old keep : List (Text × PeerEntry A)) (x : PeerEntry A)
      → occurrences parse_peer_id p recs ≤ 1
      → find_entry p old ≡ some x
      → idle p old ≡ 0
      → idle p keep ≡ 0
      → idle p (apply_records parse_peer_id recs (old, keep)) ≡ 0
  unfolding apply_records
  apply-flying [] old keep x once found flying kept = kept
  apply-flying (rec ∷ recs) old keep x once found flying kept =
      elim (Option-cases (parse_peer_id rec.peer_id)) [
        | inl e ↦
            let unnamed : 0 + occurrences parse_peer_id p recs ≤ 1 = rw e at once in
            rw e (apply-flying recs old keep x (omega arith) found flying kept)
        | inr (q, e) ↦
            let named : one (text_eq q p) + occurrences parse_peer_id p recs ≤ 1 = rw e at once in
            elim (Bool-cases (text_eq q p)) [
              | inl y ↦
                  let same : q ≡ p = (text_eq_iff q p).0 y in
                  let entry = entry_for rec (some x) in
                  let up = idle-insert_flying p entry keep (find-flying p old x found flying) in
                  let rest =
                    (apply-unlisted recs (remove_entry p old) (insert_entry p entry keep)
                      (ground arith)).1 in
                  rw (e, same, found) (omega (arith, rest, up, kept))
              | inr n ↦
                  let apart = idle-remove_ne p q old n in
                  let entry = entry_for rec (find_entry q old) in
                  rw e (
                    apply-flying recs (remove_entry q old) (insert_entry q entry keep) x
                      (ground arith) (rw apart.1 found) (omega (arith, apart.0, flying))
                      (omega (arith, (dials-insert_ne p q entry keep n).1, kept)))
            ]
      ]

  -- What the peers file may hold without harm to the syncs with the peer, of which there are `busy`:
  -- where there is one, the peer is named once at most, and not again after its entry was dropped.
  abbrev pub Keeps : ℕ → DaemonState A → PeersFile → Type 0
  Keeps busy st file =
      (table : Peers)
      → file.load ≡ inr table
      → 0 < busy
      → occurrences parse_peer_id p table.peers ≤ one (is_some (find_entry p st.peers))

  pub apply_idle :
      (busy : ℕ) (recs : List PeerRecord) (old : List (Text × PeerEntry A))
      → busy + idle p old ≤ 1
      → (0 < busy → occurrences parse_peer_id p recs ≤ one (is_some (find_entry p old)))
      → busy + idle p (apply_records parse_peer_id recs (old, [])) ≤ 1
  apply_idle zero recs old h kept = omega (
    arith,
    apply-once recs old [] (omega arith),
    dials-le-idle p (apply_records parse_peer_id recs (old, [])),
  )
  apply_idle (suc busy) recs old h kept = elim (Option-cases (find_entry p old)) [
    | inl e ↦
        let none_listed : occurrences parse_peer_id p recs ≡ 0 =
          let few = kept (omega arith) in omega (arith, rw e at few) in
        omega (arith, (apply-unlisted recs old [] none_listed).1, h)
    | inr (x, e) ↦
        let once : occurrences parse_peer_id p recs ≤ 1 =
          let few = kept (omega arith) in rw e at few in
        omega (arith, apply-flying recs old [] x once e (omega (arith, h)) refl, h)
  ]

  idle-reload_found :
      (busy : ℕ) (found : Metadata) (load : Text ⊎ Peers) (st : DaemonState A)
      → busy + idle p st.peers ≤ 1
      → ((table : Peers)
          → load ≡ inr table
          → 0 < busy
          → occurrences parse_peer_id p table.peers ≤ one (is_some (find_entry p st.peers)))
      → busy + idle p (reload_found parse_peer_id found load st).1.peers ≤ 1
  idle-reload_found busy not_found load st h kept = omega (arith, h)
  idle-reload_found busy stat_failed load st h kept = h
  idle-reload_found busy (modified mtime) (inl e) st h kept =
      elim (Bool-cases (same_mtime mtime st.peers_toml_mtime)) [ inl y ↦ rw y h | inr n ↦ rw n h ]
  idle-reload_found busy (modified mtime) (inr table) st h kept =
      elim (Bool-cases (same_mtime mtime st.peers_toml_mtime)) [
        | inl y ↦ rw y h
        | inr n ↦ rw n (apply_idle busy table.peers st.peers h (kept table refl))
      ]

  pub idle-reload :
      (busy : ℕ) (file : PeersFile) (st : DaemonState A)
      → busy + idle p st.peers ≤ 1
      → Keeps busy st file
      → busy + idle p (reload_peers_if_changed parse_peer_id file st).1.peers ≤ 1
  unfolding reload_peers_if_changed
  idle-reload busy file st h kept = idle-reload_found busy file.metadata file.load st h kept

same_mtime-ne :
    (mtime : ℕ) (seen : Option ℕ) → seen ≢ some mtime → same_mtime (some mtime) seen ≡ false
same_mtime-ne mtime none ne = refl
same_mtime-ne mtime (some t) ne = elim (Bool-cases (mtime == t)) [
  | inl y ↦ absurd (ne (ap some (sym ((==_iff mtime t).0 y))))
  | inr n ↦ n
]

-- Where the peers file has a new modification time and loads, and no record of it names the peer, a
-- request of the peer is refused as not paired, whatever the daemon knew of the peer before: neither
-- the repository nor the rate limit is touched, and nothing is dialled.
module _ (𝓙 : Serde) (𝓡 : Repo) (describe : 𝓡.Error → Text) (decimal : ℕ → Text) where
  -- Where the peers file has a new modification time and loads, and no record of it names the
  -- peer, a request of the peer is refused as not paired, whatever the daemon knew of the peer
  -- before: the repository is not read, the rate limit is not touched, and nothing is dialled.
  pub handle_inbound_revoked :
      {A : Type 0} (parse_peer_id : Text → Option Text) (peer : Text) (now : ℕ) (repo : 𝓡.State)
      (bytes : Bytes) (table : Peers) (mtime : ℕ) (d : Daemon A)
      → d.state.peers_toml_mtime ≢ some mtime
      → occurrences parse_peer_id peer table.peers ≡ 0
      → handle_inbound 𝓙 𝓡 describe decimal parse_peer_id
          (record { metadata = modified (some mtime); load = inr table })
          now
          repo
          peer
          bytes
          d
        ≡ (
          ok (not_paired 𝓙 𝓡 describe decimal),
          record d {
            state = record {
              peers = apply_records parse_peer_id table.peers (d.state.peers, []);
              peers_toml_mtime = some mtime;
            };
          },
        )
  unfolding handle_inbound reload_peers_if_changed
  handle_inbound_revoked parse_peer_id peer now repo bytes table mtime d changed unlisted =
      let gone =
        find_entry-none peer (apply_records parse_peer_id table.peers (d.state.peers, []))
          (apply-unlisted parse_peer_id peer table.peers d.state.peers [] unlisted).0 in
      rw (same_mtime-ne mtime d.state.peers_toml_mtime changed, gone)
