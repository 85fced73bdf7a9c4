-- ===== src/Examples/Daemons.antt =====
-- The sync daemon at concrete inputs: it pairs with one laptop and discovers it.
use bypass.Prelude.{ℕ, ◌+◌, ◌≤◌, ◌≡◌, refl, true, none, some, inl, inr, [], ◌∷◌, arith, ok}
use bypass.Text.{Text, codes, text_eq, is_some}
use bypass.Sync.Wire.{Serde}
use bypass.Sync.RateLimit.{check_and_record}
use bypass.Sync.Daemon.{
  PeersFile, modified, DaemonState, discovered, find_entry, insert_entry, update_entry,
  apply_records, handle_discovery,
}
use bypass.Sync.Daemon.Loop.{
  Daemon, here, next, discovery, dial, tick, started, on_discovery, on_tick, spawn_sync_with_peer,
  handle_inbound, not_paired,
}
use bypass.Sync.Daemon.Table.{idle}
use bypass.Sync.Daemon.Reload.{Keeps, handle_inbound_revoked}
use bypass.Sync.Daemon.Dials.{busy, busy-Run}
use bypass.Examples.Peering.{heads, table}

abbrev silent : Serde
silent = record { to_vec = λ m. []; from_slice = λ bytes. inl (codes "bad") }

abbrev laptop_id : Text
laptop_id = codes "12D3a"

abbrev first : Daemon ℕ
first = started some table (some 1)

abbrev same_file : PeersFile
same_file = record { metadata = modified (some 1); load = inr table }

abbrev second : Daemon ℕ
second = on_discovery some same_file (discovered laptop_id 7) first

abbrev third : Daemon ℕ
third = spawn_sync_with_peer 100 laptop_id 7 (record second { pending = [] })

laptop-Keeps :
    (n : ℕ) (st : DaemonState ℕ)
    → is_some (find_entry laptop_id st.peers) ≡ true
    → Keeps some laptop_id n st same_file
unfolding text_eq
laptop-Keeps n st known t e h = let same : table ≡ t = cc in rw (← same, known) (omega arith)

second_pending : second.pending ≡ (laptop_id, 7) ∷ []
unfolding handle_discovery apply_records find_entry insert_entry text_eq
second_pending = refl

busy-Run_example : busy laptop_id (on_tick third) + idle laptop_id (on_tick third).state.peers ≤ 1
unfolding handle_discovery apply_records find_entry spawn_sync_with_peer insert_entry update_entry
    check_and_record text_eq
busy-Run_example =
    busy-Run laptop_id silent heads (λ e. e) (λ n. []) some table (some 1) (on_tick third)
      (next same_file
        (next same_file (next same_file here (discovery (discovered laptop_id 7) refl))
          (dial 100 laptop_id 7 [] second_pending))
        (tick refl))
      (
        ((tt, laptop-Keeps 0 first.state refl), laptop-Keeps 1 second.state refl),
        laptop-Keeps 1 third.state refl,
      )

handle_inbound_revoked_example :
    handle_inbound silent heads
      (λ e. e)
      (λ n. [])
      some
      (record { metadata = modified (some 2); load = inr (record { peers = [] }) })
      100
      none
      laptop_id
      (codes "x")
      third
    ≡ (
      ok (not_paired silent heads (λ e. e) (λ n. [])),
      record third {
        state = record {
          peers = apply_records some [] (third.state.peers, []);
          peers_toml_mtime = some 2;
        };
      },
    )
unfolding handle_discovery apply_records find_entry spawn_sync_with_peer insert_entry update_entry
    check_and_record text_eq
handle_inbound_revoked_example =
    handle_inbound_revoked silent heads (λ e. e) (λ n. []) some laptop_id 100 none (codes "x")
      (record { peers = [] }) 2 third (λ e. cc) refl
