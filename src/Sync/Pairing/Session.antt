-- ===== src/Sync/Pairing/Session.antt =====
-- The two sides of a pairing, `run_show_side` and `run_enter_side` of
-- crates/bypass-cli/src/sync/pairing.rs, over a transport.
pub mod Agreement
pub mod Confirmed
use bypass.Prelude.{◌⊎◌, inl, inr, List, [], ◌∷◌, ◌++◌, Outcome, ok, err, abort, map_err, returned}
use bypass.Exec.{Exec, pure, raise, lift, ◌>>=◌, ◌>>◌}
use bypass.Text.{Text, Bytes, codes}
use bypass.Sync.Pairing.{
  Libraries, Keypair, IdentityBundle, PairedPeer, PairingError, WireBody, spake, spake_ack,
  identity, identity_ack, protocol_id, from_local, validate_pin, paired_peer, confirmation_tag,
  encode_wire, decode_wire, want_spake, want_spake_ack, want_identity, want_identity_ack, confirm,
  spake2, transport,
}

-- A transport: the next request of a peer, the reply to it, and a request to a peer.
pub record Transport : Type 1 where
  pub State : Type 0
  pub Error : Type 0
  pub next_request : State → Outcome Error Bytes × State
  pub send_reply : State → Bytes → State
  pub request : State → Bytes → Outcome Error Bytes × State

abbrev pub show_domain : Bytes
show_domain = codes "show-confirms"

abbrev pub enter_domain : Bytes
enter_domain = codes "enter-confirms"

module _ (𝓛 : Libraries) (𝓣 : Transport) where
  abbrev pub Error : Type 0
  Error = PairingError 𝓛.SpakeError 𝓣.Error

  abbrev pub Pairing : Type 0 → Type 0
  Pairing A = Exec 𝓣.State Error A

  abbrev pub next : Pairing Bytes
  next s = (map_err transport (𝓣.next_request s).0, (𝓣.next_request s).1)

  abbrev pub answer : WireBody → Pairing (Unit {0})
  answer body s = (ok tt, 𝓣.send_reply s (encode_wire 𝓛 body))

  abbrev pub ask : WireBody → Pairing Bytes
  ask body s =
      (map_err transport (𝓣.request s (encode_wire 𝓛 body)).0, (𝓣.request s (encode_wire 𝓛 body)).1)

  abbrev pub read_body : {A : Type 0} → (WireBody → Outcome Error A) → Bytes → Pairing A
  read_body want bytes = do msg ← lift (decode_wire 𝓛 𝓣.Error bytes); lift (want msg.body)

  abbrev pub finish_spake : 𝓛.Spake → Bytes → Pairing Bytes
  finish_spake state msg = lift (map_err spake2 (returned (𝓛.finish state msg)))

  module _ (pin : Text) (local : Keypair) (local_name : Text) (coins : 𝓛.Coins) (now : Text) where
    abbrev pub started : 𝓛.Spake × Bytes
    started = 𝓛.start_symmetric pin protocol_id coins

    -- From the first request to the reply to it.
    unfoldable pub show_key : Pairing Bytes
    show_key = do
      first ← next
      peer_spake_msg ← read_body (want_spake 𝓛 𝓣.Error) first
      key ← finish_spake started.0 peer_spake_msg
      answer (spake_ack started.1 (confirmation_tag 𝓛 key show_domain))
      pure key

    -- From the second request on, with the key.
    unfoldable pub show_identity : Bytes → Pairing PairedPeer
    show_identity key = do
      second ← next
      received ← read_body (want_identity 𝓛 𝓣.Error) second
      lift (confirm 𝓛 𝓣.Error received.0 (confirmation_tag 𝓛 key enter_domain))
      answer (identity_ack (from_local local local_name))
      pure (paired_peer now received.1)

    unfoldable pub run_show_side : Pairing PairedPeer
    unfolding show_key show_identity
    run_show_side = do lift (validate_pin pin); key ← show_key; show_identity key

    -- The first round of the other side, up to the check of the reply.
    unfoldable pub enter_key : Pairing Bytes
    enter_key = do
      first_reply ← ask (spake started.1)
      received ← read_body (want_spake_ack 𝓛 𝓣.Error) first_reply
      key ← finish_spake started.0 received.0
      lift (confirm 𝓛 𝓣.Error received.1 (confirmation_tag 𝓛 key show_domain))
      pure key

    -- Its second round, with the key.
    unfoldable pub enter_identity : Bytes → Pairing PairedPeer
    enter_identity key = do
      second_reply ←
          ask (identity (confirmation_tag 𝓛 key enter_domain) (from_local local local_name))
      remote_bundle ← read_body (want_identity_ack 𝓛 𝓣.Error) second_reply
      pure (paired_peer now remote_bundle)

    unfoldable pub run_enter_side : Pairing PairedPeer
    unfolding enter_key enter_identity
    run_enter_side = do lift (validate_pin pin); key ← enter_key; enter_identity key
