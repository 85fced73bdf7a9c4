-- ===== src/Sync/Pairing/Session/Confirmed.antt =====
-- What the device that shows a PIN has received when it pairs (crates/bypass-cli/src/sync/pairing.rs).
use bypass.Prelude.{
  ◌≡◌, refl, ap, ◌∙◌, inl, inr, true, Bool-cases, Outcome, ok, map_err, returned, map_err-eq-ok,
  returned-eq-ok, arith,
}
use bypass.Exec.{continue_lem, continue-eq-ok}
use bypass.Text.{Text, Bytes, codes}
use bypass.Sync.Pairing.{
  Libraries, Keypair, PairedPeer, WireBody, WireMsg, IdentityBundle, protocol_id, validate_pin,
  paired_peer, identity, confirmation_tag, decode_wire, want_identity, want_spake, confirm, spake2,
  constant_time_eq, encode_wire, transport, PairingError,
}
use bypass.Sync.Pairing.Session.{Transport, run_show_side, show_key, show_identity, next, read_body}

want_identity_inv :
    (𝓛 : Libraries) (TE : Type 0) (body : WireBody) (received : Bytes × IdentityBundle)
    → want_identity 𝓛 TE body ≡ ok received
    → body ≡ identity received.0 received.1
want_identity_inv 𝓛 TE (identity c b) received e = ground arith
want_identity_inv 𝓛 TE (WireBody.spake m) received e = cc
want_identity_inv 𝓛 TE (WireBody.spake_ack m c) received e = cc
want_identity_inv 𝓛 TE (WireBody.identity_ack b) received e = cc

confirm_inv :
    (𝓛 : Libraries) (TE : Type 0) (theirs expected : Bytes) (u : Unit {0})
    → confirm 𝓛 TE theirs expected ≡ ok u
    → constant_time_eq theirs expected ≡ true
confirm_inv 𝓛 TE theirs expected u e = elim (Bool-cases (constant_time_eq theirs expected)) [
  | inl same ↦ same
  | inr other ↦ cc (rw other at e)
]

ok_inv : {E A : Type 0} {a b : A} → ◌≡◌ {A = Outcome E A} (ok a) (ok b) → a ≡ b
ok_inv e = ground arith

want_spake_inv :
    (𝓛 : Libraries) (TE : Type 0) (body : WireBody) (message : Bytes)
    → want_spake 𝓛 TE body ≡ ok message
    → body ≡ WireBody.spake message
want_spake_inv 𝓛 TE (WireBody.spake m) message e = ground arith
want_spake_inv 𝓛 TE (identity c b) message e = cc
want_spake_inv 𝓛 TE (WireBody.spake_ack m c) message e = cc
want_spake_inv 𝓛 TE (WireBody.identity_ack b) message e = cc

module _ (𝓛 : Libraries) (𝓣 : Transport) where
  -- What the transport hands out as the next request is this message.
  abbrev pub Arrives : 𝓣.State → Bytes → WireBody → Type 0
  Arrives s bytes body =
      ((𝓣.next_request s).0 ≡ ok bytes)
      × ((msg : WireMsg) × (decode_wire 𝓛 𝓣.Error bytes ≡ ok msg) × (msg.body ≡ body))

  -- The transport after a request and the reply to it.
  abbrev pub replied : 𝓣.State → WireBody → 𝓣.State
  replied s body = 𝓣.send_reply (𝓣.next_request s).1 (encode_wire 𝓛 body)

  -- The first request that arrives has a SPAKE2 message, with which the side's own run gives a key;
  -- the one that arrives after the reply to it has an identity, with the tag of that key in the
  -- domain of the side that enters.
  pub record IsConfirmed (pin : Text) (coins : 𝓛.Coins) (now : Text) (s : 𝓣.State) (p : PairedPeer)
      : Type 0 where
    pub first : Bytes
    pub peer_message : Bytes
    pub first_arrives : Arrives s first (WireBody.spake peer_message)
    pub key : Bytes
    pub keyed : 𝓛.finish (𝓛.start_symmetric pin protocol_id coins).0 peer_message ≡ inr key
    pub second : Bytes
    pub confirmation : Bytes
    pub second_arrives :
        Arrives
          (replied s (
            WireBody.spake_ack
              (𝓛.start_symmetric pin protocol_id coins).1
              (confirmation_tag 𝓛 key (codes "show-confirms"))))
          second
          (identity confirmation p.remote)
    pub agrees :
        constant_time_eq confirmation (confirmation_tag 𝓛 key (codes "enter-confirms")) ≡ true
    pub recorded : p ≡ paired_peer now p.remote

  read_identity :
      (bytes : Bytes) (s : 𝓣.State) (received : Bytes × IdentityBundle)
      → (read_body 𝓛 𝓣 (want_identity 𝓛 𝓣.Error) bytes s).0 ≡ ok received
      → (msg : WireMsg) × (decode_wire 𝓛 𝓣.Error bytes ≡ ok msg)
        × (msg.body ≡ identity received.0 received.1)
  read_identity bytes s received e =
      let (msg, decodes, wanted) = continue-eq-ok _ (decode_wire 𝓛 𝓣.Error bytes) s e in
      (msg, decodes, want_identity_inv 𝓛 𝓣.Error msg.body received wanted)

  read_spake :
      (bytes : Bytes) (s : 𝓣.State) (message : Bytes)
      → (read_body 𝓛 𝓣 (want_spake 𝓛 𝓣.Error) bytes s).0 ≡ ok message
      → (msg : WireMsg) × (decode_wire 𝓛 𝓣.Error bytes ≡ ok msg)
        × (msg.body ≡ WireBody.spake message)
  read_spake bytes s message e =
      let (msg, decodes, wanted) = continue-eq-ok _ (decode_wire 𝓛 𝓣.Error bytes) s e in
      (msg, decodes, want_spake_inv 𝓛 𝓣.Error msg.body message wanted)

  -- To read a body does not touch the transport.
  read_body_state :
      {A : Type 0} (want : WireBody → Outcome (PairingError 𝓛.SpakeError 𝓣.Error) A) (bytes : Bytes)
      (s : 𝓣.State)
      → (read_body 𝓛 𝓣 want bytes s).1 ≡ s
  read_body_state want bytes s =
      continue_lem (λ t. t ≡ s) _ (decode_wire 𝓛 𝓣.Error bytes) s (λ _ _. refl) refl

  module _ (pin : Text) (local : Keypair) (name : Text) (coins : 𝓛.Coins) (now : Text) where
    -- What `show_key` has received, and where it leaves the transport.
    abbrev Keyed : 𝓣.State → Bytes → Type 0
    Keyed s key =
        (first : Bytes) × (peer_message : Bytes) × Arrives s first (WireBody.spake peer_message)
        × (𝓛.finish (𝓛.start_symmetric pin protocol_id coins).0 peer_message ≡ inr key)
        × ((show_key 𝓛 𝓣 pin local name coins now s).1
            ≡ replied s (
                WireBody.spake_ack (𝓛.start_symmetric pin protocol_id coins).1
                  (confirmation_tag 𝓛 key (codes "show-confirms"))))

    show_key-Keyed :
        (s : 𝓣.State) (key : Bytes)
        → (show_key 𝓛 𝓣 pin local name coins now s).0 ≡ ok key
        → Keyed s key
    unfolding show_key
    show_key-Keyed s key e =
        let t = (next 𝓛 𝓣 s).1 in
        let (first, read, e1) = continue-eq-ok _ (next 𝓛 𝓣 s).0 t e in
        let asked = read_body 𝓛 𝓣 (want_spake 𝓛 𝓣.Error) first t in
        let (message, got, e2) = continue-eq-ok _ asked.0 asked.1 e1 in
        let start = 𝓛.start_symmetric pin protocol_id coins in
        let (found, finished, e3) =
          continue-eq-ok _ (map_err spake2 (returned (𝓛.finish start.0 message))) asked.1 e2 in
        let same : found ≡ key = ok_inv e3 in
        (
          first,
          message,
          (map_err-eq-ok transport _ read, read_spake first t message got),
          returned-eq-ok spake2 (𝓛.finish start.0 message) finished ∙ ap inr same,
          rw (read, got, finished, read_body_state (want_spake 𝓛 𝓣.Error) first t, same) refl,
        )

    show_identity_inv :
        (key : Bytes) (s : 𝓣.State) (p : PairedPeer)
        → (show_identity 𝓛 𝓣 pin local name coins now key s).0 ≡ ok p
        → (second : Bytes) × (confirmation : Bytes) × Arrives s second
            (identity confirmation p.remote)
          × (constant_time_eq confirmation (confirmation_tag 𝓛 key (codes "enter-confirms")) ≡ true)
          × (p ≡ paired_peer now p.remote)
    unfolding show_identity
    show_identity_inv key s p e =
        let t = (next 𝓛 𝓣 s).1 in
        let (second, read, e1) = continue-eq-ok _ (next 𝓛 𝓣 s).0 t e in
        let asked = read_body 𝓛 𝓣 (want_identity 𝓛 𝓣.Error) second t in
        let (received, got, e2) = continue-eq-ok _ asked.0 asked.1 e1 in
        let tag = confirmation_tag 𝓛 key (codes "enter-confirms") in
        let (u, confirmed, e3) = continue-eq-ok _ (confirm 𝓛 𝓣.Error received.0 tag) asked.1 e2 in
        let same : paired_peer now received.1 ≡ p = ok_inv e3 in
        (
          second,
          received.0,
          rw (← same) (map_err-eq-ok transport _ read, read_identity second t received got),
          confirm_inv 𝓛 𝓣.Error received.0 tag u confirmed,
          rw (← same) refl,
        )

    -- Whatever the transport and the peer do: where a device that shows a PIN pairs, the first
    -- request that the transport handed out has a SPAKE2 message with which the device's own run
    -- gives a key; the request that the transport hands out after the reply to it has an identity
    -- and a confirmation that agrees with the tag of that key in the domain of the side that
    -- enters; and what is recorded is that identity and the time.
    pub run_show_side-IsConfirmed :
        (s : 𝓣.State) (p : PairedPeer)
        → (run_show_side 𝓛 𝓣 pin local name coins now s).0 ≡ ok p
        → IsConfirmed pin coins now s p
    unfolding run_show_side
    run_show_side-IsConfirmed s p e =
        let (u, valid, e1) = continue-eq-ok _ (validate_pin pin) s e in
        let keyed = show_key 𝓛 𝓣 pin local name coins now s in
        let (key, made, e2) = continue-eq-ok _ keyed.0 keyed.1 e1 in
        let (first, message, arrives, finished, state) = show_key-Keyed s key made in
        let (second, confirmation, next_arrives, agrees, recorded) =
          show_identity_inv key keyed.1 p e2 in
        record {
          first = first;
          peer_message = message;
          first_arrives = arrives;
          key = key;
          keyed = finished;
          second = second;
          confirmation = confirmation;
          second_arrives = rw (← state) next_arrives;
          agrees = agrees;
          recorded = recorded;
        }
