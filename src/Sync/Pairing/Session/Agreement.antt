-- ===== src/Sync/Pairing/Session/Agreement.antt =====
-- Two devices with the same PIN pair with each other.
use bypass.Prelude.{◌≡◌, refl, inr, List, [], ◌∷◌, ◌++◌, Outcome, ok, err, All, length}
use bypass.Text.{Text, Bytes, codes}
use bypass.Text.Laws.{text_eq_refl}
use bypass.Sync.Pairing.{
  Libraries, Keypair, WireBody, WireMsg, protocol_id, from_local, validate_pin, paired_peer, spake,
  spake_ack, identity, identity_ack, confirmation_tag, encode_wire, decode_wire, wire_magic,
  confirm,
}
use bypass.Sync.Pairing.Tags.{IsByte, constant_time_eq_iff}
use bypass.Sync.Pairing.Session.{
  Transport, run_show_side, run_enter_side, show_key, show_identity, enter_key, enter_identity,
  show_domain, enter_domain,
}

-- A hash of 32 bytes.
pub record IsTag (tag : Bytes) : Type 0 where
  pub long : length tag ≡ 32
  pub bytes : All IsByte tag

-- What the libraries promise: serde_json reads back what it writes, SHA-256 gives 32 bytes, and
-- SPAKE2 gives both sides the same key where they use the same password.
pub record IsPairing (𝓛 : Libraries) : Type 0 where
  pub from_slice-to_vec : (m : WireMsg) → 𝓛.from_slice (𝓛.to_vec m) ≡ inr m
  pub sha256-IsTag : (bytes : Bytes) → IsTag (𝓛.sha256 bytes)
  pub same_key :
      (pin : Text) (ours theirs : 𝓛.Coins)
      → (key : Bytes) × (𝓛.finish
            (𝓛.start_symmetric pin protocol_id ours).0
            (𝓛.start_symmetric pin protocol_id theirs).1
          ≡ inr key)
        × (𝓛.finish
              (𝓛.start_symmetric pin protocol_id theirs).0
              (𝓛.start_symmetric pin protocol_id ours).1
            ≡ inr key)

-- A transport that hands out given messages and notes what is sent.
pub record Script : Type 0 where
  pub inbox : List Bytes
  pub sent : List Bytes

abbrev pub take : Script → Outcome (Unit {0}) Bytes × Script
take s = taken s s.inbox
  where
    taken : Script → List Bytes → Outcome (Unit {0}) Bytes × Script
    taken s [] = (err tt, s)
    taken s (m ∷ ms) = (ok m, record s { inbox = ms })

abbrev pub put : Script → Bytes → Script
put s m = record s { sent = s.sent ++ m ∷ [] }

abbrev pub scripted : Transport
scripted = record {
  State = Script;
  Error = Unit {0};
  next_request = take;
  send_reply = put;
  request = λ s m. take (put s m);
}

abbrev pub script : List Bytes → Script
script messages = record { inbox = messages; sent = [] }

module _ (𝓛 : Libraries) (laws : IsPairing 𝓛) where
  open laws use {from_slice-to_vec, sha256-IsTag, same_key}

  pub decode_wire-encode_wire :
      (TE : Type 0) (body : WireBody)
      → decode_wire 𝓛 TE (encode_wire 𝓛 body) ≡ ok (record { magic = wire_magic; body = body })
  unfolding decode_wire
  decode_wire-encode_wire TE body =
      rw (from_slice-to_vec (record { magic = wire_magic; body = body }), text_eq_refl wire_magic)
        refl

  pub confirm_same :
      (TE : Type 0) (key domain : Bytes)
      → confirm 𝓛 TE (confirmation_tag 𝓛 key domain) (confirmation_tag 𝓛 key domain) ≡ ok tt
  confirm_same TE key domain =
      let tag = confirmation_tag 𝓛 key domain in
      let whole = sha256-IsTag (codes "bypass-conf-v1" ++ (domain ++ key)) in
      rw ((constant_time_eq_iff tag tag whole.bytes whole.bytes refl).1 refl) refl

  module _ (pin : Text) (shown entered : Keypair) (show_name enter_name : Text)
      (show_coins enter_coins : 𝓛.Coins) (show_now enter_now : Text) where
    -- With libraries that keep their promises: where both devices use one PIN of the right form,
    -- there are four messages such that the device that shows the PIN, given the first and the
    -- third, sends the second and the fourth and pairs with the other, and the other, given the
    -- second and the fourth, sends the first and the third and pairs with it; each records the
    -- other's name, peer id and key.
    pub run_show_side-run_enter_side :
        validate_pin {SE = 𝓛.SpakeError} {TE = Unit {0}} pin ≡ ok tt
        → (first second third fourth : Bytes) × (run_show_side 𝓛 scripted pin shown show_name
              show_coins show_now
              (script (first ∷ third ∷ []))
            ≡ (
              ok (paired_peer show_now (from_local entered enter_name)),
              record { inbox = []; sent = second ∷ fourth ∷ [] },
            ))
          × (run_enter_side 𝓛 scripted pin entered enter_name enter_coins enter_now
                (script (second ∷ fourth ∷ []))
              ≡ (
                ok (paired_peer enter_now (from_local shown show_name)),
                record { inbox = []; sent = first ∷ third ∷ [] },
              ))
    unfolding run_show_side run_enter_side show_key show_identity enter_key enter_identity
    run_show_side-run_enter_side valid =
        let (key, ours, theirs) = same_key pin show_coins enter_coins in
        let show_start = 𝓛.start_symmetric pin protocol_id show_coins in
        let enter_start = 𝓛.start_symmetric pin protocol_id enter_coins in
        (
          encode_wire 𝓛 (spake enter_start.1),
          encode_wire 𝓛 (spake_ack show_start.1 (confirmation_tag 𝓛 key show_domain)),
          encode_wire 𝓛
              (identity (confirmation_tag 𝓛 key enter_domain) (from_local entered enter_name)),
          encode_wire 𝓛 (identity_ack (from_local shown show_name)),
          rw
              (
                valid,
                decode_wire-encode_wire (Unit {0}),
                ours,
                decode_wire-encode_wire (Unit {0}),
                confirm_same (Unit {0}) key enter_domain,
              )
              refl,
          rw
              (
                valid,
                decode_wire-encode_wire (Unit {0}),
                theirs,
                confirm_same (Unit {0}) key show_domain,
                decode_wire-encode_wire (Unit {0}),
              )
              refl,
        )
