-- ===== src/Sync/Pairing.antt =====
-- Pairing of two devices by a PIN (crates/bypass-cli/src/sync/pairing.rs): the messages, the two
-- sides, and the checks. SPAKE2, SHA-256, serde_json, the key pair and the clock are parameters; the
-- text of an error is represented by what it names.
pub mod Tags
pub mod Calendar
pub mod Pins
pub mod Session
use Prim.Native.Nat.{bit_or, bit_xor}
use bypass.Prelude.{
  ℕ, ◌+◌, ◌*◌, ◌/◌, ◌%◌, ◌⊎◌, inl, inr, Bool, not, ◌&&◌, List, [], ◌∷◌, ◌++◌, Outcome, ok, err,
  map_err, returned, ◌==◌, if◌then◌else◌, all, length,
}
use bypass.Exec.{Exec, pure, raise, lift, ◌>>=◌, ◌>>◌}
use bypass.Text.{Text, Bytes, codes, text_eq, is_ascii_digit}
use bypass.Text.Utf8.{encode}
use bypass.Sync.Peers.{PeerRecord}

abbrev pub protocol_id : Bytes
protocol_id = codes "bypass-pair-v1"

abbrev pub pin_len : ℕ
pin_len = 6

abbrev pub wire_magic : Bytes
wire_magic = codes "BYPS-PAR"

pub record IdentityBundle : Type 0 where
  pub name : Text
  pub peer_id : Text
  pub identity_pubkey_hex : Text

pub data WireBody : Type 0 where
  spake : Bytes → WireBody
  spake_ack : Bytes → Bytes → WireBody
  identity : Bytes → IdentityBundle → WireBody
  identity_ack : IdentityBundle → WireBody

pub record WireMsg : Type 0 where
  pub magic : Bytes
  pub body : WireBody

-- What the text of a wire error says.
pub data WireError : Type 0 where
  undecodable : Text → WireError
  wrong_magic : Bytes → WireError
  expected_spake : WireBody → WireError
  expected_spake_ack : WireBody → WireError
  expected_identity : WireBody → WireError
  expected_identity_ack : WireBody → WireError

pub data PairingError (SE TE : Type 0) : Type 0 where
  invalid_pin : Text → PairingError SE TE
  spake2 : SE → PairingError SE TE
  bad_confirmation : PairingError SE TE
  wire : WireError → PairingError SE TE
  transport : TE → PairingError SE TE
  peer_dropped : PairingError SE TE

pub record PairedPeer : Type 0 where
  pub remote : IdentityBundle
  pub peer_record : PeerRecord

-- The libraries: a symmetric SPAKE2 run on the password, the identity and its random numbers; a
-- hash; serde_json; and the rendering of this device's public key.
pub record Libraries : Type 1 where
  pub Coins : Type 0
  pub Spake : Type 0
  pub SpakeError : Type 0
  pub start_symmetric : Text → Bytes → Coins → Spake × Bytes
  pub finish : Spake → Bytes → SpakeError ⊎ Bytes
  pub sha256 : Bytes → Bytes
  pub to_vec : WireMsg → Bytes
  pub from_slice : Bytes → Text ⊎ WireMsg

-- `Keypair`: the protobuf of the public key, and the peer id in base58.
pub record Keypair : Type 0 where
  pub public_protobuf : Bytes
  pub peer_id_base58 : Text

abbrev pub hex_digit : ℕ → ℕ
hex_digit n = if n == n % 10 then b'0' + n else b'a' + (n % 10)

-- `{b:02x}` for each byte.
unfoldable pub hex_encode : Bytes → Text
hex_encode [] = []
hex_encode (b ∷ bs) = hex_digit (b / 16) ∷ hex_digit (b % 16) ∷ hex_encode bs

abbrev pub from_local : Keypair → Text → IdentityBundle
from_local kp name = record {
  name = name;
  peer_id = kp.peer_id_base58;
  identity_pubkey_hex = hex_encode kp.public_protobuf;
}

unfoldable pub validate_pin : {SE TE : Type 0} → Text → Outcome (PairingError SE TE) (Unit {0})
validate_pin pin =
    if (length (encode pin) == pin_len) && all is_ascii_digit pin
    then ok tt
    else err (invalid_pin pin)

-- The loop of `constant_time_eq`, with what it has gathered.
unfoldable pub difference : ℕ → Bytes → Bytes → ℕ
difference acc (a ∷ s) (b ∷ t) = difference (bit_or acc (bit_xor a b)) s t
difference acc _ _ = acc

unfoldable pub constant_time_eq : Bytes → Bytes → Bool
unfolding difference
constant_time_eq a b = difference 0 a b == 0

-- The record of a peer that has been paired at this time.
abbrev pub paired_peer : Text → IdentityBundle → PairedPeer
paired_peer now remote = record {
  remote = remote;
  peer_record = record {
    name = remote.name;
    peer_id = remote.peer_id;
    noise_static_key = remote.identity_pubkey_hex;
    paired_at = now;
  };
}

module _ (𝓛 : Libraries) where
  abbrev pub confirmation_tag : Bytes → Bytes → Bytes
  confirmation_tag key domain = 𝓛.sha256 (codes "bypass-conf-v1" ++ (domain ++ key))

  abbrev pub encode_wire : WireBody → Bytes
  encode_wire body = 𝓛.to_vec (record { magic = wire_magic; body = body })

  module _ (TE : Type 0) where
    abbrev pub Error : Type 0
    Error = PairingError 𝓛.SpakeError TE

    abbrev checked_magic : Text ⊎ WireMsg → Outcome Error WireMsg
    checked_magic (inl e) = err (wire (undecodable e))
    checked_magic (inr msg) =
        if not (text_eq msg.magic wire_magic) then err (wire (wrong_magic msg.magic)) else ok msg

    unfoldable pub decode_wire : Bytes → Outcome Error WireMsg
    decode_wire bytes = checked_magic (𝓛.from_slice bytes)

    abbrev pub want_spake : WireBody → Outcome Error Bytes
    want_spake (spake msg) = ok msg
    want_spake other = err (wire (expected_spake other))

    abbrev pub want_spake_ack : WireBody → Outcome Error (Bytes × Bytes)
    want_spake_ack (spake_ack msg confirmation) = ok (msg, confirmation)
    want_spake_ack other = err (wire (expected_spake_ack other))

    abbrev pub want_identity : WireBody → Outcome Error (Bytes × IdentityBundle)
    want_identity (identity confirmation bundle) = ok (confirmation, bundle)
    want_identity other = err (wire (expected_identity other))

    abbrev pub want_identity_ack : WireBody → Outcome Error IdentityBundle
    want_identity_ack (identity_ack bundle) = ok bundle
    want_identity_ack other = err (wire (expected_identity_ack other))

    -- Two tags must agree.
    abbrev pub confirm : Bytes → Bytes → Outcome Error (Unit {0})
    confirm theirs expected =
        if not (constant_time_eq theirs expected) then err bad_confirmation else ok tt
