-- ===== src/Sync/Wire.antt =====
-- The frames of the sync protocol (crates/bypass-cli/src/sync/wire.rs). Serialisation by serde_json is
-- a parameter.
use bypass.Prelude.{◌≡◌, ◌⊎◌, inl, inr, Option, if◌then◌else◌, not}
use bypass.Text.{Text, Bytes, codes, text_eq}
use bypass.Text.Laws.{text_eq_refl}

abbrev pub wire_magic : Bytes
wire_magic = codes "BYPS-SYN"

pub data WireBody : Type 0 where
  want_pack_from : Option Text → Option Text → WireBody
  pack : Option Text → Bytes → WireBody
  refusal : Text → WireBody

pub record WireMsg : Type 0 where
  pub magic : Bytes
  pub body : WireBody

pub data WireError : Type 0 where
  decode_failed : Text → WireError
  bad_magic : WireError

pub record Serde : Type 0 where
  pub to_vec : WireMsg → Bytes
  pub from_slice : Bytes → Text ⊎ WireMsg

-- What serde_json promises for these types.
pub record IsSerde (𝓙 : Serde) : Type 0 where
  pub from_slice-to_vec : (m : WireMsg) → 𝓙.from_slice (𝓙.to_vec m) ≡ inr m

abbrev pub message : WireBody → WireMsg
message body = record { magic = wire_magic; body = body }

module _ (𝓙 : Serde) where
  unfoldable pub encode : WireMsg → Bytes
  encode msg = 𝓙.to_vec msg

  abbrev check_magic : Text ⊎ WireMsg → WireError ⊎ WireMsg
  check_magic (inl e) = inl (decode_failed e)
  check_magic (inr msg) = if not (text_eq msg.magic wire_magic) then inl bad_magic else inr msg

  unfoldable pub decode : Bytes → WireError ⊎ WireMsg
  decode bytes = check_magic (𝓙.from_slice bytes)

-- Where serialisation round-trips, a message that the constructors built is decoded from its
-- encoding.
pub decode-encode :
    {𝓙 : Serde} (laws : IsSerde 𝓙) (body : WireBody)
    → decode 𝓙 (encode 𝓙 (message body)) ≡ inr (message body)
unfolding decode encode
decode-encode laws body = rw (laws.from_slice-to_vec (message body), text_eq_refl wire_magic)
