-- ===== src/Examples/Pairings.antt =====
-- Pairing at concrete inputs: a key exchange whose key is the PIN, a hash that is constant, and
-- messages whose texts stand behind their lengths.
use bypass.Prelude.{ℕ, zero, suc, ◌≤◌, ◌≡◌, refl, ap, inr, [], ◌∷◌, ◌++◌, arith, ok, ◌+◌}
use bypass.Text.{Text, Bytes, codes}
use bypass.Text.Utf8.{encode}
use bypass.Sync.Pairing.{
  Libraries, Keypair, IdentityBundle, WireBody, WireMsg, spake, spake_ack, identity, identity_ack,
  validate_pin, paired_peer, from_local,
}
use bypass.Sync.Pairing.Pins.{generate_pin, validate_pin-generate_pin}
use bypass.Sync.Pairing.Calendar.{
  civil_from_days, civil_from_days_lem, days_in_month, days_before_month, days_before_year,
}
use bypass.Sync.Pairing.Session.{run_show_side, run_enter_side}
use bypass.Sync.Pairing.Session.Agreement.{
  IsTag, IsPairing, script, scripted, run_show_side-run_enter_side,
}
use bypass.Sync.Pairing.Session.Confirmed.{IsConfirmed, run_show_side-IsConfirmed}
use bypass.Examples.Peering.{put, get, get-put, get-put_all}
use bypass.Examples.Hosting.{zeros, zeros-IsRng}

abbrev put_bundle : IdentityBundle → Bytes
put_bundle b = put b.name ++ (put b.peer_id ++ put b.identity_pubkey_hex)

abbrev put_body : WireBody → Bytes
put_body (spake m) = 0 ∷ put m
put_body (spake_ack m c) = 1 ∷ (put m ++ put c)
put_body (identity c b) = 2 ∷ (put c ++ put_bundle b)
put_body (identity_ack b) = 3 ∷ put_bundle b

abbrev get_bundle : Bytes → IdentityBundle
get_bundle bs = record {
  name = (get bs).0;
  peer_id = (get (get bs).1).0;
  identity_pubkey_hex = (get (get (get bs).1).1).0;
}

get_body : Bytes → WireBody
get_body [] = spake []
get_body (zero ∷ bs) = spake (get bs).0
get_body (suc zero ∷ bs) = spake_ack (get bs).0 (get (get bs).1).0
get_body (suc (suc zero) ∷ bs) = identity (get bs).0 (get_bundle (get bs).1)
get_body (suc (suc (suc n)) ∷ bs) = identity_ack (get_bundle bs)

get_bundle-put_bundle : (b : IdentityBundle) → get_bundle (put_bundle b) ≡ b
get_bundle-put_bundle b =
    rw
      (
        get-put b.name (put b.peer_id ++ put b.identity_pubkey_hex),
        get-put b.peer_id (put b.identity_pubkey_hex),
        get-put_all b.identity_pubkey_hex,
      )
      refl

get_body-put_body : (b : WireBody) → get_body (put_body b) ≡ b
unfolding get_body
get_body-put_body (spake m) = rw (get-put_all m) refl
get_body-put_body (spake_ack m c) = rw (get-put m (put c), get-put_all c) refl
get_body-put_body (identity c b) =
    rw (get-put c (put_bundle b)) (ap (identity c) (get_bundle-put_bundle b))
get_body-put_body (identity_ack b) = ap identity_ack (get_bundle-put_bundle b)

abbrev get_message : Bytes → WireMsg
get_message bytes = record { magic = (get bytes).0; body = get_body (get bytes).1 }

get_message-put : (m : WireMsg) → get_message (put m.magic ++ put_body m.body) ≡ m
get_message-put m = rw (get-put m.magic (put_body m.body), get_body-put_body m.body) refl

repeated : ℕ → Bytes
repeated zero = []
repeated (suc n) = 7 ∷ repeated n

abbrev open_key : Libraries
open_key = record {
  Coins = Unit {0};
  Spake = Text;
  SpakeError = Unit {0};
  start_symmetric = λ pin id coins. (pin, id);
  finish = λ pin msg. inr pin;
  sha256 = λ bytes. repeated 32;
  to_vec = λ m. put m.magic ++ put_body m.body;
  from_slice = λ bytes. inr (get_message bytes);
}

repeated-IsTag : IsTag (repeated 32)
unfolding repeated
repeated-IsTag = record { long = refl; bytes = ground arith }

open_key-IsPairing : IsPairing open_key
open_key-IsPairing = record {
  from_slice-to_vec = λ m. ap inr (get_message-put m);
  sha256-IsTag = λ bytes. repeated-IsTag;
  same_key = λ pin ours theirs. (pin, refl, refl);
}

abbrev laptop_key : Keypair
laptop_key = record { public_protobuf = 8 ∷ 1 ∷ []; peer_id_base58 = codes "12D3a" }

abbrev phone_key : Keypair
phone_key = record { public_protobuf = 8 ∷ 2 ∷ []; peer_id_base58 = codes "12D3b" }

abbrev pin : Text
pin = codes "042917"

pin_valid : validate_pin {SE = Unit {0}} {TE = Unit {0}} pin ≡ ok tt
unfolding validate_pin encode
pin_valid = refl

run_show_side-run_enter_side_example :
    (first second third fourth : Bytes) × (run_show_side open_key scripted pin laptop_key
        (codes "laptop")
        tt
        (codes "now")
        (script (first ∷ third ∷ []))
      ≡ (
        ok (paired_peer (codes "now") (from_local phone_key (codes "phone"))),
        record { inbox = []; sent = second ∷ fourth ∷ [] },
      ))
    × (run_enter_side open_key scripted pin phone_key
          (codes "phone")
          tt
          (codes "now")
          (script (second ∷ fourth ∷ []))
        ≡ (
          ok (paired_peer (codes "now") (from_local laptop_key (codes "laptop"))),
          record { inbox = []; sent = first ∷ third ∷ [] },
        ))
run_show_side-run_enter_side_example =
    run_show_side-run_enter_side open_key open_key-IsPairing pin laptop_key phone_key
      (codes "laptop") (codes "phone") tt tt (codes "now") (codes "now") pin_valid

validate_pin-generate_pin_example :
    validate_pin {SE = Unit {0}} {TE = Unit {0}} (generate_pin zeros tt) ≡ ok tt
validate_pin-generate_pin_example = validate_pin-generate_pin zeros zeros-IsRng tt

-- The 29th of February 2024 is day 19782.
civil_from_days_lem_example :
    ((1 ≤ (civil_from_days 19782).month) × ((civil_from_days 19782).month ≤ 12))
    × ((1 ≤ (civil_from_days 19782).day)
        × ((civil_from_days 19782).day
            ≤ days_in_month (civil_from_days 19782).year (civil_from_days 19782).month))
    × (days_before_year (civil_from_days 19782).year
          + days_before_month (civil_from_days 19782).year (civil_from_days 19782).month
          + (civil_from_days 19782).day
        ≡ 19782 + 719163)
civil_from_days_lem_example = civil_from_days_lem 19782

leap_day_2024 : civil_from_days 19782 ≡ record { year = 2024; month = 2; day = 29 }
unfolding civil_from_days
leap_day_2024 = refl

run_show_side-IsConfirmed_example :
    IsConfirmed open_key scripted pin tt
      (codes "now")
      (script
        (run_show_side-run_enter_side_example.0 ∷ run_show_side-run_enter_side_example.2 ∷ []))
      (paired_peer (codes "now") (from_local phone_key (codes "phone")))
run_show_side-IsConfirmed_example =
    run_show_side-IsConfirmed open_key scripted pin laptop_key (codes "laptop") tt (codes "now")
      (script
        (run_show_side-run_enter_side_example.0 ∷ run_show_side-run_enter_side_example.2 ∷ []))
      (paired_peer (codes "now") (from_local phone_key (codes "phone")))
      (ap (λ r. r.0) run_show_side-run_enter_side_example.4)
