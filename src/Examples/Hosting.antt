-- ===== src/Examples/Hosting.antt =====
-- The native-messaging host at concrete inputs: a random generator that always draws 0, a standard
-- output that is a list of bytes, and a JSON library that knows one request and one reply.
use bypass.Prelude.{
  ℕ, suc, ◌≡◌, refl, ◌⊎◌, inl, inr, true, false, none, some, List, [], ◌∷◌, ◌++◌, arith, ok, length,
  All, In,
}
use bypass.Exec.{Exec}
use bypass.Text
use bypass.Text.{Text, Bytes, codes, text_eq}
use bypass.Text.Utf8
use bypass.Text.Utf8.{encode}
use bypass.RelPath.{parent, new}
use bypass.Vcs.{no_vcs}
use bypass.GpgId
use bypass.GpgId.{resolve_recipients}
use bypass.Store.{show}
use bypass.Store.Blobs.{entry_to_blob}
use bypass.Generate.{Rng, generate, draw, alphabet_of}
use bypass.Generate.Bounds.{IsRng, length-generate}
use bypass.Otp.{TotpLibrary}
use bypass.Host.{
  Session, Request, Reply, accept, refuse, nothing, ls, password, generate_op, unwrap_or,
}
use bypass.Host.InPlace.{show-generate_op}
use bypass.Host.Framing.{Sink}
use bypass.Host.Framing.RoundTrip.{IsSink}
use bypass.Host.Loop.{Json, Served, Connection, run}
use bypass.Host.Loop.Bounds.{Fits, IsBrief, frames_of, run-Fits}
use bypass.Host.Loop.Requests.{serve_all, at, run-serve_all}
use bypass.Cli.{generate_command}
use bypass.Cli.Rotation.{generate_command-generate_op}
use bypass.Examples.Backends.{
  Files, lookup, mem_storage, mem_storage-IsBlobMap, marking, marking-IsDecryptable, store_of,
}
use bypass.Examples.Paths.{path, web_bank, web_bank-IsValid, new-web_bank}
use bypass.Examples.Stores.{alice}

abbrev pub zeros : Rng
zeros = record { State = Unit {0}; random_below = λ s n. (0, s) }

pub zeros-IsRng : IsRng zeros
zeros-IsRng = record { random_below_lt = λ s n h. h }

length-generate_example :
    (out : Text) × ((generate zeros {E = ⊥} 3 true tt).0 ≡ ok out)
    × (length out ≡ 3)
    × All (λ c. In c (alphabet_of true)) out
length-generate_example = length-generate zeros zeros-IsRng 3 true tt

abbrev no_totp : TotpLibrary
no_totp = record {
  Totp = Unit {0};
  Error = Unit {0};
  from_url_unchecked = λ s. inl tt;
  generate_current = λ t. inl tt;
}

abbrev pub bank_files : Files
bank_files =
    (path (codes ".gpg-id"), codes "alice@example.org\n")
    ∷ (path (codes "web/bank.gpg"), 0x85 ∷ codes "old\nuser: me")
    ∷ []

abbrev session : Session marking mem_storage no_vcs zeros no_totp (λ s. s)
session = record { store = store_of bank_files; rng = tt }

bank_recipients : resolve_recipients mem_storage bank_files web_bank ≡ ok (alice ∷ [])
unfolding resolve_recipients GpgId.gpg_id_path GpgId.parse_gpg_id parent new lookup Text.contains
    Text.split Text.starts_with Text.ends_with Text.rsplit_once Utf8.from_utf8 Text.lines Text.trim
    Text.is_whitespace bypass.RelPath.join
bank_recipients = refl

drawn_a :
    (generate zeros {E = ⊥} (unwrap_or (some 3) 25) (unwrap_or none true) tt).0 ≡ ok (codes "AAA")
unfolding generate draw unwrap_or alphabet_of
drawn_a = refl

pub bank_shown :
    show marking mem_storage no_vcs web_bank (store_of bank_files)
    ≡ (ok (codes "old\nuser: me"), store_of bank_files)
unfolding show entry_to_blob lookup new Text.contains Text.split Text.starts_with Text.ends_with
bank_shown = refl

show-generate_op_example :
    ((generate_op marking mem_storage no_vcs zeros no_totp
        (λ s. s)
        7
        web_bank
        (some 3)
        none
        true
        false
        session).0
      ≡ ok (accept 7 (password (codes "AAA"))))
    × ((show marking mem_storage no_vcs web_bank
          (generate_op marking mem_storage no_vcs zeros no_totp
            (λ s. s)
            7
            web_bank
            (some 3)
            none
            true
            false
            session).1.store).0
        ≡ ok (encode (codes "AAA") ++ codes "\nuser: me"))
unfolding lookup text_eq Text.contains encode
show-generate_op_example =
    show-generate_op marking mem_storage no_vcs zeros no_totp (λ s. s) mem_storage-IsBlobMap
      marking-IsDecryptable 7 web_bank (some 3) none false session (codes "AAA") (codes "old")
      (codes "\nuser: me") (0x85 ∷ encode (codes "AAA") ++ codes "\nuser: me") (alice ∷ [])
      web_bank-IsValid tt drawn_a bank_shown refl (inr (codes "user: me", refl)) bank_recipients
      refl tt refl

generate_command-generate_op_example :
    (generate_command marking mem_storage no_vcs zeros no_totp
      (λ s. s)
      ⊥
      (λ bytes. inr tt)
      (codes "web/bank")
      (some 3)
      false
      true
      false
      false
      (record { store = store_of bank_files; rng = tt; shown = [] })).1.store
    ≡ (generate_op marking mem_storage no_vcs zeros no_totp
        (λ s. s)
        7
        web_bank
        (some 3)
        (some true)
        true
        false
        session).1.store
generate_command-generate_op_example =
    generate_command-generate_op marking mem_storage no_vcs zeros no_totp (λ s. s) ⊥
      (λ bytes. inr tt) (codes "web/bank") web_bank 7 (some 3) false true false false []
      (store_of bank_files) tt new-web_bank

abbrev byte_sink : Sink
byte_sink = record {
  State = Bytes;
  Error = ⊥;
  write_all = λ s bytes. (ok tt, s ++ bytes);
  flush = λ s. (ok tt, s);
}

abbrev byte_sink-IsSink : IsSink byte_sink
byte_sink-IsSink = record {
  content = λ s. s;
  write_all_lem = λ s bytes. (refl, refl);
  flush_lem = λ s. (refl, refl);
}

abbrev reply_bytes : Reply ⊥ ⊥ → Bytes
reply_bytes (accept id body) = codes "[]"
reply_bytes (refuse id message) = codes "no"

abbrev tiny_json : Json ⊥ ⊥
tiny_json = record {
  Error = ⊥;
  from_slice = λ bytes. inr (record { id = 1; body = ls none });
  to_vec = λ reply. inr (reply_bytes reply);
}

abbrev count : Request → Exec ℕ ⊥ (Reply ⊥ ⊥)
count req n = (ok (accept req.id nothing), suc n)

abbrev fresh : Served ℕ Bytes
fresh = record { session = 0; output = [] }

two_requests-Fits : All Fits (codes "{}" ∷ codes "{}" ∷ [])
two_requests-Fits = (omega arith, (omega arith, tt))

run-serve_all_example :
    ((run ⊥ tiny_json byte_sink count
        (at ⊥ tiny_json byte_sink count (codes "{}" ∷ codes "{}" ∷ []) fresh)).0
      ≡ (serve_all ⊥ tiny_json byte_sink count (codes "{}" ∷ codes "{}" ∷ []) fresh).0)
    × ((run ⊥ tiny_json byte_sink count
          (at ⊥ tiny_json byte_sink count (codes "{}" ∷ codes "{}" ∷ []) fresh)).1.served
        ≡ (serve_all ⊥ tiny_json byte_sink count (codes "{}" ∷ codes "{}" ∷ []) fresh).1)
run-serve_all_example =
    run-serve_all ⊥ tiny_json byte_sink count (codes "{}" ∷ codes "{}" ∷ []) fresh two_requests-Fits

abbrev two_requests : Connection ⊥ ℕ Bytes
two_requests = at ⊥ tiny_json byte_sink count (codes "{}" ∷ codes "{}" ∷ []) fresh

brief : IsBrief tiny_json
brief n bytes e = omega (arith, length_no bytes e)
  where
    length_no :
        (bytes : Bytes) → ◌≡◌ {A = ⊥ ⊎ Bytes} (inr (codes "no")) (inr bytes) → length bytes ≡ 2
    length_no bytes e = ground arith

run-Fits_example :
    (bodies : List Bytes) × All Fits bodies
    × ((run ⊥ tiny_json byte_sink count two_requests).1.served.output ≡ [] ++ frames_of bodies)
run-Fits_example = run-Fits ⊥ tiny_json byte_sink count byte_sink-IsSink two_requests brief
