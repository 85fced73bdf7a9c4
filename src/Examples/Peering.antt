-- ===== src/Examples/Peering.antt =====
-- Synchronisation at concrete inputs: a codec, a repository that is only its HEAD, and two devices.
use bypass.Prelude.{
  ℕ, zero, suc, ◌≤◌, ◌≡◌, ◌≢◌, ◌⊎◌, inr, refl, ap, true, false, Option, none, some, List, [], ◌∷◌,
  ◌++◌, ok, err, arith, length, if◌then◌else◌,
}
use bypass.Text.{Text, Bytes, codes, text_eq}
use bypass.Sync.RateLimit.{AttemptLog, check_and_record}
use bypass.Sync.RateLimit.Window.{within, accepted, within-accepted, check_and_record-retry}
use bypass.Sync.Peers.{PeerRecord, Peers}
use bypass.Sync.Wire.{
  WireBody, WireMsg, Serde, IsSerde, want_pack_from, pack, refusal, decode, message, encode,
}
use bypass.Sync.Syncing.{Repo, Paths}
use bypass.Sync.Syncing.Serving.{serve, MayReply, decode-serve}
use bypass.Sync.Syncing.TieBreak.{IsDiverged, Yields, reconcile_tie_break}
use bypass.Sync.Syncing.Receiving.{sync_with_peer}
use bypass.Sync.Syncing.Receiving.Guard.{IsQuietRepo, IsAudited, is_quiet, head-sync_with_peer}

abbrev two_in_ten : AttemptLog
two_in_ten = record { buckets = λ peer. []; max_attempts = 2; window = 10 }

within-accepted_example :
    within 10 14 (accepted (codes "p") (10 ∷ 11 ∷ 12 ∷ 25 ∷ []) two_in_ten) ≤ 2
within-accepted_example =
    within-accepted (codes "p") (10 ∷ 11 ∷ 12 ∷ 25 ∷ []) two_in_ten 14
      (omega arith, (omega arith, (omega arith, (omega arith, tt)))) (omega arith)

abbrev full_log : AttemptLog
full_log = record { buckets = λ peer. 10 ∷ 11 ∷ []; max_attempts = 2; window = 10 }

refused_at_twelve : (check_and_record (codes "p") 12 full_log).0 ≡ err (record { retry_after = 8 })
unfolding check_and_record
refused_at_twelve = refl

check_and_record-retry_example :
    (check_and_record (codes "p") 21 (check_and_record (codes "p") 12 full_log).1).0 ≡ ok tt
check_and_record-retry_example =
    check_and_record-retry (codes "p") 12 21 8 full_log (omega arith) refused_at_twelve
      (omega arith)

abbrev pub laptop : PeerRecord
laptop = record {
  name = codes "laptop";
  peer_id = codes "12D3a";
  noise_static_key = codes "00";
  paired_at = codes "2026";
}

abbrev phone : PeerRecord
phone = record {
  name = codes "phone";
  peer_id = codes "12D3b";
  noise_static_key = codes "01";
  paired_at = codes "2026";
}

abbrev pub table : Peers
table = record { peers = laptop ∷ [] }

-- A text with its length before it.
abbrev pub put : Text → Bytes
put t = length t ∷ t

abbrev pub put_option : Option Text → Bytes
put_option none = 0 ∷ []
put_option (some t) = 1 ∷ put t

abbrev pub put_body : WireBody → Bytes
put_body (want_pack_from h seen) = 0 ∷ (put_option h ++ put_option seen)
put_body (pack h bytes) = 1 ∷ (put_option h ++ put bytes)
put_body (refusal reason) = 2 ∷ put reason

-- The first so many, and the others.
cut : ℕ → Bytes → Bytes × Bytes
cut zero bs = ([], bs)
cut (suc n) [] = ([], [])
cut (suc n) (b ∷ bs) = (b ∷ (cut n bs).0, (cut n bs).1)

unfoldable pub get : Bytes → Text × Bytes
unfolding cut
get [] = ([], [])
get (n ∷ bs) = cut n bs

get_option : Bytes → Option Text × Bytes
unfolding get
get_option [] = (none, [])
get_option (zero ∷ bs) = (none, bs)
get_option (suc n ∷ bs) = (some (get bs).0, (get bs).1)

get_body : Bytes → WireBody
unfolding get_option
get_body [] = refusal []
get_body (zero ∷ bs) = want_pack_from (get_option bs).0 (get_option (get_option bs).1).0
get_body (suc zero ∷ bs) = pack (get_option bs).0 (get (get_option bs).1).0
get_body (suc (suc n) ∷ bs) = refusal (get bs).0

cut-append : (t r : Bytes) → cut (length t) (t ++ r) ≡ (t, r)
unfolding cut
cut-append [] r = refl
cut-append (b ∷ t) r = rw (cut-append t r)

pub get-put : (t r : Bytes) → get (put t ++ r) ≡ (t, r)
unfolding get
get-put t r = cut-append t r

get_option-put_option : (o : Option Text) (r : Bytes) → get_option (put_option o ++ r) ≡ (o, r)
unfolding get_option
get_option-put_option none r = refl
get_option-put_option (some t) r = rw (get-put t r)

cut-all : (t : Text) → cut (length t) t ≡ (t, [])
unfolding cut
cut-all [] = refl
cut-all (b ∷ t) = rw (cut-all t)

pub get-put_all : (t : Text) → get (put t) ≡ (t, [])
unfolding get
get-put_all t = cut-all t

get_option-put_option_all : (o : Option Text) → get_option (put_option o) ≡ (o, [])
unfolding get_option
get_option-put_option_all none = refl
get_option-put_option_all (some t) = rw (get-put_all t)

get_body-put_body : (b : WireBody) → get_body (put_body b) ≡ b
unfolding get_body
get_body-put_body (want_pack_from h seen) =
    rw (get_option-put_option h (put_option seen), get_option-put_option_all seen)
get_body-put_body (pack h bytes) = rw (get_option-put_option h (put bytes), get-put_all bytes)
get_body-put_body (refusal reason) = rw (get-put_all reason)

get_message : Bytes → WireMsg
get_message bytes = record { magic = (get bytes).0; body = get_body (get bytes).1 }

abbrev codec : Serde
codec = record {
  to_vec = λ m. put m.magic ++ put_body m.body;
  from_slice = λ bytes. inr (get_message bytes);
}

get_message-put : (m : WireMsg) → get_message (put m.magic ++ put_body m.body) ≡ m
unfolding get_message
get_message-put m = rw (get-put m.magic (put_body m.body), get_body-put_body m.body)

codec-IsSerde : IsSerde codec
codec-IsSerde = record { from_slice-to_vec = λ m. ap inr (get_message-put m) }

-- A repository that is only its HEAD, on which every run of `git` succeeds.
abbrev moved : List Text → Option Text → Option Text
moved args head = if is_quiet args then head else some (codes "moved")

abbrev pub heads : Repo
heads = record {
  State = Option Text;
  Oid = Text;
  Error = Text;
  open_repo = λ st. ok tt;
  oid_from_str = λ s. ok s;
  oid_to_string = λ o. o;
  oid_eq = text_eq;
  graph_descendant_of = λ st a b. ok false;
  head_sha = λ st. inr st;
  build_pack = λ st head seen. inr (1 ∷ 2 ∷ []);
  git = λ args stdin st. (ok (record { success = true; stdout = [] }), moved args st);
}

abbrev names : Paths
names = record {
  FilePath = Text;
  path_from = λ s. s;
  display = λ p. p;
  file_name = some;
  sort_dedup = λ ps. ps;
  from_utf8_lossy = λ bytes. bytes;
}

heads-IsQuietRepo : IsQuietRepo heads
heads-IsQuietRepo = record { head = λ st. st; head-git = λ args stdin st quiet. rw quiet refl }

decode-serve_example :
    (body : WireBody) × (decode codec (
        serve codec heads
          (λ e. e)
          (λ n. [])
          (some (codes "abc"))
          (encode codec (message (want_pack_from none none))))
      ≡ inr (message body))
    × MayReply codec heads
        (λ e. e)
        (λ n. [])
        (some (codes "abc"))
        (encode codec (message (want_pack_from none none)))
        body
decode-serve_example =
    decode-serve codec heads (λ e. e) (λ n. []) codec-IsSerde (some (codes "abc"))
      (encode codec (message (want_pack_from none none)))

head-sync_with_peer_example :
    (heads-IsQuietRepo.head
        (sync_with_peer heads names codec
          (λ bytes. ok (encode codec (message (pack (some (codes "def")) (1 ∷ [])))))
          (codes "a")
          (codes "b")
          (some (codes "abc"))).1
      ≡ heads-IsQuietRepo.head (some (codes "abc")))
    ⊎ IsAudited heads names heads-IsQuietRepo codec
        (λ bytes. ok (encode codec (message (pack (some (codes "def")) (1 ∷ [])))))
        (some (codes "abc"))
head-sync_with_peer_example =
    head-sync_with_peer heads names heads-IsQuietRepo codec
      (λ bytes. ok (encode codec (message (pack (some (codes "def")) (1 ∷ []))))) (codes "a")
      (codes "b") (some (codes "abc"))

IsDiverged-heads :
    (st : Option Text) (local peer : Text)
    → text_eq local peer ≡ false
    → IsDiverged heads names st local peer
IsDiverged-heads st local peer ne = record {
  opens = refl;
  local_oid = local;
  peer_oid = peer;
  local_parses = refl;
  peer_parses = refl;
  different = ne;
  not_ahead = refl;
  not_behind = refl;
}

a-ne-b : codes "a" ≢ codes "b"
a-ne-b e = ground arith

reconcile_tie_break_example :
    Yields heads names
      (some (codes "abc"))
      (some (codes "def"))
      (codes "abc")
      (codes "def")
      (codes "a")
      (codes "b")
    ⊎ Yields heads names
        (some (codes "def"))
        (some (codes "abc"))
        (codes "def")
        (codes "abc")
        (codes "b")
        (codes "a")
unfolding text_eq
reconcile_tie_break_example =
    reconcile_tie_break heads names (some (codes "abc")) (some (codes "def")) (codes "abc")
      (codes "def") (codes "a") (codes "b") a-ne-b
      (IsDiverged-heads (some (codes "abc")) (codes "abc") (codes "def") refl)
      (IsDiverged-heads (some (codes "def")) (codes "def") (codes "abc") refl) ([], refl) ([], refl)
