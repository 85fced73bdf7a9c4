-- ===== src/Sync/Syncing/Receiving/Guard.antt =====
-- HEAD in `sync_with_peer`, and the audit of what comes in (crates/bypass-cli/src/sync/syncing.rs).
use bypass.Prelude.{
  ◌≡◌, ◌≤◌, ◌⊎◌, ◌||◌, refl, inl, inr, ◌∙◌, ap, Bool, true, false, Option, none, some, List, [],
  ◌∷◌, Outcome, ok, map_err, returned, map_err-eq-ok, returned-eq-ok, arith, Bool-cases, List-cases,
  ltb, length, is_empty, ◌&&◌,
}
use bypass.Exec.{continue_lem}
use bypass.Text.{Text, Bytes, codes, text_eq}
use bypass.Sync.Wire.{
  Serde, WireBody, WireMsg, message, want_pack_from, pack, refusal, encode, decode,
}
use bypass.Sync.Syncing.Receiving.Clean.{IsClean, audit_incoming-IsClean}
use bypass.Sync.Syncing.{
  Repo, Paths, repo, transport, bad_reply, ingest_pack, max_pack_bytes, run_git,
}
use bypass.Sync.Syncing.Receiving.{
  read_blobs, audit_incoming, audited, receive, sync_with_peer, ingest_some, is_head, pack_of,
  log_args, show_args, listed_paths, incoming_range,
}

-- The subcommands of `git` that only read, or add objects.
abbrev pub is_quiet : List Text → Bool
is_quiet [] = false
is_quiet (command ∷ args) =
    text_eq command (codes "log")
    || text_eq command (codes "show")
    || text_eq command (codes "index-pack")

-- What git documents: those subcommands do not move HEAD.
pub record IsQuietRepo (𝓡 : Repo) : Type 1 where
  pub head : 𝓡.State → Option Text
  pub head-git :
      (args : List Text) (stdin : Bytes) (st : 𝓡.State)
      → is_quiet args ≡ true
      → head (𝓡.git args stdin st).1 ≡ head st

module _ (𝓡 : Repo) (𝓟 : Paths) (laws : IsQuietRepo 𝓡) where
  open laws use {head, head-git}

  abbrev Keeps : 𝓡.State → 𝓡.State → Type 0
  Keeps st s = head s ≡ head st

  head-show :
      (peer_head : Text) (p : 𝓟.FilePath) (st : 𝓡.State)
      → head (𝓡.git (show_args 𝓡 𝓟 peer_head p) [] st).1 ≡ head st
  head-show peer_head p st = head-git (show_args 𝓡 𝓟 peer_head p) [] st (unfold text_eq in refl)

  head-read_blobs :
      (peer_head : Text) (paths : List 𝓟.FilePath) (st : 𝓡.State)
      → head (read_blobs 𝓡 𝓟 peer_head paths st).1 ≡ head st
  unfolding read_blobs
  head-read_blobs peer_head [] st = refl
  head-read_blobs peer_head (p ∷ paths) st =
      continue_lem (Keeps st) _ (run_git 𝓡 𝓟 (show_args 𝓡 𝓟 peer_head p) [] st).0 _
        (λ out e.
          let later =
            head-read_blobs peer_head paths (run_git 𝓡 𝓟 (show_args 𝓡 𝓟 peer_head p) [] st).1
            ∙ head-show peer_head p st in
          continue_lem (Keeps st) _ (read_blobs 𝓡 𝓟 peer_head paths _).0 _ (λ pairs f. later) later)
        (head-show peer_head p st)

  head-audit_incoming :
      (local_head : Option Text) (peer_head : Text) (st : 𝓡.State)
      → head (audit_incoming 𝓡 𝓟 local_head peer_head st).1 ≡ head st
  unfolding audit_incoming
  head-audit_incoming local_head peer_head st =
      let args = log_args 𝓡 𝓟 (incoming_range 𝓡 𝓟 local_head peer_head) in
      let logged : head (𝓡.git args [] st).1 ≡ head st =
        head-git args [] st (unfold text_eq in refl) in
      continue_lem (Keeps st) _ (run_git 𝓡 𝓟 args [] st).0 _
        (λ out e. elim (Bool-cases out.success) [
          | inl good ↦ rw good (
              continue_lem (Keeps st) _ (read_blobs 𝓡 𝓟 peer_head (listed_paths 𝓡 𝓟 out) _).0 _
                (λ pairs f. head-read_blobs peer_head (listed_paths 𝓡 𝓟 out) _ ∙ logged)
                (head-read_blobs peer_head (listed_paths 𝓡 𝓟 out) _ ∙ logged))
          | inr bad ↦ rw bad logged
        ])
        logged

  head-ingest_some : (bytes : Bytes) (st : 𝓡.State) → head (ingest_some 𝓡 𝓟 bytes st).1 ≡ head st
  unfolding ingest_pack
  head-ingest_some [] st = refl
  head-ingest_some (b ∷ bytes) st =
      let args = codes "index-pack" ∷ codes "--stdin" ∷ codes "--fix-thin" ∷ [] in
      let indexed : head (𝓡.git args (b ∷ bytes) st).1 ≡ head st =
        head-git args (b ∷ bytes) st (unfold text_eq in refl) in
      continue_lem (Keeps st) _ (run_git 𝓡 𝓟 args (b ∷ bytes) st).0 _
        (λ out e. elim (Bool-cases out.success) [
          | inl good ↦ rw good indexed
          | inr bad ↦ rw bad indexed
        ])
        indexed

  -- A pack of this reply within the cap was ingested, and what it brought in is clean.
  abbrev Admits : Option Text → Option Text × Bytes → 𝓡.State → Type 0
  Admits local_head reply st =
      (peer_head : Text) × (reply.0 ≡ some peer_head)
      × (length reply.1 ≤ max_pack_bytes)
      × ((ingest_some 𝓡 𝓟 reply.1 st).0 ≡ ok tt)
      × IsClean 𝓡 𝓟 local_head peer_head (ingest_some 𝓡 𝓟 reply.1 st).1

  abbrev Guarded : Option Text → Option Text × Bytes → 𝓡.State → 𝓡.State → Type 0
  Guarded local_head reply st s = Keeps st s ⊎ Admits local_head reply st

  Guarded-audited :
      (local_head : Option Text) (peer_head : Text) (bytes : Bytes) (local_id remote_id : Text)
      (st : 𝓡.State)
      → (ingest_some 𝓡 𝓟 bytes st).0 ≡ ok tt
      → length bytes ≤ max_pack_bytes
      → Guarded local_head
          (some peer_head, bytes)
          st
          (audited 𝓡 𝓟 local_head peer_head local_id remote_id (ingest_some 𝓡 𝓟 bytes st).1).1
  unfolding audited
  Guarded-audited local_head peer_head bytes local_id remote_id st ingested short =
      let s = (ingest_some 𝓡 𝓟 bytes st).1 in
      let kept = head-audit_incoming local_head peer_head s ∙ head-ingest_some bytes st in
      continue_lem (Guarded local_head (some peer_head, bytes) st) _
        (audit_incoming 𝓡 𝓟 local_head peer_head s).0 _
        (λ issues e. elim (List-cases issues) [
          | inl clean ↦ inr (
            peer_head,
            refl,
            short,
            ingested,
            audit_incoming-IsClean 𝓡 𝓟 local_head peer_head s (e ∙ ap ok clean),
          )
          | inr (issue, more, found) ↦ rw found (inl kept)
        ])
        (inl kept)

  Guarded-receive :
      (𝓙 : Serde) (request : Bytes → Outcome Text Bytes) (local_head : Option Text)
      (reply : Option Text × Bytes) (local_id remote_id : Text) (st : 𝓡.State)
      → Guarded local_head reply st (receive 𝓡 𝓟 𝓙 request local_head reply local_id remote_id st).1
  unfolding receive
  Guarded-receive 𝓙 request local_head (none, bytes) local_id remote_id st =
      elim (Bool-cases (ltb max_pack_bytes (length bytes))) [
        | inl e ↦ rw e (inl refl)
        | inr e ↦ rw e (inl refl)
      ]
  Guarded-receive 𝓙 request local_head (some peer_head, bytes) local_id remote_id st =
      elim (Bool-cases (ltb max_pack_bytes (length bytes))) [
        | inl e ↦ rw e (inl refl)
        | inr e ↦ elim (Bool-cases (is_empty bytes && is_head 𝓡 𝓟 local_head peer_head)) [
          | inl same ↦ rw (e, same) (inl refl)
          | inr new ↦
              rw (e, new)
                (continue_lem (Guarded local_head (some peer_head, bytes) st) _
                  (ingest_some 𝓡 𝓟 bytes st).0 _
                  (λ u done.
                    Guarded-audited local_head peer_head bytes local_id remote_id st done
                      (within_cap bytes e))
                  (inl (head-ingest_some bytes st)))
        ]
      ]
    where
      within_cap : (b : Bytes) → ltb max_pack_bytes (length b) ≡ false → length b ≤ max_pack_bytes
      within_cap b h = ground arith

  pack_inv :
      (body : WireBody) (reply : Option Text × Bytes)
      → pack_of 𝓡 𝓟 body ≡ ok reply
      → body ≡ pack reply.0 reply.1
  pack_inv (pack h bytes) reply e = ground arith
  pack_inv (refusal reason) reply e = cc
  pack_inv (want_pack_from h seen) reply e = cc

  module _ (𝓙 : Serde) (request : Bytes → Outcome Text Bytes) where
    -- The peer has replied to the request for a pack with this head and this pack. The pack has at
    -- most 50 MiB and was ingested, or is empty, and what then lies between our head and that of the
    -- peer is clean.
    pub record IsAudited (st : 𝓡.State) : Type 0 where
      pub local_head : Option Text
      pub read : 𝓡.head_sha st ≡ inr local_head
      pub reply : Bytes
      pub replied : request (encode 𝓙 (message (want_pack_from local_head none))) ≡ ok reply
      pub msg : WireMsg
      pub decoded : decode 𝓙 reply ≡ inr msg
      pub peer_head : Text
      pub bytes : Bytes
      pub holds : msg.body ≡ pack (some peer_head) bytes
      pub short : length bytes ≤ 52428800
      pub ingested : (ingest_some 𝓡 𝓟 bytes st).0 ≡ ok tt
      pub clean : IsClean 𝓡 𝓟 local_head peer_head (ingest_some 𝓡 𝓟 bytes st).1

    -- Where `git log`, `git show` and `git index-pack` do not move HEAD: `sync_with_peer`,
    -- whatever the peer replies and whatever fails, leaves HEAD as it is, unless the peer has
    -- replied to the request for a pack with a head and a pack of at most 50 MiB, which was
    -- ingested or is empty, and each file that `git log` then lists for the commits behind that
    -- head and not behind ours, as `git show` has it at that head, passes the check of the leak
    -- audit; a file that `git show` fails on is passed over, and a `git log` that fails counts as
    -- no files.
    pub head-sync_with_peer :
        (local_id remote_id : Text) (st : 𝓡.State)
        → (head (sync_with_peer 𝓡 𝓟 𝓙 request local_id remote_id st).1 ≡ head st) ⊎ IsAudited st
    unfolding sync_with_peer
    head-sync_with_peer local_id remote_id st =
        continue_lem Q _ (map_err repo (returned (𝓡.head_sha st))) st
          (λ local_head e0.
            continue_lem Q _
              (map_err transport (request (encode 𝓙 (message (want_pack_from local_head none))))) st
              (λ reply_bytes e1.
                continue_lem Q _ (map_err bad_reply (returned (decode 𝓙 reply_bytes))) st
                  (λ msg e2.
                    continue_lem Q _ (pack_of 𝓡 𝓟 msg.body) st
                      (λ reply e3.
                        elim (Guarded-receive 𝓙 request local_head reply local_id remote_id st) [
                          | inl kept ↦ inl kept
                          | inr (peer_head, named, short, ingested, clean) ↦ inr (record {
                            local_head = local_head;
                            read = returned-eq-ok repo _ e0;
                            reply = reply_bytes;
                            replied = map_err-eq-ok transport _ e1;
                            msg = msg;
                            decoded = returned-eq-ok bad_reply _ e2;
                            peer_head = peer_head;
                            bytes = reply.1;
                            holds = pack_inv msg.body reply e3 ∙ ap (λ h. pack h reply.1) named;
                            short = short;
                            ingested = ingested;
                            clean = clean;
                          })
                        ])
                      (inl refl))
                  (inl refl))
              (inl refl))
          (inl refl)
      where
        Q : 𝓡.State → Type 0
        Q s = (head s ≡ head st) ⊎ IsAudited st
