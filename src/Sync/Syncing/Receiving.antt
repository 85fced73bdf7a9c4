-- ===== src/Sync/Syncing/Receiving.antt =====
-- The initiator's side (crates/bypass-cli/src/sync/syncing.rs): `sync_with_peer` and the audit of what
-- comes in, and that HEAD moves only behind a clean audit.
pub mod Guard
pub mod Clean
use bypass.Prelude.{
  ℕ, ◌≡◌, Bool, true, false, not, ◌&&◌, Option, none, some, List, [], ◌∷◌, ◌++◌, Outcome, ok, err,
  map_err, returned, ltb, if◌then◌else◌, length, is_empty, map,
}
use bypass.Exec.{Exec, pure, raise, lift, ◌>>=◌, ◌>>◌}
use bypass.Text.{Text, Bytes, codes, text_eq, lines, nonempty}
use bypass.Audit.{LeakIssue, check_files}
use bypass.Sync.Wire.{
  WireBody, WireMsg, Serde, message, want_pack_from, pack, refusal, encode, decode,
}
use bypass.Sync.Syncing.{
  Repo, Paths, GitOutput, SyncAction, up_to_date, rejected_leak, SyncReport, SyncError, transport,
  bad_reply, peer_refused, unexpected_reply, pack_too_big, M, run_git, query, ingest_pack,
  reconcile, max_pack_bytes,
}

module _ (𝓡 : Repo) (𝓟 : Paths) where
  abbrev pub incoming_range : Option Text → Text → Text
  incoming_range none peer_head = peer_head
  incoming_range (some h) peer_head = h ++ (codes ".." ++ peer_head)

  abbrev pub log_args : Text → List Text
  log_args range = codes "log" ∷ codes "--name-only" ∷ codes "--pretty=format:" ∷ range ∷ []

  abbrev pub show_args : Text → 𝓟.FilePath → List Text
  show_args peer_head p = codes "show" ∷ (peer_head ++ (codes ":" ++ 𝓟.display p)) ∷ []

  abbrev pub keep_blob :
      𝓟.FilePath → GitOutput → List (𝓟.FilePath × Bytes) → List (𝓟.FilePath × Bytes)
  keep_blob p out pairs = if out.success then (p, out.stdout) ∷ pairs else pairs

  -- The loop that reads the blobs of the peer's tree.
  unfoldable pub read_blobs : Text → List 𝓟.FilePath → M 𝓡 𝓟 (List (𝓟.FilePath × Bytes))
  read_blobs peer_head [] = pure []
  read_blobs peer_head (p ∷ paths) = do
    out ← run_git 𝓡 𝓟 (show_args peer_head p) []
    pairs ← read_blobs peer_head paths
    pure (keep_blob p out pairs)

  abbrev pub listed_paths : GitOutput → List 𝓟.FilePath
  listed_paths out =
      𝓟.sort_dedup (map 𝓟.path_from (nonempty (lines (𝓟.from_utf8_lossy out.stdout))))

  unfoldable pub audit_incoming : Option Text → Text → M 𝓡 𝓟 (List (LeakIssue 𝓟.FilePath))
  unfolding read_blobs
  audit_incoming local_head peer_head = do
    out ← run_git 𝓡 𝓟 (log_args (incoming_range local_head peer_head)) []
    if out.success
        then (do
          pairs ← read_blobs peer_head (listed_paths out)
          pure (check_files 𝓟.file_name pairs))
        else pure []

  abbrev pub pack_of : WireBody → Outcome (SyncError 𝓡.Error) (Option Text × Bytes)
  pack_of (pack peer_head bytes) = ok (peer_head, bytes)
  pack_of (refusal reason) = err (peer_refused reason)
  pack_of (want_pack_from h seen) = err (unexpected_reply (want_pack_from h seen))

  abbrev pub is_head : Option Text → Text → Bool
  is_head none peer_head = false
  is_head (some h) peer_head = text_eq h peer_head

  abbrev pub report : SyncAction 𝓟.FilePath → Option Text → SyncReport 𝓟.FilePath
  report action peer_head = record { action = action; peer_head = peer_head }

  abbrev pub ingest_some : Bytes → M 𝓡 𝓟 (Unit {0})
  ingest_some [] = pure tt
  ingest_some (b ∷ bytes) = ingest_pack 𝓡 𝓟 (b ∷ bytes)

  -- The audit of what was ingested, and the reconciliation if it is clean.
  unfoldable pub audited : Option Text → Text → Text → Text → M 𝓡 𝓟 (SyncReport 𝓟.FilePath)
  unfolding audit_incoming
  audited local_head peer_head local_id remote_id = do
    issues ← audit_incoming local_head peer_head
    if not (is_empty issues) then pure (report (rejected_leak issues) (some peer_head)) else do
      action ← reconcile 𝓡 𝓟 local_head peer_head local_id remote_id
      pure (report action (some peer_head))

  abbrev received : Option Text → Option Text → Bytes → Text → Text → M 𝓡 𝓟 (SyncReport 𝓟.FilePath)
  received local_head none bytes local_id remote_id = pure (report up_to_date none)
  received local_head (some peer_head) bytes local_id remote_id =
      if is_empty bytes && is_head local_head peer_head
      then pure (report up_to_date (some peer_head))
      else do ingest_some bytes; audited local_head peer_head local_id remote_id

  module _ (𝓙 : Serde) (request : Bytes → Outcome Text Bytes) where
    -- What `sync_with_peer` does with the pack of the reply.
    unfoldable pub receive :
        Option Text → Option Text × Bytes → Text → Text → M 𝓡 𝓟 (SyncReport 𝓟.FilePath)
    unfolding audited
    receive local_head (peer_head, bytes) local_id remote_id =
        if ltb max_pack_bytes (length bytes)
        then raise (pack_too_big (length bytes))
        else received local_head peer_head bytes local_id remote_id

    unfoldable pub sync_with_peer : Text → Text → M 𝓡 𝓟 (SyncReport 𝓟.FilePath)
    unfolding receive
    sync_with_peer local_id remote_id = do
      local_head ← query 𝓡 𝓟 (λ st. returned (𝓡.head_sha st))
      reply_bytes ←
          lift (map_err transport (request (encode 𝓙 (message (want_pack_from local_head none)))))
      msg ← lift (map_err bad_reply (returned (decode 𝓙 reply_bytes)))
      reply ← lift (pack_of msg.body)
      receive local_head reply local_id remote_id
