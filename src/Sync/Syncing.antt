-- ===== src/Sync/Syncing.antt =====
-- The exchange of packs with a peer (crates/bypass-cli/src/sync/syncing.rs). The repository is a
-- parameter: git2's queries and the runs of `git`; so are file names and the peer's replies.
pub mod Serving
pub mod Receiving
pub mod TieBreak
use bypass.Prelude.{
  ℕ, ◌≡◌, ◌⊎◌, Bool, true, false, not, ◌&&◌, Option, none, some, List, [], ◌∷◌, ◌++◌, Outcome, ok,
  err, abort, map_err, leb, ltb, if◌then◌else◌, length, is_empty, map, In, ◌↔◌,
}
use bypass.Exec.{Exec, pure, raise, lift, ◌>>=◌, ◌>>◌}
use bypass.Text.{Text, Bytes, codes, text_eq, text_le, lines, nonempty}
use bypass.Audit.{LeakIssue, check_files}
use bypass.Sync.Wire
use bypass.Sync.Wire.{WireBody, WireMsg, WireError, Serde, message, want_pack_from, pack, refusal}

abbrev pub max_pack_bytes : ℕ
max_pack_bytes = 52428800

-- What a run of `git` gives back.
pub record GitOutput : Type 0 where
  pub success : Bool
  pub stdout : Bytes

-- A repository: its queries, and the runs of `git` in it, with `stdin`.
pub record Repo : Type 1 where
  pub State : Type 0
  pub Oid : Type 0
  pub Error : Type 0
  pub open_repo : State → Outcome Error (Unit {0})
  pub oid_from_str : Text → Outcome Error Oid
  pub oid_to_string : Oid → Text
  pub oid_eq : Oid → Oid → Bool
  pub graph_descendant_of : State → Oid → Oid → Outcome Error Bool
  pub head_sha : State → Error ⊎ Option Text
  pub build_pack : State → Option Text → Option Text → Error ⊎ Bytes
  pub git : List Text → Bytes → State → Outcome Error GitOutput × State

-- `PathBuf`s, and `String::from_utf8_lossy`.
pub record Paths : Type 1 where
  pub FilePath : Type 0
  pub path_from : Text → FilePath
  pub display : FilePath → Text
  pub file_name : FilePath → Option Text
  pub sort_dedup : List FilePath → List FilePath
  pub from_utf8_lossy : Bytes → Text

pub data SyncAction (FilePath : Type 0) : Type 0 where
  up_to_date : SyncAction FilePath
  fast_forwarded : Text → Text → SyncAction FilePath
  peer_behind : SyncAction FilePath
  rebased : Text → SyncAction FilePath
  awaiting_peer_rebase : SyncAction FilePath
  rejected_leak : List (LeakIssue FilePath) → SyncAction FilePath

pub record SyncReport (FilePath : Type 0) : Type 0 where
  pub action : SyncAction FilePath
  pub peer_head : Option Text

pub data SyncError (E : Type 0) : Type 0 where
  repo : E → SyncError E
  git_failed : List Text → SyncError E
  transport : Text → SyncError E
  bad_reply : WireError → SyncError E
  peer_refused : Text → SyncError E
  unexpected_reply : WireBody → SyncError E
  pack_too_big : ℕ → SyncError E

module _ (𝓡 : Repo) (𝓟 : Paths) where
  abbrev pub M : Type 0 → Type 0
  M A = Exec 𝓡.State (SyncError 𝓡.Error) A

  -- A run of `git`.
  abbrev pub run_git : List Text → Bytes → M GitOutput
  run_git args stdin st = (map_err repo (𝓡.git args stdin st).0, (𝓡.git args stdin st).1)

  abbrev pub query : {A : Type 0} → (𝓡.State → Outcome 𝓡.Error A) → M A
  query f st = (map_err repo (f st), st)

  abbrev pub parse_oid : Text → M 𝓡.Oid
  parse_oid s = lift (map_err repo (𝓡.oid_from_str s))

  abbrev pub reset_args : Text → List Text
  reset_args target = codes "reset" ∷ codes "--hard" ∷ target ∷ []

  unfoldable pub fast_forward : Text → M (Unit {0})
  fast_forward target = do
    out ← run_git (reset_args target) []
    if out.success then pure tt else raise (git_failed (reset_args target))

  -- `let _ = …status()`: the run's own result is ignored.
  abbrev abort_rebase : M (Unit {0})
  abort_rebase st = (ok tt, (𝓡.git (codes "rebase" ∷ codes "--abort" ∷ []) [] st).1)

  abbrev pub rebase_args : Text → List Text
  rebase_args peer_head = codes "rebase" ∷ peer_head ∷ []

  unfoldable pub rebase_onto : Text → M (Unit {0})
  rebase_onto peer_head = do
    out ← run_git (rebase_args peer_head) []
    if out.success then pure tt else do abort_rebase; raise (git_failed (rebase_args peer_head))

  unfoldable pub ingest_pack : Bytes → M (Unit {0})
  ingest_pack pack_bytes = do
    out ← run_git (codes "index-pack" ∷ codes "--stdin" ∷ codes "--fix-thin" ∷ []) pack_bytes
    if out.success then pure tt else raise (git_failed (codes "index-pack" ∷ codes "--stdin" ∷ []))

  -- `local_id < remote_id` on texts.
  abbrev pub text_lt : Text → Text → Bool
  text_lt s t = not (text_le t s)

  unfoldable pub diverged : Text → Text → Text → M (SyncAction 𝓟.FilePath)
  unfolding rebase_onto
  diverged peer_head local_id remote_id =
      if text_lt local_id remote_id
      then (do rebase_onto peer_head; pure (rebased peer_head))
      else pure awaiting_peer_rebase

  -- `reconcile` where there is a local head.
  unfoldable pub reconcile_oids : 𝓡.Oid → 𝓡.Oid → Text → Text → Text → M (SyncAction 𝓟.FilePath)
  unfolding fast_forward diverged
  reconcile_oids local_oid peer_oid peer_head local_id remote_id =
      if 𝓡.oid_eq local_oid peer_oid then pure up_to_date else do
        ahead ← query (λ st. 𝓡.graph_descendant_of st peer_oid local_oid)
        if ahead
            then (do
              fast_forward peer_head
              pure (fast_forwarded (𝓡.oid_to_string local_oid) (𝓡.oid_to_string peer_oid)))
            else do
              behind ← query (λ st. 𝓡.graph_descendant_of st local_oid peer_oid)
              if behind then pure peer_behind else diverged peer_head local_id remote_id

  abbrev reconcile_heads : Option Text → 𝓡.Oid → Text → Text → Text → M (SyncAction 𝓟.FilePath)
  reconcile_heads none peer_oid peer_head local_id remote_id = do
    fast_forward peer_head
    pure (fast_forwarded [] peer_head)
  reconcile_heads (some h) peer_oid peer_head local_id remote_id = do
    local_oid ← parse_oid h
    reconcile_oids local_oid peer_oid peer_head local_id remote_id

  unfoldable pub reconcile : Option Text → Text → Text → Text → M (SyncAction 𝓟.FilePath)
  unfolding reconcile_oids fast_forward
  reconcile local_head peer_head local_id remote_id = do
    query 𝓡.open_repo
    peer_oid ← parse_oid peer_head
    reconcile_heads local_head peer_oid peer_head local_id remote_id
