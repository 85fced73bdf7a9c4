-- ===== src/Sync/Syncing/Receiving/Clean.antt =====
-- What `audit_incoming` of crates/bypass-cli/src/sync/syncing.rs looks at, as runs of `git` one
-- after another.
use bypass.Prelude.{
  ◌≡◌, refl, ◌⊎◌, inl, inr, false, Option, Option-cases, none, some, List, [], ◌∷◌, ◌++◌, ok,
  map_err-eq-ok, arith, Bool-cases, map,
}
use bypass.Exec.{continue-eq-ok}
use bypass.Text.{Text, Bytes, codes, lines, nonempty}
use bypass.Audit.{check_file, check_files}
use bypass.Sync.Syncing.{Repo, Paths, GitOutput, repo, run_git}
use bypass.Sync.Syncing.Receiving.{
  read_blobs, audit_incoming, keep_blob, log_args, show_args, listed_paths, incoming_range,
}

abbrev pub not_ours : Option Text → Text → Text
not_ours none peer_head = peer_head
not_ours (some h) peer_head = h ++ (codes ".." ++ peer_head)

module _ (𝓡 : Repo) (𝓟 : Paths) where
  abbrev pub log_of : Option Text → Text → List Text
  log_of local_head peer_head =
      codes "log"
      ∷ codes "--name-only"
      ∷ codes "--pretty=format:"
      ∷ not_ours local_head peer_head
      ∷ []

  abbrev pub show_of : Text → 𝓟.FilePath → List Text
  show_of peer_head p = codes "show" ∷ (peer_head ++ (codes ":" ++ 𝓟.display p)) ∷ []

  -- Each of the files, shown from the peer's head, passes the check, or `git show` does not have it.
  abbrev pub AllPass : Text → List 𝓟.FilePath → 𝓡.State → Type 0
  AllPass peer_head [] s = Unit
  AllPass peer_head (p ∷ paths) s =
      ((out : GitOutput) × ((𝓡.git (show_of peer_head p) [] s).0 ≡ ok out)
        × ((out.success ≡ false) ⊎ (check_file 𝓟.file_name p out.stdout ≡ none)))
      × AllPass peer_head paths (𝓡.git (show_of peer_head p) [] s).1

  -- `git log` lists the files that commits behind the peer's head and not behind ours name, and all
  -- of these pass, or it fails.
  pub record IsClean (local_head : Option Text) (peer_head : Text) (s : 𝓡.State) : Type 0 where
    pub logged : GitOutput
    pub log_lem : (𝓡.git (log_of local_head peer_head) [] s).0 ≡ ok logged
    pub passes :
        (logged.success ≡ false)
        ⊎ AllPass peer_head
            (𝓟.sort_dedup (map 𝓟.path_from (nonempty (lines (𝓟.from_utf8_lossy logged.stdout)))))
            (𝓡.git (log_of local_head peer_head) [] s).1

  -- Nothing is found in a file and the others only if it passes and nothing is found in the others.
  keep_blob_clean :
      (p : 𝓟.FilePath) (out : GitOutput) (pairs : List (𝓟.FilePath × Bytes))
      → check_files 𝓟.file_name (keep_blob 𝓡 𝓟 p out pairs) ≡ []
      → ((out.success ≡ false) ⊎ (check_file 𝓟.file_name p out.stdout ≡ none))
        × (check_files 𝓟.file_name pairs ≡ [])
  unfolding check_files
  keep_blob_clean p out pairs clean = elim (Bool-cases out.success) [
    | inr e ↦ (inl e, rw e at clean)
    | inl e ↦ elim (Option-cases (check_file 𝓟.file_name p out.stdout)) [
      | inl passed ↦ (inr passed, rw (e, passed) at clean)
      | inr (issue, found) ↦ cc (rw (e, found) at clean)
    ]
  ]

  read_blobs-AllPass :
      (peer_head : Text) (paths : List 𝓟.FilePath) (s : 𝓡.State) (pairs : List (𝓟.FilePath × Bytes))
      → (read_blobs 𝓡 𝓟 peer_head paths s).0 ≡ ok pairs
      → check_files 𝓟.file_name pairs ≡ []
      → AllPass peer_head paths s
  unfolding read_blobs
  read_blobs-AllPass peer_head [] s pairs e clean = tt
  read_blobs-AllPass peer_head (p ∷ paths) s pairs e clean =
      let shown = run_git 𝓡 𝓟 (show_args 𝓡 𝓟 peer_head p) [] s in
      let (out, ran, e1) = continue-eq-ok _ shown.0 shown.1 e in
      let rest = read_blobs 𝓡 𝓟 peer_head paths shown.1 in
      let (others, read, e2) = continue-eq-ok _ rest.0 rest.1 e1 in
      let same : keep_blob 𝓡 𝓟 p out others ≡ pairs = ground arith in
      let (passes, clean_rest) = keep_blob_clean p out others (rw (← same) at clean) in
      (
        (out, map_err-eq-ok repo (𝓡.git (show_of peer_head p) [] s).0 ran, passes),
        read_blobs-AllPass peer_head paths shown.1 others read clean_rest,
      )

  not_ours_lem :
      (local_head : Option Text) (peer_head : Text)
      → incoming_range 𝓡 𝓟 local_head peer_head ≡ not_ours local_head peer_head
  not_ours_lem none peer_head = refl
  not_ours_lem (some h) peer_head = refl

  pub audit_incoming-IsClean :
      (local_head : Option Text) (peer_head : Text) (s : 𝓡.State)
      → (audit_incoming 𝓡 𝓟 local_head peer_head s).0 ≡ ok []
      → IsClean local_head peer_head s
  unfolding audit_incoming
  audit_incoming-IsClean local_head peer_head s clean =
      let ran = run_git 𝓡 𝓟 (log_args 𝓡 𝓟 (incoming_range 𝓡 𝓟 local_head peer_head)) [] s in
      let (out, logged, e) = continue-eq-ok _ ran.0 ran.1 clean in
      record {
        logged = out;
        log_lem = map_err-eq-ok repo _ (rw (← not_ours_lem local_head peer_head) logged);
        passes = elim (Bool-cases out.success) [
          | inr failed ↦ inl failed
          | inl good ↦
              let rest = read_blobs 𝓡 𝓟 peer_head (listed_paths 𝓡 𝓟 out) ran.1 in
              let (pairs, read, e1) = continue-eq-ok _ rest.0 rest.1 (rw good at e) in
              let nothing : check_files 𝓟.file_name pairs ≡ [] = ground arith in
              inr (
                rw (← not_ours_lem local_head peer_head)
                  (read_blobs-AllPass peer_head (listed_paths 𝓡 𝓟 out) ran.1 pairs read nothing))
        ];
      }
