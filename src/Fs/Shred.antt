-- ===== src/Fs/Shred.antt =====
-- A pass of the shredding of a file (crates/bypass-cli/src/storage_fs.rs) covers the whole file.
use bypass.Prelude.{
  ℕ, zero, suc, ◌+◌, ◌-◌, ◌≤◌, ◌≡◌, ◌≢◌, ◌⊎◌, inl, inr, refl, ◌∙◌, length, Outcome, ok, err, abort,
  arith, leb, if◌then◌else◌,
}
use bypass.Exec.{Exec, continue}
use bypass.Text.{Bytes}
use bypass.Fs.{FileSystem, outcome, call}
use bypass.Fs.StorageFs.{StorageFsError, io_error, overwrite_rest, overwrite_pass, buffer_len}

-- How far an open file has been written from its start, by the calls that succeed.
pub record IsSeekable (F : FileSystem) : Type 0 where
  pub position : F.State → F.FilePath → ℕ
  pub seek_start_lem :
      (s : F.State) (p : F.FilePath)
      → (F.seek_start p s).0 ≡ inr tt
      → position (F.seek_start p s).1 p ≡ 0
  pub write_all_lem :
      (s : F.State) (p : F.FilePath) (bytes : Bytes)
      → (F.write_all p bytes s).0 ≡ inr tt
      → position (F.write_all p bytes s).1 p ≡ position s p + length bytes
  pub sync_all_lem : (s : F.State) (p : F.FilePath) → position (F.sync_all p s).1 p ≡ position s p

module _ (F : FileSystem) (laws : IsSeekable F) (fill_bytes : ℕ → ℕ → ℕ → Bytes)
    (filled : (pass remaining n : ℕ) → length (fill_bytes pass remaining n) ≡ n)
    (path : F.FilePath) where
  open laws use {position}

  -- The result is a value, and where it is `ok`, the file is written up to `n`.
  abbrev pub Reaches : ℕ → Outcome (StorageFsError F) (Unit {0}) × F.State → Type 0
  Reaches n (r, after) = (r ≢ abort) × (r ≡ ok tt → position after path ≡ n)

  -- A call, and what follows it.
  Reaches-call :
      (at : F.FilePath) (r : F.Error ⊎ (Unit {0})) (t : F.State)
      (rest : Exec F.State (StorageFsError F) (Unit {0})) (n : ℕ)
      → (r ≡ inr tt → Reaches n (rest t))
      → Reaches n (continue (λ u. rest) (outcome F io_error at r) t)
  Reaches-call at (inl e) t rest n goes = ((λ h. cc), λ h. cc)
  Reaches-call at (inr u) t rest n goes = goes refl

  overwrite_rest_lem :
      (fuel pass n : ℕ) (s : F.State)
      → n ≤ fuel
      → Reaches (position s path + n) (overwrite_rest F fill_bytes path fuel pass n s)
  unfolding overwrite_rest
  overwrite_rest_lem fuel pass zero s h = ((λ e. cc), λ e. omega arith)
  overwrite_rest_lem zero pass (suc n) s h = absurd (omega arith)
  overwrite_rest_lem (suc fuel) pass (suc n) s h =
      let chunk = if leb (suc n) buffer_len then suc n else buffer_len in
      let bytes = fill_bytes pass (suc n) chunk in
      let t = (F.write_all path bytes s).1 in
      let rest = overwrite_rest_lem fuel pass (suc n - chunk) t (ground arith) in
      Reaches-call path (F.write_all path bytes s).0 t
        (overwrite_rest F fill_bytes path fuel pass (suc n - chunk)) (position s path + suc n)
        (λ wrote.
          let moved = laws.write_all_lem s path bytes wrote in
          let total : position t path + (suc n - chunk) ≡ position s path + suc n =
            ground (arith, moved, filled pass (suc n) chunk) in
          (rest.0, λ e. rest.1 e ∙ total))

  Reaches-outcome :
      (n : ℕ) (r : F.Error ⊎ (Unit {0})) (t : F.State)
      → position t path ≡ n
      → Reaches n (outcome F io_error path r, t)
  Reaches-outcome n (inl e) t h = ((λ e. cc), λ e. cc)
  Reaches-outcome n (inr u) t h = ((λ e. cc), λ e. h)

  Reaches-sync :
      (n : ℕ) (r : Outcome (StorageFsError F) (Unit {0})) (t : F.State)
      → Reaches n (r, t)
      → Reaches n (continue (λ u. call F io_error path (F.sync_all path)) r t)
  Reaches-sync n (ok u) t h =
      Reaches-outcome n (F.sync_all path t).0 (F.sync_all path t).1
        (laws.sync_all_lem t path ∙ h.1 refl)
  Reaches-sync n (err e) t h = h
  Reaches-sync n abort t h = h

  -- Given what std::fs promises of seeking and writing, and a generator that fills what it is
  -- asked to: a pass of the shredding of a file ends, and where it returns ok, it has written
  -- exactly the length of the file from its start.
  pub overwrite_pass_lem :
      (len pass : ℕ) (s : F.State)
      → ((overwrite_pass F fill_bytes path len pass s).0 ≢ abort)
        × ((overwrite_pass F fill_bytes path len pass s).0 ≡ ok tt
            → position (overwrite_pass F fill_bytes path len pass s).1 path ≡ len)
  unfolding overwrite_pass
  overwrite_pass_lem len pass s =
      let t = (F.seek_start path s).1 in
      Reaches-call path (F.seek_start path s).0 t _ len (λ sought.
        let start = laws.seek_start_lem s path sought in
        let rest = overwrite_rest F fill_bytes path len pass len t in
        let all = overwrite_rest_lem len pass len t (omega arith) in
        Reaches-sync len rest.0 rest.1 (all.0, λ e. all.1 e ∙ omega (arith, start)))
