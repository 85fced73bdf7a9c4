-- ===== src/Cli/Backup/Archived.antt =====
-- What a backup writes, read again.
use mathlib.Core.Int.{ℤ}
use bypass.Prelude.{
  ◌≡◌, refl, inr, false, Option, List, [], ◌∷◌, map, length, is_empty, Outcome, ok, In, All,
  All-of_In, arith, ◌%◌,
}
use bypass.Exec.{Exec, pure, ◌>>=◌}
use bypass.Text.{Text, Bytes, codes, contains, split, starts_with, ends_with}
use bypass.RelPath.{RelPath, IsValid, new}
use bypass.Crypto.{KeyId, Crypto}
use bypass.Storage.{Storage, IsBlobMap}
use bypass.Vcs.{VersionControl}
use bypass.GpgId.{resolve_recipients}
use bypass.Store.{Store, list, show}
use bypass.Store.Listing.{list_lem}
use bypass.Bundle.{Tar, Toml, BundleEntry, Error, no_pre_check, read_bundle, write_bundle}
use bypass.Bundle.RoundTrip.{IsTar, IsToml, IsText, IsSound, visit_all}
use bypass.Bundle.Members.{read_bundle_across}
use bypass.Cli.Restore.Shown.{with_plaintext}
use bypass.Cli.Backup.{Surroundings, SourceError, subtree_path, item, manifest_of, backup}

-- Where gpg and the thread that drains it do their part.
abbrev pub undisturbed : Option Text → ℤ → Surroundings
undisturbed subtree seconds = record {
  subtree = subtree;
  opened = inr tt;
  seconds = seconds;
  spawned = inr tt;
  drained = inr tt;
  finished = inr tt;
}

-- The entry whose recipients are those of the root.
abbrev pub top : RelPath
top = record { as_str = codes "_" }

new-top : new (codes "_") ≡ ok top
unfolding new contains split starts_with ends_with
new-top = refl

ok_inj : {E A : Type 0} {a b : A} → ◌≡◌ {A = Outcome E A} (ok a) (ok b) → a ≡ b
ok_inj e = ground arith

module _ (𝓒 : Crypto) (𝓢 : Storage) (𝓥 : VersionControl) (T : Tar) (F : Toml) where
  -- The entries that are shown are what the iterator yields.
  items_lem :
      (st : Store 𝓒 𝓢 𝓥) (plain : RelPath → Bytes) (entries : List RelPath)
      → All (λ e. (show 𝓒 𝓢 𝓥 e st).0 ≡ ok (plain e)) entries
      → map (item 𝓒 𝓢 𝓥 T F st) entries ≡ map ok (map (with_plaintext plain) entries)
  items_lem st plain [] shown = refl
  items_lem st plain (e ∷ es) (first, shown) = rw (first, items_lem st plain es shown) refl

  backup_lem :
      (st : Store 𝓒 𝓢 𝓥) (s : Option Text) (seconds : ℤ) (subtree : Option RelPath)
      (entries : List RelPath) (recipients : List KeyId) (plain : RelPath → Bytes)
      → subtree_path s ≡ ok subtree
      → (list 𝓒 𝓢 𝓥 subtree st).0 ≡ ok entries
      → is_empty entries ≡ false
      → resolve_recipients 𝓢 st.storage top ≡ ok recipients
      → All (λ e. (show 𝓒 𝓢 𝓥 e st).0 ≡ ok (plain e)) entries
      → (write_bundle T F
          (SourceError 𝓒 𝓢 𝓥 T F)
          (manifest_of 𝓒 𝓢 𝓥 T F seconds recipients entries)
          (map ok (map (with_plaintext plain) entries))
          T.new).0
        ≡ ok tt
      → backup 𝓒 𝓢 𝓥 T F (undisturbed s seconds) st T.new ≡ (
        ok (length entries % 4294967296),
        (write_bundle T F
            (SourceError 𝓒 𝓢 𝓥 T F)
            (manifest_of 𝓒 𝓢 𝓥 T F seconds recipients entries)
            (map ok (map (with_plaintext plain) entries))
            T.new).1,
      )
  unfolding backup
  backup_lem st s seconds subtree entries recipients plain parsed listed some_left resolved shown
        written =
      rw (parsed, listed, some_left, new-top, resolved, items_lem st plain entries shown, written)
        refl

  module _ (laws : IsBlobMap 𝓢) (tar : IsTar T) (toml : IsToml F) where
    -- The listed entries are valid.
    pub listed-IsValid :
        (st : Store 𝓒 𝓢 𝓥) (subtree : Option RelPath) (entries : List RelPath) (e : RelPath)
        → laws.Healthy st.storage
        → (list 𝓒 𝓢 𝓥 subtree st).0 ≡ ok entries
        → In e entries
        → IsValid e
    listed-IsValid st subtree entries e h listed there =
        let (found, lists, order, which) = list_lem 𝓒 𝓢 𝓥 laws subtree st h in
        let same : found ≡ entries = ok_inj (rw lists at listed) in ((which e).0 (rw same there)).0

    -- What `backup` has written is read again as the entries of the list with their plaintexts.
    pub read_bundle-backup :
        {RE S : Type 0} (st : Store 𝓒 𝓢 𝓥) (s : Option Text) (seconds : ℤ)
        (subtree : Option RelPath) (entries : List RelPath) (recipients : List KeyId)
        (plain : RelPath → Bytes) (text : Text)
        (visit : BundleEntry → Exec S (Error T F RE) (Unit {0})) (t : S)
        → laws.Healthy st.storage
        → subtree_path s ≡ ok subtree
        → (list 𝓒 𝓢 𝓥 subtree st).0 ≡ ok entries
        → is_empty entries ≡ false
        → resolve_recipients 𝓢 st.storage top ≡ ok recipients
        → F.to_string (manifest_of 𝓒 𝓢 𝓥 T F seconds recipients entries) ≡ inr text
        → All (λ e. IsText e.as_str) entries
        → All (λ e. (show 𝓒 𝓢 𝓥 e st).0 ≡ ok (plain e)) entries
        → ((backup 𝓒 𝓢 𝓥 T F (undisturbed s seconds) st T.new).0 ≡ ok (length entries % 4294967296))
          × (read_bundle T F RE visit
                (no_pre_check T F RE)
                (T.into_inner (backup 𝓒 𝓢 𝓥 T F (undisturbed s seconds) st T.new).1)
                t
              ≡ (visit_all visit (map (with_plaintext plain) entries) >>= λ done.
                    pure (manifest_of 𝓒 𝓢 𝓥 T F seconds recipients entries))
                  t)
    read_bundle-backup st s seconds subtree entries recipients plain text visit t h parsed listed
          some_left resolved rendered texts shown =
        let sound =
          All-IsSound entries plain
            (All-of_In entries (λ e there. listed-IsValid st subtree entries e h listed there))
            texts in
        let (written, reads) =
          read_bundle_across T F tar toml visit (manifest_of 𝓒 𝓢 𝓥 T F seconds recipients entries)
            text (map (with_plaintext plain) entries) t refl rendered sound in
        rw
          (backup_lem st s seconds subtree entries recipients plain parsed listed some_left resolved
            shown written)
          (refl, reads)
      where
        All-IsSound :
            (es : List RelPath) (f : RelPath → Bytes)
            → All IsValid es
            → All (λ e. IsText e.as_str) es
            → All IsSound (map (with_plaintext f) es)
        All-IsSound [] f valid texts = tt
        All-IsSound (e ∷ es) f (v, valid) (x, texts) =
            (record { valid = v; text = x }, All-IsSound es f valid texts)
