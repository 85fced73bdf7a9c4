-- ===== src/Cli/Restore/Shown.antt =====
-- What a restore (crates/bypass-cli/src/restore.rs) writes, as `show` reads it.
use bypass.Prelude.{
  map_err-eq-ok, All, ◌≡◌, refl, sym, ◌∙◌, ap, ◌⊎◌, inl, inr, ℕ, Bool-cases, some, List, [], ◌∷◌,
  map, Outcome, ok, err, abort, In, arith,
}
use bypass.Text.{Text, Bytes, text_eq}
use bypass.Text.Laws.{text_eq_iff}
use bypass.RelPath.{RelPath, IsValid}
use bypass.Crypto.{KeyId, Crypto, IsDecryptable}
use bypass.Storage.{Storage, IsBlobMap}
use bypass.Vcs.{VersionControl}
use bypass.Store.{
  Store, StoreError, crypto, from_gpg_id, insert_no_commit, call_resolve, call_encrypt,
}
use bypass.GpgId.{resolve_recipients}
use bypass.GpgId.Nearest.{gpg_id_in}
use bypass.GpgId.Unchanged.{blob_of-ne-gpg_id_in, resolve_recipients-ext}
use bypass.Store.Blobs.{entry_to_blob}
use bypass.Store.Blobs.RoundTrip.{blob_of, blob_of-ne}
use bypass.Store.Insert.{blob-write_self}
use bypass.Import.Driver.Existing.{entry_to_blob-eq-ok, insert_no_commit_other}
use bypass.Bundle.{Tar, Toml, BundleEntry}
use bypass.Bundle.RoundTrip.{visit_all}
use bypass.Cli.Restore.{Restoring, StoreFailure, BundleFailure, touched, restore_entry}
use bypass.Cli.Restore.Kept.{chain_lem, insert_no_commit-Kept}

abbrev pub with_plaintext : (RelPath → Bytes) → RelPath → BundleEntry
with_plaintext plain e = record { path = e; plaintext = plain e }

module _ (𝓒 : Crypto) (𝓢 : Storage) (𝓥 : VersionControl) (laws : IsBlobMap 𝓢)
    (decr : IsDecryptable 𝓒) (dest : 𝓢.State) (working : laws.Healthy dest) where
  open laws use {blob, Healthy, write_lem, remove_lem}

  -- The storage works, and has the `.gpg-id` files of the destination.
  abbrev pub Works : 𝓢.State → Type 0
  Works storage =
      Healthy storage
      × ((dir : List Text) → blob storage (gpg_id_in dir) ≡ blob dest (gpg_id_in dir))

  -- Who holds a key of one of the entry's recipients in the destination decrypts this to that.
  abbrev pub Opens : RelPath → Bytes → Bytes → Type 0
  Opens e ciphertext plaintext =
      (recipients : List KeyId) × (resolve_recipients 𝓢 dest e ≡ ok recipients)
      × ((k : 𝓒.State) → decr.Holds k recipients → 𝓒.decrypt k ciphertext ≡ ok plaintext)

  -- The storage works, and has a blob for the entry, which who holds a key of one of its recipients in the
  -- destination decrypts to this plaintext.
  abbrev pub Shown : RelPath → Bytes → 𝓢.State → Type 0
  Shown e plaintext storage =
      Healthy storage
      × (ciphertext : Bytes) × (blob storage (blob_of e) ≡ some ciphertext)
      × (Opens e ciphertext plaintext)

  abbrev Returns :
      RelPath → Bytes → Outcome (StoreError 𝓒.Error 𝓢.Error 𝓥.Error) RelPath × Store 𝓒 𝓢 𝓥 → Type 0
  Returns e plaintext r = (b : RelPath) → r.0 ≡ ok b → Shown e plaintext r.1.storage

  insert_no_commit-Works :
      (e : RelPath) (plaintext : Bytes) (st : Store 𝓒 𝓢 𝓥)
      → Works st.storage
      → Works (insert_no_commit 𝓒 𝓢 𝓥 e plaintext st).1.storage
  insert_no_commit-Works e plaintext st (h, same) = (
    (insert_no_commit-Kept 𝓒 𝓢 𝓥 laws e e plaintext st h).0,
    λ dir.
        (insert_no_commit_other 𝓒 𝓢 𝓥 laws e (gpg_id_in dir) plaintext st st
          (blob_of-ne-gpg_id_in e dir) (h, refl)).1
        ∙ same dir,
  )

  replaced-Shown :
      (e : RelPath) (plaintext ciphertext : Bytes) (t : Store 𝓒 𝓢 𝓥)
      → Healthy t.storage
      → Opens e ciphertext plaintext
      → Shown e plaintext (𝓢.write (𝓢.remove t.storage (blob_of e)).1 (blob_of e) ciphertext).1
  replaced-Shown e plaintext ciphertext t h opens =
      let (removed, healthy) = remove_lem t.storage (blob_of e) h in
      (
        (write_lem (𝓢.remove t.storage (blob_of e)).1 (blob_of e) ciphertext healthy).1,
        ciphertext,
        blob-write_self 𝓒 𝓢 𝓥 laws (𝓢.remove t.storage (blob_of e)).1 (blob_of e) ciphertext
            healthy,
        opens,
      )

  insert_no_commit-Shown :
      (e : RelPath) (plaintext : Bytes) (st : Store 𝓒 𝓢 𝓥)
      → IsValid e
      → Works st.storage
      → Returns e plaintext (insert_no_commit 𝓒 𝓢 𝓥 e plaintext st)
  unfolding insert_no_commit
  insert_no_commit-Shown e plaintext st valid (h, ids) =
      chain_lem (Returns e plaintext) _ (entry_to_blob e) st
        (λ b made.
          chain_lem (Returns e plaintext) _ (call_resolve 𝓒 𝓢 𝓥 e st).0 st
            (λ recipients resolved.
              let t = (call_encrypt 𝓒 𝓢 𝓥 plaintext recipients st).1 in
              chain_lem (Returns e plaintext) _ (call_encrypt 𝓒 𝓢 𝓥 plaintext recipients st).0 t
                (λ ciphertext encrypted last returns.
                  let same =
                    sym (resolve_recipients-ext laws st.storage dest e h working valid ids)
                    ∙ map_err-eq-ok from_gpg_id _ resolved in
                  let (removed, healthy) = remove_lem t.storage b h in
                  let (written, still) = write_lem (𝓢.remove t.storage b).1 b ciphertext healthy in
                  rw (removed, written, entry_to_blob-eq-ok e b made)
                    (replaced-Shown e plaintext ciphertext t h (
                      recipients,
                      same,
                      λ k held.
                          decr.decrypt-encrypt st.crypto k plaintext ciphertext recipients
                            (map_err-eq-ok crypto (𝓒.encrypt st.crypto plaintext recipients).0
                              encrypted)
                            held,
                    )))
                (λ _ b returns. cc) (λ b returns. cc))
            (λ _ b returns. cc) (λ b returns. cc))
        (λ _ b returns. cc) (λ b returns. cc)

  module _ (plain : RelPath → Bytes) where
    insert_no_commit_shows :
        (e d b : RelPath) (st : Store 𝓒 𝓢 𝓥)
        → IsValid d
        → Works st.storage
        → (insert_no_commit 𝓒 𝓢 𝓥 d (plain d) st).0 ≡ ok b
        → (e ≡ d) ⊎ Shown e (plain e) st.storage
        → Shown e (plain e) (insert_no_commit 𝓒 𝓢 𝓥 d (plain d) st).1.storage
    insert_no_commit_shows e d b st valid h returns (inl same) =
        rw same (insert_no_commit-Shown d (plain d) st valid h b returns)
    insert_no_commit_shows e d b st valid h returns (inr (healthy, c, there, opens)) =
        elim (Bool-cases (text_eq d.as_str e.as_str)) [
          | inl same ↦
              let eq : e ≡ d =
                ap (λ (t : Text). record { as_str = t })
                  (sym ((text_eq_iff d.as_str e.as_str).0 same)) in
              rw eq (insert_no_commit-Shown d (plain d) st valid h b returns)
          | inr apart ↦
              let ne = blob_of-ne d e (λ same. ground (arith, text_eq_iff d.as_str e.as_str)) in
              let (still, kept) =
                insert_no_commit_other 𝓒 𝓢 𝓥 laws d (blob_of e) (plain d) st st ne (h.0, refl) in
              (still, c, kept ∙ there, opens)
        ]

    touched_returns :
        (T : Tar) (F : Toml) (decimal : ℕ → Text) (blobs : List RelPath)
        (r : Outcome (StoreFailure 𝓒 𝓢 𝓥 T F decimal) RelPath × Store 𝓒 𝓢 𝓥) (u : Unit {0})
        → (touched 𝓒 𝓢 𝓥 T F decimal r blobs).0 ≡ ok u
        → (b : RelPath) × (r.0 ≡ ok b)
    touched_returns T F decimal blobs (ok b, t) u returns = (b, refl)
    touched_returns T F decimal blobs (err e, t) u returns = cc
    touched_returns T F decimal blobs (abort, t) u returns = cc

    touched_store :
        (T : Tar) (F : Toml) (decimal : ℕ → Text) (blobs : List RelPath)
        (r : Outcome (StoreFailure 𝓒 𝓢 𝓥 T F decimal) RelPath × Store 𝓒 𝓢 𝓥)
        → (touched 𝓒 𝓢 𝓥 T F decimal r blobs).1.store ≡ r.1
    touched_store T F decimal blobs (ok b, t) = refl
    touched_store T F decimal blobs (err e, t) = refl
    touched_store T F decimal blobs (abort, t) = refl

    module _ (T : Tar) (F : Toml) (decimal : ℕ → Text) where
      -- Where all the visits return, every entry that was visited, or was there, is shown.
      pub visit_all-Shown :
          (es : List RelPath) (e : RelPath) (s : Restoring 𝓒 𝓢 𝓥 T F decimal)
          → Works s.store.storage
          → All IsValid es
          → In e es ⊎ Shown e (plain e) s.store.storage
          → (visit_all (restore_entry 𝓒 𝓢 𝓥 T F decimal) (map (with_plaintext plain) es) s).0
            ≡ ok tt
          → Shown e
              (plain e)
              (visit_all
                (restore_entry 𝓒 𝓢 𝓥 T F decimal)
                (map (with_plaintext plain) es)
                s).1.store.storage
      visit_all-Shown [] e s h valid (inl there) = absurd there.1
      visit_all-Shown [] e s h valid (inr shown) = λ returns. shown
      visit_all-Shown (d ∷ es) e s h valid there =
          let r = insert_no_commit 𝓒 𝓢 𝓥 d (plain d) s.store in
          let first = touched 𝓒 𝓢 𝓥 T F decimal r s.touched_blobs in
          let healthy : Works first.1.store.storage =
            rw (touched_store T F decimal s.touched_blobs r)
              (insert_no_commit-Works d (plain d) s.store h) in
          chain_lem
            (λ (p : Outcome (BundleFailure 𝓒 𝓢 𝓥 T F decimal) (Unit {0})
                × Restoring 𝓒 𝓢 𝓥 T F decimal).
              p.0 ≡ ok tt → Shown e (plain e) p.1.store.storage)
            _ first.0 first.1
            (λ u done.
              let (b, inserted) = touched_returns T F decimal s.touched_blobs r u done in
              visit_all-Shown es e first.1 healthy valid.1 (later u b inserted there))
            (λ _ returns. cc) (λ returns. cc)
        where
          shows :
              (u : Unit {0}) (b : RelPath)
              → (insert_no_commit 𝓒 𝓢 𝓥 d (plain d) s.store).0 ≡ ok b
              → (e ≡ d) ⊎ Shown e (plain e) s.store.storage
              → In e es
                ⊎ Shown e
                    (plain e)
                    (touched 𝓒 𝓢 𝓥 T F decimal
                      (insert_no_commit 𝓒 𝓢 𝓥 d (plain d) s.store)
                      s.touched_blobs).1.store.storage
          shows u b inserted which = inr (
              rw
                (touched_store T F decimal s.touched_blobs
                  (insert_no_commit 𝓒 𝓢 𝓥 d (plain d) s.store))
                (insert_no_commit_shows e d b s.store valid.0 h inserted which))

          later :
              (u : Unit {0}) (b : RelPath)
              → (insert_no_commit 𝓒 𝓢 𝓥 d (plain d) s.store).0 ≡ ok b
              → In e (d ∷ es) ⊎ Shown e (plain e) s.store.storage
              → In e es
                ⊎ Shown e
                    (plain e)
                    (touched 𝓒 𝓢 𝓥 T F decimal
                      (insert_no_commit 𝓒 𝓢 𝓥 d (plain d) s.store)
                      s.touched_blobs).1.store.storage
          later u b inserted (inl (inr below)) = inl below
          later u b inserted (inl (inl same)) = shows u b inserted (inl same)
          later u b inserted (inr shown) = shows u b inserted (inr shown)
