-- ===== src/Cli/Restore/Kept.antt =====
-- What an insertion without a commit (crates/bypass-core/src/store.rs) does to each of the blobs.
use bypass.Prelude.{◌≡◌, refl, ◌∙◌, ap, ◌⊎◌, inl, inr, Bool-cases, Outcome, ok, err, abort, arith}
use bypass.Exec.{Exec, pure, ◌>>◌, continue, continue_lem}
use bypass.Text.{Text, Bytes, text_eq}
use bypass.Text.Laws.{text_eq_iff}
use bypass.RelPath.{RelPath}
use bypass.Crypto.{Crypto}
use bypass.Storage.{Storage, IsBlobMap}
use bypass.Vcs.{VersionControl}
use bypass.Store.{
  Store, StoreError, insert_no_commit, call_resolve, call_encrypt, call_remove, call_write,
}
use bypass.Store.Blobs.{entry_to_blob}
use bypass.Store.Blobs.RoundTrip.{blob_of}
use bypass.Import.Driver.Existing.{entry_to_blob-eq-ok, insert_no_commit_other}

-- What holds of both the result and the state of a chain.
pub chain_lem {ℓ} :
    {S E A B : Type 0} (Q : Outcome E B × S → Type ℓ) (f : A → Exec S E B) (r : Outcome E A) (s : S)
    → ((a : A) → r ≡ ok a → Q (f a s))
    → ((e : E) → Q (err e, s))
    → Q (abort, s)
    → Q (continue f r s)
chain_lem Q f (ok a) s goes stops panics = goes a refl
chain_lem Q f (err e) s goes stops panics = stops e
chain_lem Q f abort s goes stops panics = panics

module _ (𝓒 : Crypto) (𝓢 : Storage) (𝓥 : VersionControl) (laws : IsBlobMap 𝓢) where
  open laws use {blob, Healthy, write_lem, remove_lem}

  -- The blob is returned as the one that was written, or is what it was.
  abbrev pub Kept :
      RelPath
      → Store 𝓒 𝓢 𝓥
      → Outcome (StoreError 𝓒.Error 𝓢.Error 𝓥.Error) RelPath × Store 𝓒 𝓢 𝓥
      → Type 0
  Kept q st r = Healthy r.1.storage × ((r.0 ≡ ok q) ⊎ (blob r.1.storage q ≡ blob st.storage q))

  pub insert_no_commit_vcs :
      (e : RelPath) (plaintext : Bytes) (st : Store 𝓒 𝓢 𝓥)
      → (insert_no_commit 𝓒 𝓢 𝓥 e plaintext st).1.vcs ≡ st.vcs
  unfolding insert_no_commit
  insert_no_commit_vcs e plaintext st =
      continue_lem (λ (t : Store 𝓒 𝓢 𝓥). t.vcs ≡ st.vcs) _ (entry_to_blob e) st
        (λ b _.
          continue_lem (λ (t : Store 𝓒 𝓢 𝓥). t.vcs ≡ st.vcs) _ (call_resolve 𝓒 𝓢 𝓥 e st).0 st
            (λ recipients _.
              let t = (call_encrypt 𝓒 𝓢 𝓥 plaintext recipients st).1 in
              continue_lem (λ (t : Store 𝓒 𝓢 𝓥). t.vcs ≡ st.vcs) _
                (call_encrypt 𝓒 𝓢 𝓥 plaintext recipients st).0 t
                (λ ciphertext _.
                  let u = (call_remove 𝓒 𝓢 𝓥 b t).1 in
                  continue_lem (λ (t : Store 𝓒 𝓢 𝓥). t.vcs ≡ st.vcs) _ (call_remove 𝓒 𝓢 𝓥 b t).0 u
                    (λ _ _.
                      continue_lem (λ (t : Store 𝓒 𝓢 𝓥). t.vcs ≡ st.vcs) _
                        (call_write 𝓒 𝓢 𝓥 b ciphertext u).0 (call_write 𝓒 𝓢 𝓥 b ciphertext u).1
                        (λ _ _. refl) refl)
                    refl)
                refl)
            refl)
        refl

  pub replaced_lem :
      (b : RelPath) (ciphertext : Bytes) (t : Store 𝓒 𝓢 𝓥)
      → Healthy t.storage
      → Healthy ((call_remove 𝓒 𝓢 𝓥 b >> (call_write 𝓒 𝓢 𝓥 b ciphertext >> pure b)) t).1.storage
        × (((call_remove 𝓒 𝓢 𝓥 b >> (call_write 𝓒 𝓢 𝓥 b ciphertext >> pure b)) t).0 ≡ ok b)
  replaced_lem b ciphertext t h =
      let (removed, healthy) = remove_lem t.storage b h in
      let (written, still) = write_lem (𝓢.remove t.storage b).1 b ciphertext healthy in
      rw (removed, written) (still, refl)

  -- On a storage without I/O errors, where an insertion does not return, no blob has changed.
  insert_no_commit_self :
      (e : RelPath) (plaintext : Bytes) (st : Store 𝓒 𝓢 𝓥)
      → Healthy st.storage
      → Kept (blob_of e) st (insert_no_commit 𝓒 𝓢 𝓥 e plaintext st)
  unfolding insert_no_commit
  insert_no_commit_self e plaintext st h =
      chain_lem (Kept (blob_of e) st) _ (entry_to_blob e) st
        (λ b made.
          chain_lem (Kept (blob_of e) st) _ (call_resolve 𝓒 𝓢 𝓥 e st).0 st
            (λ recipients _.
              let t = (call_encrypt 𝓒 𝓢 𝓥 plaintext recipients st).1 in
              chain_lem (Kept (blob_of e) st) _ (call_encrypt 𝓒 𝓢 𝓥 plaintext recipients st).0 t
                (λ ciphertext _.
                  let (still, returns) = replaced_lem b ciphertext t h in
                  (still, inl (returns ∙ ap ok (entry_to_blob-eq-ok e b made))))
                (λ _. (h, inr refl)) (h, inr refl))
            (λ _. (h, inr refl)) (h, inr refl))
        (λ _. (h, inr refl)) (h, inr refl)

  pub insert_no_commit-Kept :
      (e q : RelPath) (plaintext : Bytes) (st : Store 𝓒 𝓢 𝓥)
      → Healthy st.storage
      → Kept q st (insert_no_commit 𝓒 𝓢 𝓥 e plaintext st)
  insert_no_commit-Kept e q plaintext st h =
      elim (Bool-cases (text_eq (blob_of e).as_str q.as_str)) [
        | inl same ↦
            rw (← same_path (blob_of e) q ((text_eq_iff (blob_of e).as_str q.as_str).0 same))
              (insert_no_commit_self e plaintext st h)
        | inr apart ↦
            let (still, kept) =
              insert_no_commit_other 𝓒 𝓢 𝓥 laws e q plaintext st st
                (λ same. ground (arith, text_eq_iff (blob_of e).as_str q.as_str)) (h, refl) in
            (still, inr kept)
      ]
    where
      same_path : (p q : RelPath) → p.as_str ≡ q.as_str → p ≡ q
      same_path p q same = ap (λ (t : Text). record { as_str = t }) same
