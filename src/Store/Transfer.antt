-- ===== src/Store/Transfer.antt =====
-- `copy` and `rename` of crates/bypass-core/src/store.rs.
use bypass.Prelude.{
  ◌≡◌, ◌≢◌, refl, ◌∙◌, inl, inr, Bool, false, none, some, List, [], ◌∷◌, ◌++◌, Bool-cases, ok, err,
  map_err, if◌then◌else◌,
}
use bypass.Text.{Text, Bytes, codes, text_eq}
use bypass.Text.Laws.{text_eq_refl, text_eq-false}
use bypass.RelPath.{RelPath, IsValid}
use bypass.Crypto.{KeyId, Crypto, IsDecryptable}
use bypass.Storage.{Storage, IsBlobMap}
use bypass.Vcs.{VersionControl}
use bypass.GpgId.{resolve_recipients}
use bypass.Store.{
  Store, StoreError, not_found, call_commit, transfer_ciphertext, transfer_blob, copy, rename, show,
}
use bypass.Store.Blobs.{recipients_equal}
use bypass.Store.Blobs.RoundTrip.{blob_of, blob_of-ne, entry_to_blob_lem}
use bypass.Store.Insert.{MayWrite, refuse_existing_ok, show_lem, show_missing, blob-write_self}

abbrev pub copy_message : RelPath → RelPath → Text
copy_message from to = codes "bypass: Copy " ++ (from.as_str ++ (codes " to " ++ to.as_str))

abbrev pub rename_message : RelPath → RelPath → Text
rename_message from to = codes "bypass: Rename " ++ (from.as_str ++ (codes " to " ++ to.as_str))

-- A rename to the same path does nothing, whatever the backends would do.
pub rename_same :
    (𝓒 : Crypto) (𝓢 : Storage) (𝓥 : VersionControl) (p : RelPath) (overwrite : Bool)
    (st : Store 𝓒 𝓢 𝓥)
    → rename 𝓒 𝓢 𝓥 p p overwrite st ≡ (ok tt, st)
unfolding rename
rename_same 𝓒 𝓢 𝓥 p overwrite st = rw (text_eq_refl p.as_str)

module _ (𝓒 : Crypto) (𝓢 : Storage) (𝓥 : VersionControl) (laws : IsBlobMap 𝓢)
    (laws_𝓒 : IsDecryptable 𝓒) (from to : RelPath) (overwrite : Bool) (st : Store 𝓒 𝓢 𝓥)
    (plain ciphertext reencrypted : Bytes) (src dst : List KeyId) (valid_from : IsValid from)
    (valid_to : IsValid to) (healthy : laws.Healthy st.storage)
    (may : MayWrite overwrite (laws.blob st.storage (blob_of to)))
    (source : laws.blob st.storage (blob_of from) ≡ some ciphertext)
    (src_resolved : resolve_recipients 𝓢 st.storage from ≡ ok src)
    (dst_resolved : resolve_recipients 𝓢 st.storage to ≡ ok dst)
    (decrypted : 𝓒.decrypt st.crypto ciphertext ≡ ok plain)
    (encrypted : recipients_equal src dst ≡ false
      → (𝓒.encrypt st.crypto plain dst).0 ≡ ok reencrypted)
    (holds : recipients_equal src dst ≡ false
      → laws_𝓒.Holds (𝓒.encrypt st.crypto plain dst).1 dst) where
  open laws use {
    blob, Healthy, read_lem, exists_lem, write_lem, blob-write, remove_lem, blob-remove,
  }

  -- The blob that is written: the old ciphertext, if both entries have the same recipients.
  abbrev pub new_ciphertext : Bytes
  new_ciphertext = if recipients_equal src dst then ciphertext else reencrypted

  abbrev new_crypto : 𝓒.State
  new_crypto = if recipients_equal src dst then st.crypto else (𝓒.encrypt st.crypto plain dst).1

  decrypt_new : 𝓒.decrypt new_crypto new_ciphertext ≡ ok plain
  decrypt_new = elim (Bool-cases (recipients_equal src dst)) [
    | inl e ↦ rw e decrypted
    | inr e ↦ rw e (
        laws_𝓒.decrypt-encrypt st.crypto (𝓒.encrypt st.crypto plain dst).1 plain reencrypted dst
          (encrypted e) (holds e))
  ]

  abbrev transferred : Store 𝓒 𝓢 𝓥
  transferred = record {
    crypto = new_crypto;
    storage = (𝓢.write st.storage (blob_of to) new_ciphertext).1;
    vcs = st.vcs;
  }

  transfer_blob_lem : transfer_blob 𝓒 𝓢 𝓥 from to overwrite st ≡ (ok (blob_of to), transferred)
  unfolding transfer_blob transfer_ciphertext
  transfer_blob_lem = elim (Bool-cases (recipients_equal src dst)) [
    | inl e ↦ rw (
      entry_to_blob_lem from valid_from,
      entry_to_blob_lem to valid_to,
      refuse_existing_ok 𝓒 𝓢 𝓥 laws overwrite (blob_of to) to st healthy may,
      read_lem st.storage (blob_of from) healthy,
      source,
      src_resolved,
      dst_resolved,
      e,
      (write_lem st.storage (blob_of to) ciphertext healthy).0,
    )
    | inr e ↦ rw (
      entry_to_blob_lem from valid_from,
      entry_to_blob_lem to valid_to,
      refuse_existing_ok 𝓒 𝓢 𝓥 laws overwrite (blob_of to) to st healthy may,
      read_lem st.storage (blob_of from) healthy,
      source,
      src_resolved,
      dst_resolved,
      e,
      decrypted,
      encrypted e,
      (write_lem st.storage (blob_of to) reencrypted healthy).0,
    )
  ]

  copy_lem :
      copy 𝓒 𝓢 𝓥 from to overwrite st
      ≡ call_commit 𝓒 𝓢 𝓥 (blob_of to ∷ []) (copy_message from to) transferred
  unfolding copy
  copy_lem = rw transfer_blob_lem

  -- On a storage without I/O errors, for valid entries of which the source is there and the
  -- destination is new or may be overwritten, with recipients that resolve and a source that can be
  -- decrypted, and, where the recipients differ, an encryption for those of the destination that
  -- succeeds and leaves a key of one of them at hand: `copy` stores at the destination the source's ciphertext if both have the same
  -- recipients, else the source's plaintext encrypted anew; its result is that of one commit of
  -- that blob; `show` of the destination then returns the source's plaintext, and every other blob
  -- is as it was.
  pub show-copy :
      ((copy 𝓒 𝓢 𝓥 from to overwrite st).0
        ≡ map_err StoreError.vcs (𝓥.commit st.vcs (blob_of to ∷ []) (copy_message from to)).0)
      × ((show 𝓒 𝓢 𝓥 to (copy 𝓒 𝓢 𝓥 from to overwrite st).1).0 ≡ ok plain)
      × ((q : RelPath)
          → blob (copy 𝓒 𝓢 𝓥 from to overwrite st).1.storage q ≡ (
              if text_eq (blob_of to).as_str q.as_str
              then some (if recipients_equal src dst then ciphertext else reencrypted)
              else blob st.storage q))
  show-copy =
      let stored = blob-write_self 𝓒 𝓢 𝓥 laws st.storage (blob_of to) new_ciphertext healthy in
      let last = call_commit 𝓒 𝓢 𝓥 (blob_of to ∷ []) (copy_message from to) transferred in
      rw copy_lem (
        refl,
        rw (
          show_lem 𝓒 𝓢 𝓥 laws to new_ciphertext last.1 valid_to
              (write_lem st.storage (blob_of to) new_ciphertext healthy).1 stored,
          decrypt_new,
        ),
        λ q. blob-write st.storage (blob_of to) q new_ciphertext healthy,
      )

  module _ (ne : from.as_str ≢ to.as_str) where
    abbrev moved : Store 𝓒 𝓢 𝓥
    moved = record {
      crypto = new_crypto;
      storage = (𝓢.remove (𝓢.write st.storage (blob_of to) new_ciphertext).1 (blob_of from)).1;
      vcs = st.vcs;
    }

    rename_lem :
        rename 𝓒 𝓢 𝓥 from to overwrite st
        ≡ call_commit 𝓒 𝓢 𝓥 (blob_of from ∷ blob_of to ∷ []) (rename_message from to) moved
    unfolding rename
    rename_lem = rw (
      text_eq-false from.as_str to.as_str ne,
      transfer_blob_lem,
      entry_to_blob_lem from valid_from,
      (remove_lem _ (blob_of from) (write_lem st.storage (blob_of to) new_ciphertext healthy).1).0,
    )

    after_write : Healthy (𝓢.write st.storage (blob_of to) new_ciphertext).1
    after_write = (write_lem st.storage (blob_of to) new_ciphertext healthy).1

    blob-moved :
        (q : RelPath)
        → blob moved.storage q ≡ (
            if text_eq (blob_of from).as_str q.as_str
            then none
            else if text_eq (blob_of to).as_str q.as_str
            then some new_ciphertext
            else blob st.storage q)
    blob-moved q =
        blob-remove _ (blob_of from) q after_write
        ∙ rw (blob-write st.storage (blob_of to) q new_ciphertext healthy)

    -- On a storage without I/O errors, for valid entries of which the source is there and can be
    -- decrypted and the destination is new or may be overwritten, with recipients that resolve,
    -- and, where these differ, an encryption for those of the destination that succeeds and leaves
    -- a key of one of them at hand: `rename` to another path has the result of one commit of both
    -- blobs; `show` of the new path then returns the plaintext, `show` of the old one finds
    -- nothing, and every other blob is as it was.
    pub show-rename :
        ((rename 𝓒 𝓢 𝓥 from to overwrite st).0
          ≡ map_err StoreError.vcs
              (𝓥.commit st.vcs (blob_of from ∷ blob_of to ∷ []) (rename_message from to)).0)
        × ((show 𝓒 𝓢 𝓥 to (rename 𝓒 𝓢 𝓥 from to overwrite st).1).0 ≡ ok plain)
        × ((show 𝓒 𝓢 𝓥 from (rename 𝓒 𝓢 𝓥 from to overwrite st).1).0 ≡ err (not_found from.as_str))
        × ((q : RelPath)
            → blob (rename 𝓒 𝓢 𝓥 from to overwrite st).1.storage q ≡ (
                if text_eq (blob_of from).as_str q.as_str
                then none
                else if text_eq (blob_of to).as_str q.as_str
                then some (if recipients_equal src dst then ciphertext else reencrypted)
                else blob st.storage q))
    show-rename =
        let blobs_ne = blob_of-ne from to ne in
        let last =
          call_commit 𝓒 𝓢 𝓥 (blob_of from ∷ blob_of to ∷ []) (rename_message from to) moved in
        let still_healthy = (remove_lem _ (blob_of from) after_write).1 in
        let stored : blob moved.storage (blob_of to) ≡ some new_ciphertext =
          blob-moved (blob_of to)
          ∙ rw (text_eq-false _ _ blobs_ne, text_eq_refl (blob_of to).as_str) in
        let gone : blob moved.storage (blob_of from) ≡ none =
          blob-moved (blob_of from) ∙ rw (text_eq_refl (blob_of from).as_str) in
        rw rename_lem (
          refl,
          rw (
            show_lem 𝓒 𝓢 𝓥 laws to new_ciphertext last.1 valid_to still_healthy stored,
            decrypt_new,
          ),
          rw (show_missing 𝓒 𝓢 𝓥 laws from last.1 valid_from still_healthy gone),
          blob-moved,
        )
