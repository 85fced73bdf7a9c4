-- ===== src/Store/Insert.antt =====
-- `insert` and `show` of crates/bypass-core/src/store.rs.
use bypass.Prelude.{
  ◌≡◌, ◌≢◌, refl, ◌∙◌, ◌⊎◌, inl, inr, Bool, true, false, Option, none, some, List, [], ◌∷◌, ◌++◌,
  ok, err, map_err, if◌then◌else◌,
}
use bypass.Text.{Text, Bytes, codes, text_eq}
use bypass.Text.Laws.{text_eq_refl, text_eq-false}
use bypass.RelPath.{RelPath, IsValid}
use bypass.Crypto.{KeyId, Crypto, IsDecryptable}
use bypass.Storage.{Storage, IsBlobMap}
use bypass.Vcs.{VersionControl}
use bypass.GpgId.{resolve_recipients}
use bypass.Store.{
  Store, StoreError, already_exists, not_found, crypto, call_commit, refuse_existing, insert, show,
}
use bypass.Store.Blobs.RoundTrip.{blob_of, entry_to_blob_lem}

-- The entry may be written: it is not there, or may be overwritten.
abbrev pub MayWrite : Bool → Option Bytes → Type 0
MayWrite overwrite o = (overwrite ≡ true) ⊎ (o ≡ none)

abbrev pub insert_message : Bool → RelPath → Text
insert_message overwrite entry =
    codes "bypass: "
    ++ ((if overwrite then codes "Update" else codes "Add")
        ++ (codes " password for " ++ entry.as_str))

module _ (𝓒 : Crypto) (𝓢 : Storage) (𝓥 : VersionControl) (laws : IsBlobMap 𝓢) where
  open laws use {
    blob, Healthy, read_lem, exists_lem, write_lem, blob-write, remove_lem, blob-remove,
  }

  pub refuse_existing_ok :
      (overwrite : Bool) (b entry : RelPath) (st : Store 𝓒 𝓢 𝓥)
      → Healthy st.storage
      → MayWrite overwrite (blob st.storage b)
      → refuse_existing 𝓒 𝓢 𝓥 overwrite b entry st ≡ (ok tt, st)
  unfolding refuse_existing
  refuse_existing_ok true b entry st h m = refl
  refuse_existing_ok false b entry st h (inl e) = cc
  refuse_existing_ok false b entry st h (inr e) = rw (exists_lem st.storage b h, e)

  -- On a storage without I/O errors, a valid entry that is there is not overwritten unasked: the
  -- error names it, and nothing is changed.
  pub insert_refused :
      (entry : RelPath) (plaintext old : Bytes) (st : Store 𝓒 𝓢 𝓥)
      → IsValid entry
      → Healthy st.storage
      → blob st.storage (blob_of entry) ≡ some old
      → insert 𝓒 𝓢 𝓥 entry plaintext false st ≡ (err (already_exists entry.as_str), st)
  unfolding insert
  insert_refused entry plaintext old st valid h e =
      rw (entry_to_blob_lem entry valid, exists_lem st.storage (blob_of entry) h, e)

  -- `show` of an entry that is not there: the error names the entry.
  pub show_missing :
      (entry : RelPath) (st : Store 𝓒 𝓢 𝓥)
      → IsValid entry
      → Healthy st.storage
      → blob st.storage (blob_of entry) ≡ none
      → show 𝓒 𝓢 𝓥 entry st ≡ (err (not_found entry.as_str), st)
  unfolding show
  show_missing entry st valid h e =
      rw (entry_to_blob_lem entry valid, read_lem st.storage (blob_of entry) h, e)

  -- `show` of an entry that is there decrypts its blob.
  pub show_lem :
      (entry : RelPath) (ciphertext : Bytes) (st : Store 𝓒 𝓢 𝓥)
      → IsValid entry
      → Healthy st.storage
      → blob st.storage (blob_of entry) ≡ some ciphertext
      → show 𝓒 𝓢 𝓥 entry st ≡ (map_err crypto (𝓒.decrypt st.crypto ciphertext), st)
  unfolding show
  show_lem entry ciphertext st valid h e =
      rw (entry_to_blob_lem entry valid, read_lem st.storage (blob_of entry) h, e)

  pub blob-write_self :
      (s : 𝓢.State) (p : RelPath) (bytes : Bytes)
      → Healthy s
      → blob (𝓢.write s p bytes).1 p ≡ some bytes
  blob-write_self s p bytes h = rw (blob-write s p p bytes h, text_eq_refl p.as_str)

  pub blob-write_ne :
      (s : 𝓢.State) (p q : RelPath) (bytes : Bytes)
      → Healthy s
      → p.as_str ≢ q.as_str
      → blob (𝓢.write s p bytes).1 q ≡ blob s q
  blob-write_ne s p q bytes h ne = rw (blob-write s p q bytes h, text_eq-false p.as_str q.as_str ne)

  module _ (entry : RelPath) (plaintext ciphertext : Bytes) (overwrite : Bool) (st : Store 𝓒 𝓢 𝓥)
      (recipients : List KeyId) (valid : IsValid entry) (healthy : Healthy st.storage)
      (may : MayWrite overwrite (blob st.storage (blob_of entry)))
      (resolved : resolve_recipients 𝓢 st.storage entry ≡ ok recipients)
      (encrypted : (𝓒.encrypt st.crypto plaintext recipients).0 ≡ ok ciphertext) where
    -- The store as `insert` hands it to the commit.
    abbrev written : Store 𝓒 𝓢 𝓥
    written = record {
      crypto = (𝓒.encrypt st.crypto plaintext recipients).1;
      storage = (𝓢.write st.storage (blob_of entry) ciphertext).1;
      vcs = st.vcs;
    }

    insert_lem :
        insert 𝓒 𝓢 𝓥 entry plaintext overwrite st
        ≡ call_commit 𝓒 𝓢 𝓥 (blob_of entry ∷ []) (insert_message overwrite entry) written
    unfolding insert
    insert_lem = rw (
      entry_to_blob_lem entry valid,
      refuse_existing_ok overwrite (blob_of entry) entry st healthy may,
      resolved,
      encrypted,
      (write_lem st.storage (blob_of entry) ciphertext healthy).0,
    )

    -- Whether or not a key is held, the result is that of one commit of the entry's blob, which has
    -- the ciphertext, and no other blob has changed.
    insert_stores :
        ((insert 𝓒 𝓢 𝓥 entry plaintext overwrite st).0
          ≡ map_err StoreError.vcs
              (𝓥.commit st.vcs (blob_of entry ∷ []) (insert_message overwrite entry)).0)
        × ((q : RelPath)
            → blob (insert 𝓒 𝓢 𝓥 entry plaintext overwrite st).1.storage q ≡ (
                if text_eq (blob_of entry).as_str q.as_str
                then some ciphertext
                else blob st.storage q))
    insert_stores =
        rw insert_lem (refl, λ q. blob-write st.storage (blob_of entry) q ciphertext healthy)

    -- On a storage without I/O errors, for a valid entry that is new or may be overwritten, whose
    -- recipients resolve, and an encryption that succeeds and leaves a key of one of them at hand:
    -- `insert` has the result of one commit of the entry's blob, stores the ciphertext at that
    -- blob, leaves all other blobs alone, and `show` then returns the plaintext.
    pub show-insert :
        (laws_𝓒 : IsDecryptable 𝓒)
        → laws_𝓒.Holds (𝓒.encrypt st.crypto plaintext recipients).1 recipients
        → ((insert 𝓒 𝓢 𝓥 entry plaintext overwrite st).0
            ≡ map_err StoreError.vcs
                (𝓥.commit st.vcs (blob_of entry ∷ []) (insert_message overwrite entry)).0)
          × (show 𝓒 𝓢 𝓥 entry (insert 𝓒 𝓢 𝓥 entry plaintext overwrite st).1
              ≡ (ok plaintext, (insert 𝓒 𝓢 𝓥 entry plaintext overwrite st).1))
          × ((q : RelPath)
              → blob (insert 𝓒 𝓢 𝓥 entry plaintext overwrite st).1.storage q ≡ (
                  if text_eq (blob_of entry).as_str q.as_str
                  then some ciphertext
                  else blob st.storage q))
    show-insert laws_𝓒 holds =
        let stored = blob-write_self st.storage (blob_of entry) ciphertext healthy in
        let last =
          call_commit 𝓒 𝓢 𝓥 (blob_of entry ∷ []) (insert_message overwrite entry) written in
        (
          insert_stores.0,
          rw insert_lem (
              show_lem entry ciphertext last.1 valid
                (write_lem st.storage (blob_of entry) ciphertext healthy).1 stored
              ∙ rw (
                  laws_𝓒.decrypt-encrypt st.crypto last.1.crypto plaintext ciphertext recipients
                    encrypted holds)),
          insert_stores.1,
        )
