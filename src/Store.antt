-- ===== src/Store.antt =====
-- The password-store orchestrator (crates/bypass-core/src/store.rs) over the three backend traits.
-- A method takes the store and returns it with the method's result.
pub mod Attributes
pub mod Init
pub mod Insert
pub mod Transfer
pub mod Remove
pub mod Listing
pub mod Blobs
pub mod Sorting
use bypass.Prelude.{
  ℕ, ◌≡◌, Bool, true, false, not, ◌&&◌, Option, none, some, List, [], ◌∷◌, ◌++◌, Outcome, ok, err,
  map_err, ok_or, expect, ◌==◌, if◌then◌else◌, length, is_empty,
}
use bypass.Exec.{Exec, pure, raise, lift, ◌>>=◌, ◌>>◌}
use bypass.Text.{Text, Bytes, codes, text_eq}
use bypass.Text.Utf8.{encode}
use bypass.RelPath
use bypass.RelPath.{RelPath}
use bypass.Crypto.{KeyId, Crypto}
use bypass.Storage.{Storage}
use bypass.Vcs.{VersionControl, Commit}
use bypass.GpgId
use bypass.GpgId.{GpgIdError, resolve_recipients}
use bypass.GpgId.Parse.{gpg_id_body}
use bypass.Store.Attributes.{has_gpg_binary_rule, gitattributes_rule}
use bypass.Store.Blobs.{entry_to_blob, entries_of, containing, recipients_equal}
use bypass.Store.Sorting.{sort_by}

pub data StoreError (CE SE VE : Type 0) : Type 0 where
  not_found : Text → StoreError CE SE VE
  already_exists : Text → StoreError CE SE VE
  not_initialized : StoreError CE SE VE
  gpg_id_malformed : Text → StoreError CE SE VE
  crypto : CE → StoreError CE SE VE
  storage : SE → StoreError CE SE VE
  vcs : VE → StoreError CE SE VE

unfoldable pub from_gpg_id : {CE SE VE : Type 0} → GpgIdError SE → StoreError CE SE VE
from_gpg_id GpgIdError.missing = not_initialized
from_gpg_id GpgIdError.empty = gpg_id_malformed (codes "no recipients")
from_gpg_id GpgIdError.not_utf8 = gpg_id_malformed (codes "not UTF-8")
from_gpg_id (GpgIdError.storage e) = storage e

pub record Store (𝓒 : Crypto) (𝓢 : Storage) (𝓥 : VersionControl) : Type 0 where
  pub crypto : 𝓒.State
  pub storage : 𝓢.State
  pub vcs : 𝓥.State

abbrev pub gitattributes_path : {E : Type 0} → Outcome E RelPath
gitattributes_path = expect (RelPath.new (codes ".gitattributes"))

abbrev pub root_gpg_id_path : {E : Type 0} → Outcome E RelPath
root_gpg_id_path = expect (RelPath.new (codes ".gpg-id"))

-- The body of `.gitattributes` with a newline put at its end where there is none.
unfoldable pub end_line : Bytes → Bytes
end_line [] = []
end_line (b ∷ []) = if b == b'\n' then b ∷ [] else b ∷ b'\n' ∷ []
end_line (b ∷ (c ∷ r)) = b ∷ end_line (c ∷ r)

abbrev pub or_default : Option Bytes → Bytes
or_default none = []
or_default (some b) = b

module _ (𝓒 : Crypto) (𝓢 : Storage) (𝓥 : VersionControl) where
  abbrev pub Error : Type 0
  Error = StoreError 𝓒.Error 𝓢.Error 𝓥.Error

  abbrev pub M : Type 0 → Type 0
  M A = Exec (Store 𝓒 𝓢 𝓥) Error A

  -- The calls of the backends, with the errors wrapped.
  abbrev pub call_read : RelPath → M (Option Bytes)
  call_read p st = (map_err storage (𝓢.read st.storage p), st)

  abbrev pub call_exists : RelPath → M Bool
  call_exists p st = (map_err storage (𝓢.exists st.storage p), st)

  abbrev pub call_list : Option RelPath → M (List RelPath)
  call_list prefix st = (map_err storage (𝓢.list st.storage prefix), st)

  abbrev pub call_write : RelPath → Bytes → M (Unit {0})
  call_write p bytes st = (
    map_err storage (𝓢.write st.storage p bytes).0,
    record st { storage = (𝓢.write st.storage p bytes).1 },
  )

  abbrev pub call_remove : RelPath → M (Unit {0})
  call_remove p st =
      (map_err storage (𝓢.remove st.storage p).0, record st { storage = (𝓢.remove st.storage p).1 })

  abbrev pub call_encrypt : Bytes → List KeyId → M Bytes
  call_encrypt plaintext recipients st = (
    map_err crypto (𝓒.encrypt st.crypto plaintext recipients).0,
    record st { crypto = (𝓒.encrypt st.crypto plaintext recipients).1 },
  )

  abbrev pub call_decrypt : Bytes → M Bytes
  call_decrypt ciphertext st = (map_err crypto (𝓒.decrypt st.crypto ciphertext), st)

  abbrev pub call_vcs_init : M (Unit {0})
  call_vcs_init st = (map_err vcs (𝓥.init st.vcs).0, record st { vcs = (𝓥.init st.vcs).1 })

  abbrev pub call_commit : List RelPath → Text → M (Unit {0})
  call_commit paths message st = (
    map_err vcs (𝓥.commit st.vcs paths message).0,
    record st { vcs = (𝓥.commit st.vcs paths message).1 },
  )

  abbrev pub call_resolve : RelPath → M (List KeyId)
  call_resolve entry st = (map_err from_gpg_id (resolve_recipients 𝓢 st.storage entry), st)

  unfoldable pub install_gitattributes : M Bool
  install_gitattributes = do
    path ← lift gitattributes_path
    found ← call_read path
    let existing = or_default found
    if has_gpg_binary_rule existing
        then pure false
        else do call_write path (end_line existing ++ gitattributes_rule); pure true

  unfoldable pub gitattributes_has_gpg_binary_rule : M Bool
  gitattributes_has_gpg_binary_rule = do
    path ← lift gitattributes_path
    found ← call_read path
    pure (has_gpg_binary_rule (or_default found))

  abbrev initial_paths : Bool → RelPath → RelPath → List RelPath
  initial_paths true gpg_id attrs = gpg_id ∷ attrs ∷ []
  initial_paths false gpg_id attrs = gpg_id ∷ []

  unfoldable pub init : List KeyId → M (Unit {0})
  init recipients =
      if is_empty recipients then raise (gpg_id_malformed (codes "no recipients")) else do
        path ← lift root_gpg_id_path
        call_write path (encode (gpg_id_body recipients))
        attrs ← lift gitattributes_path
        attrs_changed ← install_gitattributes
        call_vcs_init
        call_commit (initial_paths attrs_changed path attrs) (codes "bypass: initialise store")

  -- `!overwrite && self.storage.exists(&blob)?`, and the error if so.
  pub refuse_existing : Bool → RelPath → RelPath → M (Unit {0})
  refuse_existing true blob entry = pure tt
  refuse_existing false blob entry = do
    there ← call_exists blob
    if there then raise (already_exists entry.as_str) else pure tt

  unfoldable pub insert : RelPath → Bytes → Bool → M (Unit {0})
  unfolding refuse_existing
  insert entry plaintext overwrite = do
    blob ← lift (entry_to_blob entry)
    refuse_existing overwrite blob entry
    recipients ← call_resolve entry
    ciphertext ← call_encrypt plaintext recipients
    call_write blob ciphertext
    call_commit (blob ∷ []) (
        codes "bypass: "
        ++ ((if overwrite then codes "Update" else codes "Add")
            ++ (codes " password for " ++ entry.as_str)))

  unfoldable pub insert_no_commit : RelPath → Bytes → M RelPath
  insert_no_commit entry plaintext = do
    blob ← lift (entry_to_blob entry)
    recipients ← call_resolve entry
    ciphertext ← call_encrypt plaintext recipients
    call_remove blob
    call_write blob ciphertext
    pure blob

  unfoldable pub commit_changes : List RelPath → Text → M (Unit {0})
  commit_changes paths message = call_commit paths message

  unfoldable pub show : RelPath → M Bytes
  show entry = do
    blob ← lift (entry_to_blob entry)
    found ← call_read blob
    ciphertext ← lift (ok_or found (not_found entry.as_str))
    call_decrypt ciphertext

  unfoldable pub list : Option RelPath → M (List RelPath)
  list subpath = do blobs ← call_list subpath; pure (sort_by (λ e. e.as_str) (entries_of blobs))

  unfoldable pub find : Text → M (List RelPath)
  unfolding list
  find pattern = do entries ← list none; pure (containing pattern entries)

  unfoldable pub remove : RelPath → M (Unit {0})
  remove entry = do
    blob ← lift (entry_to_blob entry)
    there ← call_exists blob
    if there then pure tt else raise (not_found entry.as_str)
    call_remove blob
    call_commit (blob ∷ []) (codes "bypass: Remove " ++ entry.as_str)

  -- The new ciphertext of `transfer_blob`: the old one, if the recipients are the same.
  pub transfer_ciphertext : Bool → Bytes → List KeyId → M Bytes
  transfer_ciphertext true ciphertext recipients = pure ciphertext
  transfer_ciphertext false ciphertext recipients = do
    plain ← call_decrypt ciphertext
    call_encrypt plain recipients

  unfoldable pub transfer_blob : RelPath → RelPath → Bool → M RelPath
  unfolding refuse_existing transfer_ciphertext
  transfer_blob from to overwrite = do
    from_blob ← lift (entry_to_blob from)
    to_blob ← lift (entry_to_blob to)
    refuse_existing overwrite to_blob to
    found ← call_read from_blob
    ciphertext ← lift (ok_or found (not_found from.as_str))
    src_recipients ← call_resolve from
    dst_recipients ← call_resolve to
    new_ciphertext ←
        transfer_ciphertext (recipients_equal src_recipients dst_recipients) ciphertext
          dst_recipients
    call_write to_blob new_ciphertext
    pure to_blob

  unfoldable pub copy : RelPath → RelPath → Bool → M (Unit {0})
  unfolding transfer_blob
  copy from to overwrite = do
    to_blob ← transfer_blob from to overwrite
    call_commit (to_blob ∷ [])
        (codes "bypass: Copy " ++ (from.as_str ++ (codes " to " ++ to.as_str)))

  unfoldable pub rename : RelPath → RelPath → Bool → M (Unit {0})
  unfolding transfer_blob
  rename from to overwrite = if text_eq from.as_str to.as_str then pure tt else do
    to_blob ← transfer_blob from to overwrite
    from_blob ← lift (entry_to_blob from)
    call_remove from_blob
    call_commit (from_blob ∷ to_blob ∷ [])
        (codes "bypass: Rename " ++ (from.as_str ++ (codes " to " ++ to.as_str)))

  abbrev blob_filter : Option RelPath → M (Option RelPath)
  blob_filter none = pure none
  blob_filter (some entry) = do blob ← lift (entry_to_blob entry); pure (some blob)

  unfoldable pub log : Option RelPath → M (List Commit)
  log entry = do blob ← blob_filter entry; λ st. (map_err vcs (𝓥.log st.vcs blob), st)

  -- The loop of `remove_recursive`: the blobs that it has removed.
  unfoldable pub remove_entries : List RelPath → M (List RelPath)
  remove_entries [] = pure []
  remove_entries (entry ∷ entries) = do
    blob ← lift (entry_to_blob entry)
    call_remove blob
    blobs ← remove_entries entries
    pure (blob ∷ blobs)

  unfoldable pub remove_recursive : RelPath → M (List RelPath)
  unfolding list
  remove_recursive prefix = do
    entries ← list (some prefix)
    if is_empty entries then raise (not_found prefix.as_str) else do
      blobs ← remove_entries entries
      call_commit blobs (codes "bypass: Remove " ++ (prefix.as_str ++ codes "/"))
      pure entries
