-- ===== src/Examples/Stores.antt =====
-- The store's operations at concrete inputs: a store with two entries for one recipient.
use mathlib.Core.List.{Perm}
use bypass.Prelude.{
  ◌≡◌, ◌≢◌, refl, ◌↔◌, inr, none, some, List, [], ◌∷◌, ok, err, true, false, if◌then◌else◌, In,
}
use bypass.Text
use bypass.Text.{Text, Bytes, codes, text_eq, contains_text}
use bypass.Text.Utf8
use bypass.Text.Utf8.{encode, is_scalar}
use bypass.RelPath.{RelPath, IsValid, parent, new, segments}
use bypass.Crypto.{KeyId}
use bypass.Vcs.{no_vcs}
use bypass.GpgId
use bypass.GpgId.{GpgIdError, resolve_recipients, parse_gpg_id, is_recipient}
use bypass.GpgId.Parse.{gpg_id_body, IsPlainLine}
use bypass.GpgId.Nearest.{resolve_recipients_nearest, recipients_in, first_blob, ancestors}
use bypass.Store.{
  Store, StoreError, insert, show, copy, rename, remove, remove_recursive, list, find, init,
  not_found, already_exists, install_gitattributes,
}
use bypass.Store.Blobs.{entry_to_blob, blob_to_entry, recipients_equal}
use bypass.Store.Blobs.RoundTrip.{blob_of}
use bypass.Store.Insert.{show-insert}
use bypass.Store.Transfer.{show-rename}
use bypass.Store.Remove.{list-remove_recursive, is_blob_of}
use bypass.Store.Listing.{list_lem, IsEntry, IsSortedByPath}
use bypass.Store.Init.{resolve_recipients-init}
use bypass.Store.Blobs.Recipients.{recipients_equal_iff, names}
use bypass.Examples.Backends.{
  Files, lookup, keys, mem_storage, mem_storage-IsBlobMap, marking, marking-IsDecryptable, store_of,
}
use bypass.Examples.Paths.{path, web, web_bank, mail, web_bank-IsValid, mail-IsValid}

abbrev pub alice : KeyId
alice = record { as_str = codes "alice@example.org" }

abbrev files : Files
files =
    (path (codes ".gpg-id"), codes "alice@example.org\n")
    ∷ (path (codes "web/bank.gpg"), 0x85 ∷ codes "1234")
    ∷ (path (codes "web.gpg"), 0x85 ∷ codes "top")
    ∷ []

abbrev st : Store marking mem_storage no_vcs
st = store_of files

mail_recipients : resolve_recipients mem_storage files mail ≡ ok (alice ∷ [])
unfolding resolve_recipients GpgId.gpg_id_path GpgId.parse_gpg_id parent new lookup Text.contains
    Text.split Text.starts_with Text.ends_with Text.rsplit_once Utf8.from_utf8 Text.lines Text.trim
    Text.is_whitespace
mail_recipients = refl

bank_recipients : resolve_recipients mem_storage files web_bank ≡ ok (alice ∷ [])
unfolding resolve_recipients GpgId.gpg_id_path GpgId.parse_gpg_id parent new lookup Text.contains
    Text.split Text.starts_with Text.ends_with Text.rsplit_once Utf8.from_utf8 Text.lines Text.trim
    Text.is_whitespace bypass.RelPath.join
bank_recipients = refl

IsPlainLine-alice : IsPlainLine alice
unfolding Text.contains Text.trim Text.is_whitespace Text.starts_with
IsPlainLine-alice = record {
  one_line = refl;
  no_cr = refl;
  trimmed = refl;
  kept = refl;
  scalar = (
    refl,
    (
      refl,
      (
        refl,
        (
          refl,
          (
            refl,
            (
              refl,
              (
                refl,
                (refl, (refl, (refl, (refl, (refl, (refl, (refl, (refl, (refl, (refl, tt)))))))))),
              ),
            ),
          ),
        ),
      ),
    ),
  );
}

show-insert_example :
    ((insert marking mem_storage no_vcs mail (codes "x") false st).0 ≡ ok tt)
    × (show marking mem_storage no_vcs mail
          (insert marking mem_storage no_vcs mail (codes "x") false st).1
        ≡ (ok (codes "x"), (insert marking mem_storage no_vcs mail (codes "x") false st).1))
    × ((q : RelPath)
        → lookup q (insert marking mem_storage no_vcs mail (codes "x") false st).1.storage ≡ (
            if text_eq (blob_of mail).as_str q.as_str
            then some (0x85 ∷ codes "x")
            else lookup q files))
unfolding lookup text_eq bypass.Store.Blobs.recipients_equal bypass.Store.Sorting.sort_by
show-insert_example =
    show-insert marking mem_storage no_vcs mem_storage-IsBlobMap mail (codes "x") (0x85 ∷ codes "x")
      false st (alice ∷ []) mail-IsValid tt (inr refl) mail_recipients refl marking-IsDecryptable tt

web_bank-ne-mail : web_bank.as_str ≢ mail.as_str
web_bank-ne-mail e = cc

show-rename_example :
    ((rename marking mem_storage no_vcs web_bank mail false st).0 ≡ ok tt)
    × ((show marking mem_storage no_vcs mail
          (rename marking mem_storage no_vcs web_bank mail false st).1).0
        ≡ ok (codes "1234"))
    × ((show marking mem_storage no_vcs web_bank
          (rename marking mem_storage no_vcs web_bank mail false st).1).0
        ≡ err (not_found (codes "web/bank")))
    × ((q : RelPath)
        → lookup q (rename marking mem_storage no_vcs web_bank mail false st).1.storage ≡ (
            if text_eq (blob_of web_bank).as_str q.as_str
            then none
            else if text_eq (blob_of mail).as_str q.as_str
            then some (0x85 ∷ codes "1234")
            else lookup q files))
unfolding lookup text_eq bypass.Store.Blobs.recipients_equal bypass.Store.Sorting.sort_by
show-rename_example =
    show-rename marking mem_storage no_vcs mem_storage-IsBlobMap marking-IsDecryptable web_bank mail
      false st (codes "1234") (0x85 ∷ codes "1234") (0x85 ∷ codes "1234") (alice ∷ []) (alice ∷ [])
      web_bank-IsValid mail-IsValid tt (inr refl) refl bank_recipients mail_recipients refl
      (λ e. refl) (λ e. tt) web_bank-ne-mail

listed_below_web : list marking mem_storage no_vcs (some web) st ≡ (ok (web_bank ∷ []), st)
unfolding list keys bypass.Store.Sorting.sort_by bypass.Store.Blobs.entries_of Text.strip_prefix
    blob_to_entry Text.strip_suffix new Text.starts_with Text.ends_with Text.contains Text.split
listed_below_web = refl

list-remove_recursive_example :
    ((remove_recursive marking mem_storage no_vcs web st).0 ≡ ok (web_bank ∷ []))
    × ((q : RelPath)
        → lookup q (remove_recursive marking mem_storage no_vcs web st).1.storage
          ≡ (if is_blob_of (web_bank ∷ []) q then none else lookup q files))
    × ((list marking mem_storage no_vcs
          (some web)
          (remove_recursive marking mem_storage no_vcs web st).1).0
        ≡ ok [])
unfolding lookup
list-remove_recursive_example =
    list-remove_recursive marking mem_storage no_vcs mem_storage-IsBlobMap web web_bank [] st tt
      listed_below_web refl

listed_below_mail : list marking mem_storage no_vcs (some mail) st ≡ (ok [], st)
unfolding list keys bypass.Store.Sorting.sort_by bypass.Store.Blobs.entries_of Text.strip_prefix
    blob_to_entry Text.strip_suffix new Text.starts_with Text.ends_with Text.contains Text.split
listed_below_mail = refl

list_lem_example :
    (entries : List RelPath) × (list marking mem_storage no_vcs none st ≡ (ok entries, st))
    × IsSortedByPath entries
    × ((e : RelPath) → In e entries ↔ IsEntry mem_storage-IsBlobMap files none e)
unfolding lookup
list_lem_example = list_lem marking mem_storage no_vcs mem_storage-IsBlobMap none st tt

resolve_recipients-init_example :
    ((init marking mem_storage no_vcs (alice ∷ []) (store_of [])).0 ≡ ok tt)
    × (resolve_recipients mem_storage
          (init marking mem_storage no_vcs (alice ∷ []) (store_of [])).1.storage
          mail
        ≡ ok (alice ∷ []))
    × ((q : RelPath)
        → lookup q (init marking mem_storage no_vcs (alice ∷ []) (store_of [])).1.storage ≡ (
            if text_eq (codes ".gpg-id") q.as_str
            then some (Utf8.encode (gpg_id_body (alice ∷ [])))
            else if text_eq (codes ".gitattributes") q.as_str
            then lookup
                (path (codes ".gitattributes"))
                (init marking mem_storage no_vcs (alice ∷ []) (store_of [])).1.storage
            else none))
unfolding lookup parent Text.rsplit_once
resolve_recipients-init_example =
    resolve_recipients-init marking mem_storage no_vcs mem_storage-IsBlobMap alice [] (store_of [])
      tt refl (λ paths. refl) mail (IsPlainLine-alice, tt) mail-IsValid refl

resolve_recipients_nearest_example :
    resolve_recipients mem_storage files web_bank
    ≡ recipients_in (first_blob (λ p. lookup p files) (ancestors [] (segments web_bank)))
unfolding lookup
resolve_recipients_nearest_example =
    resolve_recipients_nearest mem_storage-IsBlobMap files tt web_bank web_bank-IsValid

alice_file : parse_gpg_id {E = Unit {0}} (codes "# team\n alice@example.org \n") ≡ ok (alice ∷ [])
unfolding parse_gpg_id Text.contains Text.split Text.starts_with Utf8.from_utf8 Text.lines Text.trim
    Text.is_whitespace
alice_file = refl

recipients_equal_iff_example :
    (recipients_equal (alice ∷ alice ∷ []) (alice ∷ []) ≡ true)
    ↔ Perm (names (alice ∷ alice ∷ [])) (names (alice ∷ []))
recipients_equal_iff_example = recipients_equal_iff (alice ∷ alice ∷ []) (alice ∷ [])
