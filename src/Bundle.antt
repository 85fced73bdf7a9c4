-- ===== src/Bundle.antt =====
-- Backup bundles (crates/bypass-core/src/bundle.rs): a tar archive of a manifest and the plaintexts
-- of the entries. The tar and toml libraries are parameters. What the writer has handed to tar
-- before an error stays written, so the builder is a state.
pub mod RoundTrip
pub mod Guard
pub mod Members
use mathlib.Core.Int.{ℤ}
use bypass.Prelude.{
  ℕ, ◌⊎◌, not, Option, none, some, List, [], ◌∷◌, ◌++◌, Outcome, ok, map_err, ok_or, ◌==◌,
  if◌then◌else◌, returned,
}
use bypass.Exec.{Exec, pure, raise, lift, ◌>>=◌, ◌>>◌}
use bypass.Text.{Text, Bytes, codes, text_eq, strip_prefix}
use bypass.Text.Utf8.{encode, from_utf8}
use bypass.RelPath
use bypass.RelPath.{RelPath, PathError}

abbrev pub format_version : ℕ
format_version = 1

abbrev pub manifest_name : Text
manifest_name = codes "manifest.toml"

abbrev pub entries_prefix : Text
entries_prefix = codes "entries/"

pub record Manifest : Type 0 where
  pub version : ℕ
  pub created_at_unix : ℤ
  pub original_recipients : List Text
  pub entries : ℕ

-- `IO` is `std::io::Error`, `TE` and `TD` the errors of toml, and `SE` the boxed error of a source.
pub data BundleError (IO TE TD SE : Type 0) : Type 0 where
  io : IO → BundleError IO TE TD SE
  encode_manifest : TE → BundleError IO TE TD SE
  decode_manifest : TD → BundleError IO TE TD SE
  non_utf8_manifest : BundleError IO TE TD SE
  incompatible_format : ℕ → ℕ → BundleError IO TE TD SE
  missing_manifest : BundleError IO TE TD SE
  invalid_entry_path : PathError → BundleError IO TE TD SE
  non_utf8_member_name : BundleError IO TE TD SE
  unexpected_member : Text → BundleError IO TE TD SE
  source : SE → BundleError IO TE TD SE

pub record BundleEntry : Type 0 where
  pub path : RelPath
  pub plaintext : Bytes

-- A member as the reader of tar hands it out: the bytes of its name and its content, each of which
-- may fail to be read.
pub record Member (IO : Type 0) : Type 0 where
  pub path : IO ⊎ Bytes
  pub read_to_end : IO ⊎ Bytes

-- The tar library: a builder over a sink, and the members of an archive in their order.
pub record Tar : Type 1 where
  pub Error : Type 0
  pub Builder : Type 0
  pub new : Builder
  pub append_data : Builder → Text → Bytes → (Error ⊎ (Unit {0})) × Builder
  pub finish : Builder → (Error ⊎ (Unit {0})) × Builder
  pub Archive : Type 0
  pub into_inner : Builder → Archive
  pub members : Archive → Error ⊎ List (Error ⊎ Member Error)

-- The toml library at the type `Manifest`.
pub record Toml : Type 1 where
  pub SerError : Type 0
  pub DeError : Type 0
  pub to_string : Manifest → SerError ⊎ Text
  pub from_str : Text → DeError ⊎ Manifest

-- The name of an entry's member.
abbrev pub member_of : RelPath → Text
member_of path = entries_prefix ++ path.as_str

module _ (T : Tar) (F : Toml) (SE : Type 0) where
  abbrev pub Error : Type 0
  Error = BundleError T.Error F.SerError F.DeError SE

  -- A call that reads or writes, with its error wrapped.
  abbrev pub io_call : {A : Type 0} → T.Error ⊎ A → Outcome Error A
  io_call r = map_err io (returned r)

  abbrev pub Writing : Type 0 → Type 0
  Writing A = Exec T.Builder Error A

  abbrev pub append_member : Text → Bytes → Writing (Unit {0})
  append_member name content b =
      (io_call (T.append_data b name content).0, (T.append_data b name content).1)

  -- `builder.finish()?`, `into_inner` and the flush of the sink.
  abbrev pub finish_archive : Writing (Unit {0})
  finish_archive b = (io_call (T.finish b).0, (T.finish b).1)

  -- The loop of `write_bundle` over what the iterator yields.
  unfoldable pub append_entries : List (Outcome Error BundleEntry) → Writing (Unit {0})
  append_entries [] = pure tt
  append_entries (item ∷ items) = do
    entry ← lift item
    append_member (member_of entry.path) entry.plaintext
    append_entries items

  unfoldable pub write_bundle : Manifest → List (Outcome Error BundleEntry) → Writing (Unit {0})
  unfolding append_entries
  write_bundle manifest entries = do
    text ← lift (map_err encode_manifest (returned (F.to_string manifest)))
    append_member manifest_name (encode text)
    append_entries entries
    finish_archive

  unfoldable pub member_name : {S : Type 0} → Member T.Error → Exec S Error Text
  member_name member = do
    path ← lift (io_call member.path)
    lift (ok_or (from_utf8 path) non_utf8_member_name)

  abbrev pub no_pre_check : Manifest → Outcome Error (Unit {0})
  no_pre_check manifest = ok tt

  module _ {S : Type 0} (visit : BundleEntry → Exec S Error (Unit {0})) where
    abbrev pub Reading : Type 0 → Type 0
    Reading A = Exec S Error A

    -- The end of the loop's body, from the member's path in the store, and what follows.
    unfoldable pub read_entry : Reading (Unit {0}) → Member T.Error → Text → Reading (Unit {0})
    read_entry rest member rel = do
      path ← lift (map_err invalid_entry_path (RelPath.new rel))
      buf ← lift (io_call member.read_to_end)
      visit (record { path = path; plaintext = buf })
      rest

    -- The loop of `read_bundle` over the members behind the first.
    unfoldable pub read_entries : List (T.Error ⊎ Member T.Error) → Reading (Unit {0})
    unfolding member_name read_entry
    read_entries [] = pure tt
    read_entries (item ∷ items) = do
      member ← lift (io_call item)
      name ← member_name member
      rel ← lift (ok_or (strip_prefix name entries_prefix) (unexpected_member name))
      read_entry (read_entries items) member rel

    -- The manifest in the content of the first member.
    unfoldable pub parse_manifest : Member T.Error → Reading Manifest
    parse_manifest first = do
      buf ← lift (io_call first.read_to_end)
      text ← lift (ok_or (from_utf8 buf) non_utf8_manifest)
      lift (map_err decode_manifest (returned (F.from_str text)))

    -- The test of its version, and the caller's check.
    unfoldable pub check_manifest :
        (Manifest → Outcome Error (Unit {0})) → Manifest → Reading Manifest
    check_manifest pre_check manifest =
        if not (manifest.version == format_version)
        then raise (incompatible_format manifest.version format_version)
        else do lift (pre_check manifest); pure manifest

    unfoldable pub read_manifest :
        (Manifest → Outcome Error (Unit {0})) → T.Error ⊎ Member T.Error → Reading Manifest
    unfolding member_name parse_manifest check_manifest
    read_manifest pre_check item = do
      first ← lift (io_call item)
      name ← member_name first
      if not (text_eq name manifest_name)
          then raise missing_manifest
          else do manifest ← parse_manifest first; check_manifest pre_check manifest

    abbrev pub read_members :
        (Manifest → Outcome Error (Unit {0})) → List (T.Error ⊎ Member T.Error) → Reading Manifest
    read_members pre_check [] = raise missing_manifest
    read_members pre_check (first ∷ items) = do
      manifest ← read_manifest pre_check first
      read_entries items
      pure manifest

    unfoldable pub read_bundle :
        (Manifest → Outcome Error (Unit {0})) → T.Archive → Reading Manifest
    unfolding read_entries read_manifest
    read_bundle pre_check archive = do
      items ← lift (io_call (T.members archive))
      read_members pre_check items
