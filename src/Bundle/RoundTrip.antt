-- ===== src/Bundle/RoundTrip.antt =====
-- What `write_bundle` writes is what `read_bundle` reads, given what tar and toml promise.
use mathlib.Core.List.{append_assoc, append-nil}
use bypass.Prelude.{
  ◌≡◌, refl, sym, ◌∙◌, ◌⊎◌, inr, true, ==_iff, List, [], ◌∷◌, ◌++◌, arith, Outcome, ok, All, map,
  All-append,
}
use bypass.Exec.{Exec, continue-ext, pure, ◌>>=◌, ◌>>◌}
use bypass.Text.{Text, Bytes, codes, contains, split}
use bypass.Text.Utf8.{encode, is_scalar, from_utf8-encode}
use bypass.Text.Split.{split-append}
use bypass.Text.Affix.{strip_prefix-append}
use bypass.Text.Laws.{text_eq_refl}
use bypass.RelPath.{RelPath, IsValid, IsSegment}
use bypass.RelPath.Valid.{new-IsValid}
use bypass.Bundle.{
  Tar, Toml, Manifest, BundleEntry, Member, Error, manifest_name, entries_prefix, member_of,
  format_version, append_entries, write_bundle, member_name, read_entries, read_manifest,
  parse_manifest, check_manifest, read_bundle,
}

abbrev pub IsText : Text → Type 0
IsText = All (λ c. is_scalar c ≡ true)

-- A path and text of Rust, as `RelPath` holds.
pub record IsSound (e : BundleEntry) : Type 0 where
  pub valid : IsValid e.path
  pub text : IsText e.path.as_str

-- A member that can be read.
abbrev pub member_at : {IO : Type 0} → Text × Bytes → IO ⊎ Member IO
member_at (name, bytes) = inr (record { path = inr (encode name); read_to_end = inr bytes })

-- What tar promises where no I/O error occurs: an archive holds what was appended, in that order,
-- under the names given, if these are relative paths of plain segments.
pub record IsTar (T : Tar) : Type 0 where
  pub content : T.Builder → List (Text × Bytes)
  pub content-new : content T.new ≡ []
  pub append_data_lem :
      (b : T.Builder) (p : RelPath) (bytes : Bytes)
      → IsValid p
      → ((T.append_data b p.as_str bytes).0 ≡ inr tt)
        × (content (T.append_data b p.as_str bytes).1 ≡ content b ++ (p.as_str, bytes) ∷ [])
  pub finish_lem :
      (b : T.Builder)
      → ((T.finish b).0 ≡ inr tt)
        × (T.members (T.into_inner (T.finish b).1) ≡ inr (map member_at (content b)))

-- What toml promises of a manifest that it can write.
pub record IsToml (F : Toml) : Type 0 where
  pub from_str-to_string :
      (m : Manifest) (text : Text)
      → F.to_string m ≡ inr text
      → IsText text × (F.from_str text ≡ inr m)

abbrev pub content_of : BundleEntry → Text × Bytes
content_of e = (member_of e.path, e.plaintext)

module _ {S E : Type 0} (visit : BundleEntry → Exec S E (Unit {0})) where
  -- Every entry visited, in order, up to the first error.
  abbrev pub visit_all : List BundleEntry → Exec S E (Unit {0})
  visit_all [] = pure tt
  visit_all (e ∷ es) = do visit e; visit_all es

abbrev manifest_path : RelPath
manifest_path = record { as_str = manifest_name }

manifest-IsValid : IsValid manifest_path
unfolding split contains
manifest-IsValid = (
  record {
    nonempty = λ e. cc;
    not_dot = λ e. ground arith;
    not_dotdot = λ e. ground arith;
    no_nul = refl;
    no_backslash = refl;
  },
  tt,
)

entries-IsSegment : IsSegment (codes "entries")
unfolding contains
entries-IsSegment = record {
  nonempty = λ e. cc;
  not_dot = λ e. ground arith;
  not_dotdot = λ e. ground arith;
  no_nul = refl;
  no_backslash = refl;
}

entries-split : All IsSegment (split b'/' (codes "entries"))
unfolding split
entries-split = (entries-IsSegment, tt)

member_of-IsValid : (p : RelPath) → IsValid p → IsValid (record { as_str = member_of p })
member_of-IsValid p h =
    rw (split-append b'/' (codes "entries") p.as_str)
      (All-append IsSegment (split b'/' (codes "entries")) (split b'/' p.as_str) entries-split h)

manifest_name-IsText : IsText manifest_name
manifest_name-IsText = ground arith

member_of-IsText : (p : RelPath) → IsText p.as_str → IsText (member_of p)
member_of-IsText p h =
    All-append (λ c. is_scalar c ≡ true) entries_prefix p.as_str (prefix-IsText) h
  where
    prefix-IsText : IsText entries_prefix
    prefix-IsText = ground arith

module _ (T : Tar) (F : Toml) (SE : Type 0) (tar : IsTar T) where
  open tar use {content, content-new, append_data_lem, finish_lem}

  append_entries_lem :
      (es : List BundleEntry) (b : T.Builder)
      → All IsSound es
      → ((append_entries T F SE (map ok es) b).0 ≡ ok tt)
        × (content (append_entries T F SE (map ok es) b).1 ≡ content b ++ map content_of es)
  unfolding append_entries
  append_entries_lem [] b h = (refl, sym (append-nil (content b)))
  append_entries_lem (e ∷ es) b h =
      let (done, after) =
        append_data_lem b (record { as_str = member_of e.path }) e.plaintext
          (member_of-IsValid e.path h.0.valid) in
      let (rest, held) =
        append_entries_lem es (T.append_data b (member_of e.path) e.plaintext).1 h.1 in
      rw done (rest, held ∙ rw (after, append_assoc))

  read_entries_lem :
      {S : Type 0} (visit : BundleEntry → Exec S (Error T F SE) (Unit {0})) (es : List BundleEntry)
      (s : S)
      → All IsSound es
      → read_entries T F SE visit (map member_at (map content_of es)) s ≡ visit_all visit es s
  unfolding read_entries member_name
  read_entries_lem visit [] s h = refl
  read_entries_lem visit (e ∷ es) s h =
      rw
        (
          from_utf8-encode (member_of e.path) (member_of-IsText e.path h.0.text),
          strip_prefix-append entries_prefix e.path.as_str,
          new-IsValid e.path h.0.valid,
        )
        (continue-ext (visit e s).0 (visit e s).1 (λ a t. read_entries_lem visit es t h.1))

  pub write_bundle_lem :
      (m : Manifest) (text : Text) (es : List BundleEntry)
      → F.to_string m ≡ inr text
      → All IsSound es
      → ((write_bundle T F SE m (map ok es) T.new).0 ≡ ok tt)
        × (T.members (T.into_inner (write_bundle T F SE m (map ok es) T.new).1)
            ≡ inr (map member_at ((manifest_name, encode text) ∷ map content_of es)))
  unfolding write_bundle
  write_bundle_lem m text es t h =
      let (starts, held) = append_data_lem T.new manifest_path (encode text) manifest-IsValid in
      let opened = (T.append_data T.new manifest_name (encode text)).1 in
      let (goes, all) = append_entries_lem es opened h in
      let (ends, read) = finish_lem (append_entries T F SE (map ok es) opened).1 in
      rw (t, starts, goes, ends) (refl, read ∙ rw (all, held, content-new))

  read_manifest_lem :
      {S : Type 0} (toml : IsToml F) (pre_check : Manifest → Outcome (Error T F SE) (Unit {0}))
      (visit : BundleEntry → Exec S (Error T F SE) (Unit {0})) (m : Manifest) (text : Text) (s : S)
      → m.version ≡ format_version
      → F.to_string m ≡ inr text
      → pre_check m ≡ ok tt
      → read_manifest T F SE visit pre_check (member_at (manifest_name, encode text)) s ≡ (ok m, s)
  unfolding read_manifest member_name parse_manifest check_manifest
  read_manifest_lem toml pre_check visit m text s v t c =
      let (scalar, parsed) = toml.from_str-to_string m text t in
      rw
        (
          from_utf8-encode manifest_name manifest_name-IsText,
          text_eq_refl manifest_name,
          from_utf8-encode text scalar,
          parsed,
          (==_iff m.version format_version).1 v,
          c,
        )
        refl

  -- Given what tar and toml promise: a bundle of a manifest of this version and of entries whose
  -- paths are valid is written without an error, and reading it with a check that accepts the
  -- manifest visits exactly these entries, in order, up to the first error of a visit, and where
  -- none fails returns the manifest.
  pub read_bundle-write_bundle :
      {S : Type 0} (toml : IsToml F) (pre_check : Manifest → Outcome (Error T F SE) (Unit {0}))
      (visit : BundleEntry → Exec S (Error T F SE) (Unit {0})) (m : Manifest) (text : Text)
      (es : List BundleEntry) (s : S)
      → m.version ≡ format_version
      → F.to_string m ≡ inr text
      → pre_check m ≡ ok tt
      → All IsSound es
      → ((write_bundle T F SE m (map ok es) T.new).0 ≡ ok tt)
        × (read_bundle T F SE visit pre_check
              (T.into_inner (write_bundle T F SE m (map ok es) T.new).1)
              s
            ≡ (visit_all visit es >>= λ done. pure m) s)
  unfolding read_bundle
  read_bundle-write_bundle toml pre_check visit m text es s v t c h =
      let (done, members) = write_bundle_lem m text es t h in
      (
        done,
        rw
            (
              members,
              read_manifest_lem toml pre_check visit m text s v t c,
              read_entries_lem visit es s h,
            )
            refl,
      )
