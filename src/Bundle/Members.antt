-- ===== src/Bundle/Members.antt =====
-- An archive is read by its members alone, so that who reads it may have another source of errors
-- than who wrote it.
use bypass.Prelude.{◌≡◌, ◌∙◌, refl, sym, inr, List, map, ok, All}
use bypass.Exec.{Exec, pure, ◌>>=◌}
use bypass.Text.{Text}
use bypass.Bundle.{
  Tar, Toml, Manifest, BundleEntry, Error, format_version, no_pre_check, read_bundle, write_bundle,
}
use bypass.Bundle.RoundTrip.{
  IsTar, IsToml, IsSound, visit_all, write_bundle_lem, read_bundle-write_bundle,
}

module _ (T : Tar) (F : Toml) where
  read_bundle-ext :
      {SE S : Type 0} (visit : BundleEntry → Exec S (Error T F SE) (Unit {0})) (a b : T.Archive)
      (s : S)
      → T.members a ≡ T.members b
      → read_bundle T F SE visit (no_pre_check T F SE) a s
        ≡ read_bundle T F SE visit (no_pre_check T F SE) b s
  unfolding read_bundle
  read_bundle-ext visit a b s same = rw same refl

  pub read_bundle_across :
      {SE RE S : Type 0} (tar : IsTar T) (toml : IsToml F)
      (visit : BundleEntry → Exec S (Error T F RE) (Unit {0})) (m : Manifest) (text : Text)
      (es : List BundleEntry) (s : S)
      → m.version ≡ format_version
      → F.to_string m ≡ inr text
      → All IsSound es
      → ((write_bundle T F SE m (map ok es) T.new).0 ≡ ok tt)
        × (read_bundle T F RE visit
              (no_pre_check T F RE)
              (T.into_inner (write_bundle T F SE m (map ok es) T.new).1)
              s
            ≡ (visit_all visit es >>= λ done. pure m) s)
  read_bundle_across {SE} {RE} tar toml visit m text es s version rendered sound =
      let (done, members) = write_bundle_lem T F SE tar m text es rendered sound in
      let (done_re, members_re) = write_bundle_lem T F RE tar m text es rendered sound in
      let read =
        read_bundle-write_bundle T F RE tar toml (no_pre_check T F RE) visit m text es s version
          rendered refl sound in
      (done, read_bundle-ext visit _ _ s (members ∙ sym members_re) ∙ read.1)
