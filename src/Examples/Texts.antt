-- ===== src/Examples/Texts.antt =====
-- The audit, entries and slugs at concrete inputs.
use bypass.Prelude.{◌≡◌, ◌≢◌, ◌↔◌, ◌⊎◌, refl, false, none, some, [], ◌∷◌, map, All, ok}
use bypass.Text
use bypass.Text.{Text, codes, to_ascii_lowercase}
use bypass.RelPath.{RelPath, new}
use bypass.Audit.{check_file, is_editor_backup}
use bypass.Audit.Publishable.{check_file-none_iff, HasSuffix, IsCiphertext, IsMetadata}
use bypass.Entry.{Entry, parse_str}
use bypass.Entry.RoundTrip.{body, IsField, parse_str-body}
use bypass.Import
use bypass.Import.{slug_path, slug_segments}
use bypass.Import.Slug.{IsNoDots, new-slug_path_iff}

check_file-none_iff_example : (check_file some (codes "bank.gpg") (0xc1 ∷ []) ≡ none) ↔ (
    (is_editor_backup (codes "bank.gpg") ≡ false)
    × ((HasSuffix (codes "bank.gpg") (codes ".gpg") × IsCiphertext (0xc1 ∷ []))
        ⊎ ((¬ (HasSuffix (codes "bank.gpg") (codes ".gpg"))) × IsMetadata (codes "bank.gpg"))))
check_file-none_iff_example = check_file-none_iff some (codes "bank.gpg") (0xc1 ∷ [])

abbrev lower : Text → Text
lower = map to_ascii_lowercase

abbrev bank : Entry
bank = record { password = codes "hunter2"; fields = (codes "login", codes "alice") ∷ [] }

IsField-login : IsField lower (codes "login", codes "alice")
unfolding Text.contains Text.trim Text.is_whitespace
IsField-login = record {
  key_line = (refl, refl);
  value_line = (refl, refl);
  key_nonempty = λ e. cc;
  key_trimmed = refl;
  value_trimmed = refl;
  key_lower = refl;
  no_colon = refl;
}

parse_str-body_example : parse_str lower (body bank) ≡ bank
unfolding Text.contains
parse_str-body_example = parse_str-body lower bank (refl, refl) (IsField-login, tt)

abbrev my_bank : RelPath
my_bank = record { as_str = codes "web/my-bank" }

segments_left : slug_segments (codes "Web//My  Bank!") ≡ codes "web" ∷ codes "my-bank" ∷ []
unfolding slug_segments Import.slug_char Import.collapse Text.split Text.nonempty Text.is_whitespace
segments_left = refl

some_left : slug_segments (codes "Web//My  Bank!") ≢ []
some_left e = cc segments_left

new-slug_path_iff_example : (new (slug_path (codes "Web//My  Bank!")) ≡ ok my_bank) ↔ (
    (my_bank.as_str ≡ slug_path (codes "Web//My  Bank!"))
    × All IsNoDots (slug_segments (codes "Web//My  Bank!")))
new-slug_path_iff_example = new-slug_path_iff (codes "Web//My  Bank!") my_bank some_left
