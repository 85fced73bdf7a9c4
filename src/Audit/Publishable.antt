-- ===== src/Audit/Publishable.antt =====
-- What `check_file` lets pass, described by the parts of the name and the head of the file, and what
-- an audit that finds nothing means (crates/bypass-cli/src/audit.rs).
use bypass.Prelude.{
  ℕ, ◌≡◌, ◌↔◌, ◌⊎◌, ◌≤◌, inl, inr, refl, true, false, Option, none, [], ◌∷◌, ◌++◌, arith, In,
  Bool-cases, ◌&&◌, leb,
}
use bypass.Text.{Text, Bytes, codes}
use bypass.Text.Laws.{text_eq_iff}
use bypass.Text.Affix.{starts_with_iff, ends_with_iff}
use bypass.Audit.{
  armour, looks_like_openpgp, is_allowlisted_metadata, is_editor_backup, or_blank, check_file,
}

abbrev pub HasPrefix : Text → Text → Type 0
HasPrefix s p = (t : Text) × (s ≡ p ++ t)

abbrev pub HasSuffix : Text → Text → Type 0
HasSuffix s p = (t : Text) × (s ≡ t ++ p)

-- The head of an OpenPGP message: a byte with its top bit set, or the armour's first line.
abbrev pub IsCiphertext : Bytes → Type 0
IsCiphertext head =
    ((b : ℕ) × (r : Bytes) × (head ≡ b ∷ r) × (0x80 ≤ b) × (b ≤ 0xff)) ⊎ HasPrefix head armour

-- A name of the store's own files.
abbrev pub IsMetadata : Text → Type 0
IsMetadata name =
    In name
      (codes ".gpg-id" ∷ codes ".gpg-id.sig" ∷ codes ".gitignore" ∷ codes ".gitattributes" ∷ [])
    ⊎ (HasPrefix name (codes "README") ⊎ HasPrefix name (codes "LICENSE"))

looks_like_openpgp_iff : (head : Bytes) → (looks_like_openpgp head ≡ true) ↔ IsCiphertext head
unfolding looks_like_openpgp
looks_like_openpgp_iff head = (to head, from head)
  where
    to : (h : Bytes) → looks_like_openpgp h ≡ true → IsCiphertext h
    to [] e = inr ((starts_with_iff [] armour).0 e)
    to (b ∷ r) e = elim (Bool-cases (leb 0x80 b && leb b 0xff)) [
      | inl k ↦ inl (b, r, refl, ground arith, ground arith)
      | inr k ↦ inr ((starts_with_iff (b ∷ r) armour).0 (rw k at e))
    ]

    from : (h : Bytes) → IsCiphertext h → looks_like_openpgp h ≡ true
    from h (inl (b, r, same, low, high)) = rw same (ground arith)
    from h (inr p) = ground (arith, (starts_with_iff h armour).1 p)

is_allowlisted_metadata_iff :
    (name : Text) → (is_allowlisted_metadata name ≡ true) ↔ IsMetadata name
unfolding is_allowlisted_metadata
is_allowlisted_metadata_iff name = ground (
  arith,
  text_eq_iff name (codes ".gpg-id"),
  text_eq_iff name (codes ".gpg-id.sig"),
  text_eq_iff name (codes ".gitignore"),
  text_eq_iff name (codes ".gitattributes"),
  starts_with_iff name (codes "README"),
  starts_with_iff name (codes "LICENSE"),
)

-- `check_file` passes a file exactly if its name is no editor backup, and it is either named
-- `.gpg` with a head that is ciphertext, or not named `.gpg` and one of the store's own files.
pub check_file-none_iff :
    {FilePath : Type 0} (file_name : FilePath → Option Text) (path : FilePath) (head : Bytes)
    → (check_file file_name path head ≡ none) ↔ (
        (is_editor_backup (or_blank (file_name path)) ≡ false)
        × ((HasSuffix (or_blank (file_name path)) (codes ".gpg") × IsCiphertext head)
            ⊎ ((¬ (HasSuffix (or_blank (file_name path)) (codes ".gpg")))
                × IsMetadata (or_blank (file_name path)))))
unfolding check_file
check_file-none_iff file_name path head = ground (
  arith,
  ends_with_iff (or_blank (file_name path)) (codes ".gpg"),
  looks_like_openpgp_iff head,
  is_allowlisted_metadata_iff (or_blank (file_name path)),
)
