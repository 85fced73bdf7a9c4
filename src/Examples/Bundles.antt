-- ===== src/Examples/Bundles.antt =====
-- Bundles at concrete inputs: an archive that is a list of members, and a format of manifests in
-- unary numbers.
use mathlib.Core.Int.{ℤ, pos, negsuc}
use mathlib.Core.Nat
use bypass.Prelude.{
  ℕ, zero, suc, ◌≡◌, refl, ap, arith, true, ◌⊎◌, inl, inr, List, [], ◌∷◌, ◌++◌, ok, map, All,
  All-append, ◌==◌, if◌then◌else◌,
}
use bypass.Exec.{Exec}
use bypass.Text.{Text, Bytes, codes}
use bypass.Text.Utf8.{is_scalar}
use bypass.Bundle.{Tar, Toml, Manifest, BundleEntry, Error, no_pre_check, write_bundle, read_bundle}
use bypass.Bundle.RoundTrip.{IsTar, IsToml, IsText, IsSound, member_at, read_bundle-write_bundle}
use bypass.Bundle.Guard.{read_bundle_visits}
use bypass.RelPath.{RelPath, IsValid}
use bypass.Examples.Paths.{mail, mail-IsValid}

abbrev pub list_tar : Tar
list_tar = record {
  Error = Unit {0};
  Builder = List (Text × Bytes);
  new = [];
  append_data = λ b name bytes. (inr tt, b ++ (name, bytes) ∷ []);
  finish = λ b. (inr tt, b);
  Archive = List (Text × Bytes);
  into_inner = λ b. b;
  members = λ archive. inr (map member_at archive);
}

pub list_tar-IsTar : IsTar list_tar
list_tar-IsTar = record {
  content = λ b. b;
  content-new = refl;
  append_data_lem = λ b p bytes valid. (refl, refl);
  finish_lem = λ b. (refl, refl);
}

pub replicate_a : ℕ → Text
replicate_a zero = []
replicate_a (suc n) = b'a' ∷ replicate_a n

-- The number of characters before the first `b`, and what follows it.
pub unary : Text → ℕ × Text
unary [] = (0, [])
unary (c ∷ s) = if c == b'b' then (0, s) else (suc (unary s).0, (unary s).1)

unary-replicate_a : (n : ℕ) (rest : Text) → unary (replicate_a n ++ b'b' ∷ rest) ≡ (n, rest)
unfolding unary replicate_a
unary-replicate_a zero rest = refl
unary-replicate_a (suc n) rest = rw (unary-replicate_a n rest)

replicate_a-IsText : (n : ℕ) → IsText (replicate_a n)
unfolding replicate_a
replicate_a-IsText zero = tt
replicate_a-IsText (suc n) = (refl, replicate_a-IsText n)

abbrev pub plain_manifest : ℕ → ℕ → Manifest
plain_manifest v n = record {
  version = v;
  created_at_unix = pos Nat.zero;
  original_recipients = [];
  entries = n;
}

abbrev pub manifest_text : ℕ → ℕ → Text
manifest_text v n = replicate_a v ++ b'b' ∷ (replicate_a n ++ b'b' ∷ [])

-- Only manifests of the time 0 and without recipients can be written.
abbrev pub text_of : ℕ → ℕ → ℤ → List Text → (Unit {0}) ⊎ Text
text_of v n (pos Nat.zero) [] = inr (manifest_text v n)
text_of v n _ _ = inl tt

abbrev pub unary_toml : Toml
unary_toml = record {
  SerError = Unit {0};
  DeError = Unit {0};
  to_string = λ m. text_of m.version m.entries m.created_at_unix m.original_recipients;
  from_str = λ s. inr (plain_manifest (unary s).0 (unary (unary s).1).0);
}

manifest_text-IsText : (v n : ℕ) → IsText (manifest_text v n)
manifest_text-IsText v n =
    All-append (λ c. is_scalar c ≡ true) (replicate_a v) _ (replicate_a-IsText v)
      (
        refl,
        All-append (λ c. is_scalar c ≡ true) (replicate_a n) _ (replicate_a-IsText n) (refl, tt),
      )

unary-manifest_text :
    (v n : ℕ)
    → plain_manifest (unary (manifest_text v n)).0 (unary (unary (manifest_text v n)).1).0
      ≡ plain_manifest v n
unary-manifest_text v n = rw (unary-replicate_a v, unary-replicate_a n)

text_of_lem :
    (v n : ℕ) (created : ℤ) (recipients : List Text) (text : Text)
    → text_of v n created recipients ≡ inr text
    → IsText text
      × (unary_toml.from_str text
          ≡ inr (record {
            version = v;
            created_at_unix = created;
            original_recipients = recipients;
            entries = n;
          }))
text_of_lem v n (pos Nat.zero) [] text e =
    let same : manifest_text v n ≡ text = ground arith in
    rw (← same) (manifest_text-IsText v n, ap inr (unary-manifest_text v n))
text_of_lem v n (pos Nat.zero) (r ∷ rs) text e = cc
text_of_lem v n (pos (Nat.suc k)) rs text e = cc
text_of_lem v n (negsuc k) rs text e = cc

unary_toml-IsToml : IsToml unary_toml
unary_toml-IsToml = record {
  from_str-to_string =
      λ m text e. text_of_lem m.version m.entries m.created_at_unix m.original_recipients text e;
}

abbrev mail_entry : BundleEntry
mail_entry = record { path = mail; plaintext = codes "secret" }

abbrev keep : BundleEntry → Exec (List RelPath) (Error list_tar unary_toml ⊥) (Unit {0})
keep e s = (ok tt, e.path ∷ s)

abbrev two_entries : List BundleEntry
two_entries = mail_entry ∷ mail_entry ∷ []

mail-IsSound : IsSound mail_entry
mail-IsSound = record { valid = mail-IsValid; text = (refl, (refl, (refl, (refl, tt)))) }

abbrev written : List (Text × Bytes)
written = (write_bundle list_tar unary_toml ⊥ (plain_manifest 1 2) (map ok two_entries) []).1

read_bundle-write_bundle_example :
    ((write_bundle list_tar unary_toml ⊥ (plain_manifest 1 2) (map ok two_entries) []).0 ≡ ok tt)
    × (read_bundle list_tar unary_toml ⊥ keep (no_pre_check list_tar unary_toml ⊥) written []
        ≡ (ok (plain_manifest 1 2), mail ∷ mail ∷ []))
read_bundle-write_bundle_example =
    read_bundle-write_bundle list_tar unary_toml ⊥ list_tar-IsTar unary_toml-IsToml
      (no_pre_check list_tar unary_toml ⊥) keep (plain_manifest 1 2) (manifest_text 1 2) two_entries
      [] refl refl refl (mail-IsSound, (mail-IsSound, tt))

-- An archive whose second member would land outside the store.
abbrev escaping : List (Text × Bytes)
escaping =
    (codes "manifest.toml", manifest_text 1 1)
    ∷ (codes "entries/mail", [])
    ∷ (codes "entries/../mail", [])
    ∷ []

read_bundle_visits_example :
    All IsValid
      (read_bundle list_tar unary_toml ⊥ keep (no_pre_check list_tar unary_toml ⊥) escaping []).1
read_bundle_visits_example =
    read_bundle_visits list_tar unary_toml keep (All IsValid) (no_pre_check list_tar unary_toml ⊥)
      escaping [] (λ m version passed e t valid held. (valid, held)) tt
