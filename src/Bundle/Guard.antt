-- ===== src/Bundle/Guard.antt =====
-- What `read_bundle` hands to its visitor, whatever the archive holds.
use bypass.Prelude.{
  ◌≡◌, refl, ◌∙◌, ◌⊎◌, inl, inr, List, [], ◌∷◌, Outcome, ok, err, abort, map_err, map_err-eq-ok,
  ok_or, Bool-cases, ◌==◌, ==_iff, arith,
}
use bypass.Exec.{Exec, pure, continue, continue_lem, continue-eq-ok}
use bypass.Text.{Text, text_eq, strip_prefix}
use bypass.Text.Utf8.{from_utf8}
use bypass.RelPath
use bypass.RelPath.{RelPath, PathError, IsValid}
use bypass.RelPath.Valid.{new_iff}
use bypass.Bundle.{
  Tar, Toml, Manifest, BundleEntry, Member, Error, format_version, member_name, read_entries,
  read_manifest, read_members, read_bundle, manifest_name, parse_manifest, check_manifest,
  non_utf8_manifest, invalid_entry_path, io_call, unexpected_member, entries_prefix, read_entry,
}

transport_to {ℓ} : {A : Type 0} (Q : A → Type ℓ) {a b : A} → a ≡ b → Q b → Q a
transport_to Q e q = rw e q

module _ (T : Tar) (F : Toml) {SE S : Type 0}
    (visit : BundleEntry → Exec S (Error T F SE) (Unit {0})) where
  member_name_state : (member : Member T.Error) (s : S) → (member_name T F SE member s).1 ≡ s
  unfolding member_name
  member_name_state member s =
      continue_lem (λ t. t ≡ s) _ (io_call T F SE member.path) s (λ _ _. refl) refl

  module _ {ℓ} (Q : S → Type ℓ)
      (keeps : (e : BundleEntry) (s : S) → IsValid e.path → Q s → Q (visit e s).1) where
    -- What stands behind the name of a member.
    read_entry_visits :
        (rest : Exec S (Error T F SE) (Unit {0})) (member : Member T.Error) (rel : Text) (s : S)
        → ((t : S) → Q t → Q (rest t).1)
        → Q s
        → Q (read_entry T F SE visit rest member rel s).1
    unfolding read_entry
    read_entry_visits rest member rel s goes q =
        continue_lem Q _ (map_err invalid_entry_path (RelPath.new rel)) s
          (λ path accepted.
            continue_lem Q _ (io_call T F SE member.read_to_end) s
              (λ buf _.
                let entry : BundleEntry = record { path = path; plaintext = buf } in
                let kept =
                  keeps entry s
                    ((new_iff rel path).0
                      (map_err-eq-ok invalid_entry_path (RelPath.new rel) accepted)).1
                    q in
                continue_lem Q _ (visit entry s).0 (visit entry s).1
                  (λ _ _. goes (visit entry s).1 kept) kept)
              q)
          q

    read_entries_visits :
        (items : List (T.Error ⊎ Member T.Error)) (s : S)
        → Q s
        → Q (read_entries T F SE visit items s).1
    unfolding read_entries
    read_entries_visits [] s q = q
    read_entries_visits (item ∷ items) s q =
        continue_lem Q _ (io_call T F SE item) s
          (λ member _.
            let named = transport_to Q (member_name_state member s) q in
            let t = (member_name T F SE member s).1 in
            continue_lem Q _ (member_name T F SE member s).0 t
              (λ name _.
                continue_lem Q _ (ok_or (strip_prefix name entries_prefix) (unexpected_member name))
                  t
                  (λ rel _.
                    read_entry_visits (read_entries T F SE visit items) member rel t
                      (λ u held. read_entries_visits items u held) named)
                  named)
              named)
          q

  parse_manifest_state :
      (first : Member T.Error) (s : S) → (parse_manifest T F SE visit first s).1 ≡ s
  unfolding parse_manifest
  parse_manifest_state first s =
      continue_lem (λ t. t ≡ s) _ (io_call T F SE first.read_to_end) s
        (λ buf _.
          continue_lem (λ t. t ≡ s) _ (ok_or (from_utf8 buf) non_utf8_manifest) s (λ _ _. refl)
            refl)
        refl

  -- The manifest that is accepted has this version, and the caller's check has let it pass; where
  -- it is refused, nothing has changed.
  check_manifest_lem :
      (pre_check : Manifest → Outcome (Error T F SE) (Unit {0})) (manifest : Manifest) (s : S)
      → ((check_manifest T F SE visit pre_check manifest s).1 ≡ s)
        × ((m : Manifest)
            → (check_manifest T F SE visit pre_check manifest s).0 ≡ ok m
            → (m.version ≡ format_version) × (pre_check m ≡ ok tt))
  unfolding check_manifest
  check_manifest_lem pre_check manifest s = elim (Bool-cases (manifest.version == format_version)) [
    | inr e ↦ rw e (refl, λ m returns. cc)
    | inl e ↦ rw e (
      continue_lem (λ t. t ≡ s) _ (pre_check manifest) s (λ _ _. refl) refl,
      λ m returns.
          let (u, passed, same) =
            continue-eq-ok (λ _. pure manifest) (pre_check manifest) s returns in
          let eq : manifest ≡ m = ground arith in
          (rw (← eq) ((==_iff manifest.version format_version).0 e), rw (← eq) passed),
    )
  ]

  -- The state at the end of a call, and what is known where it returns.
  abbrev Opens :
      (Manifest → Outcome (Error T F SE) (Unit {0}))
      → S
      → Outcome (Error T F SE) Manifest × S
      → Type 0
  Opens pre_check s r =
      (r.1 ≡ s)
      × ((m : Manifest) → r.0 ≡ ok m → (m.version ≡ format_version) × (pre_check m ≡ ok tt))

  Opens-continue :
      (pre_check : Manifest → Outcome (Error T F SE) (Unit {0})) {A : Type 0}
      (f : A → Exec S (Error T F SE) Manifest) (r : Outcome (Error T F SE) A) (s t : S)
      → t ≡ s
      → ((a : A) → Opens pre_check s (f a t))
      → Opens pre_check s (continue f r t)
  Opens-continue pre_check f (ok a) s t same goes = goes a
  Opens-continue pre_check f (err e) s t same goes = (same, λ m returns. cc)
  Opens-continue pre_check f abort s t same goes = (same, λ m returns. cc)

  read_manifest-Opens :
      (pre_check : Manifest → Outcome (Error T F SE) (Unit {0})) (item : T.Error ⊎ Member T.Error)
      (s : S)
      → Opens pre_check s (read_manifest T F SE visit pre_check item s)
  unfolding read_manifest
  read_manifest-Opens pre_check item s =
      Opens-continue pre_check _ (io_call T F SE item) s s refl (λ first.
        let t = (member_name T F SE {S = S} first s).1 in
        let named : t ≡ s = member_name_state first s in
        Opens-continue pre_check _ (member_name T F SE first s).0 s t named (λ name.
          elim (Bool-cases (text_eq name manifest_name)) [
            | inr e ↦ rw e (named, λ m returns. cc)
            | inl e ↦ rw e (
                Opens-continue pre_check _ (parse_manifest T F SE visit first t).0 s
                  (parse_manifest T F SE visit first t).1 (parse_manifest_state first t ∙ named)
                  (λ manifest.
                    rw (parse_manifest_state first t, named)
                      (check_manifest_lem pre_check manifest s)))
          ]))

  -- Whatever the archive holds: what every visit of an entry with a valid path keeps, given a
  -- manifest of this version that has passed the caller's check, holds at the end, on errors too.
  pub read_bundle_visits {ℓ} :
      (Q : S → Type ℓ) (pre_check : Manifest → Outcome (Error T F SE) (Unit {0}))
      (archive : T.Archive) (s : S)
      → ((m : Manifest)
          → m.version ≡ format_version
          → pre_check m ≡ ok tt
          → (e : BundleEntry) (t : S) → IsValid e.path
          → Q t
          → Q (visit e t).1)
      → Q s
      → Q (read_bundle T F SE visit pre_check archive s).1
  unfolding read_bundle
  read_bundle_visits Q pre_check archive s keeps q =
      continue_lem Q _ (io_call T F SE (T.members archive)) s (λ items _. members_visit items) q
    where
      members_visit :
          (items : List (T.Error ⊎ Member T.Error))
          → Q (read_members T F SE visit pre_check items s).1
      members_visit [] = q
      members_visit (first ∷ items) =
          let (same, accepts) = read_manifest-Opens pre_check first s in
          let t = (read_manifest T F SE visit pre_check first s).1 in
          let held : Q t = transport_to Q same q in
          continue_lem Q _ (read_manifest T F SE visit pre_check first s).0 t
            (λ m returns.
              let (version, passed) = accepts m returns in
              let visited = read_entries_visits Q (keeps m version passed) items t held in
              continue_lem Q _ (read_entries T F SE visit items t).0
                (read_entries T F SE visit items t).1 (λ _ _. visited) visited)
            held
