-- ===== src/GpgId/Nearest.antt =====
-- The loop finds the nearest `.gpg-id` file, against a description by the segments of the path.
use mathlib.Core.List.{append_assoc, append-nil}
use bypass.Prelude.{
  ℕ, zero, suc, ◌≤◌, ◌<◌, ◌≡◌, ◌≢◌, refl, ap, ◌∙◌, inl, inr, Option, none, some, List, [], ◌∷◌,
  ◌++◌, arith, Option-cases, Outcome, ok, err, length, length-append,
}
use bypass.Text
use bypass.Text.{Text, Bytes, codes, contains, split, is_some}
use bypass.RelPath
use bypass.RelPath.{RelPath, parent, segments, IsSegment, IsValid, file_name}
use bypass.RelPath.Walk.{parent_parts, parent-IsValid, split-child, join_iff}
use bypass.Text.Split.{split_none, split-ne-nil, join-split, rsplit_once_eq_none}
use mathlib.Core.Option
use bypass.Crypto.{KeyId}
use bypass.Storage.{Storage, IsBlobMap}
use bypass.GpgId.{GpgIdError, missing, parse_gpg_id, gpg_id_path, resolve_from, resolve_recipients}

-- The directories above a path of these segments, the nearest first; `dir` lies above all of them.
abbrev pub ancestors : List Text → List Text → List (List Text)
ancestors dir [] = []
ancestors dir (x ∷ xs) = ancestors (dir ++ x ∷ []) xs ++ dir ∷ []

abbrev pub gpg_id_in : List Text → RelPath
gpg_id_in dir = record { as_str = Text.join (codes "/") (dir ++ codes ".gpg-id" ∷ []) }

-- The first blob that is there.
abbrev pub first_blob : (RelPath → Option Bytes) → List (List Text) → Option Bytes
first_blob blob [] = none
first_blob blob (dir ∷ dirs) = elim (blob (gpg_id_in dir)) [
  | none ↦ first_blob blob dirs
  | some bytes ↦ some bytes
]

abbrev pub recipients_in : {E : Type 0} → Option Bytes → Outcome (GpgIdError E) (List KeyId)
recipients_in none = err missing
recipients_in (some bytes) = parse_gpg_id bytes

ancestors-concat :
    (dir xs : List Text) (x : Text) → ancestors dir (xs ++ x ∷ []) ≡ (dir ++ xs) ∷ ancestors dir xs
ancestors-concat dir [] x = rw append-nil
ancestors-concat dir (y ∷ xs) x =
    ap (λ (l : List (List Text)). l ++ dir ∷ []) (ancestors-concat (dir ++ y ∷ []) xs x)
    ∙ rw append_assoc

pub join-concat :
    (xs : List Text) (x : Text)
    → xs ≢ []
    → Text.join (codes "/") (xs ++ x ∷ []) ≡ Text.join (codes "/") xs ++ (b'/' ∷ x)
unfolding Text.join
join-concat [] x h = absurd (h refl)
join-concat (y ∷ []) x h = refl
join-concat (y ∷ (z ∷ r)) x h = rw (join-concat (z ∷ r) x (λ e. cc)) (rw append_assoc)

segments-parent : (p q : RelPath) → parent p ≡ some q → segments p ≡ segments q ++ file_name p ∷ []
unfolding segments
segments-parent p q e =
    let (parts, no_slash) = parent_parts p q e in
    ap (split b'/') parts ∙ split-child q.as_str (file_name p) no_slash

pub segments_top : (p : RelPath) → parent p ≡ none → segments p ≡ p.as_str ∷ []
unfolding segments parent
segments_top p e =
    split_none b'/' p.as_str (rsplit_once_eq_none b'/' p.as_str ((Option.map-eq-none_iff _ _).0 e))

length-parent : (p q : RelPath) → parent p ≡ some q → length q.as_str < length p.as_str
length-parent p q e =
    let (parts, no_slash) = parent_parts p q e in
    omega (arith, ap length parts, length-append q.as_str (b'/' ∷ file_name p))

IsSegment-gpg_id : IsSegment (codes ".gpg-id")
unfolding contains
IsSegment-gpg_id = record {
  nonempty = λ e. cc;
  not_dot = λ e. cc;
  not_dotdot = λ e. cc;
  no_nul = refl;
  no_backslash = refl;
}

gpg_id_path_top : {E : Type 0} → gpg_id_path {E = E} none ≡ ok (gpg_id_in [])
unfolding gpg_id_path RelPath.new contains Text.split Text.starts_with Text.ends_with Text.join
gpg_id_path_top = refl

gpg_id_path_below :
    {E : Type 0} (q : RelPath)
    → IsValid q
    → gpg_id_path {E = E} (some q) ≡ ok (gpg_id_in (segments q))
unfolding gpg_id_path segments
gpg_id_path_below q valid =
    let same =
      join-concat (split b'/' q.as_str) (codes ".gpg-id") (split-ne-nil b'/' q.as_str)
      ∙ ap (λ (t : Text). t ++ (b'/' ∷ codes ".gpg-id")) (join-split b'/' q.as_str) in
    rw (
      (join_iff q (codes ".gpg-id") (gpg_id_in (split b'/' q.as_str)) valid).1
        (same, IsSegment-gpg_id, unfold contains in refl))

-- One round of the loop, on a storage without I/O errors.
abbrev or_above :
    {E : Type 0}
    → Option Bytes
    → Outcome (GpgIdError E) (List KeyId)
    → Outcome (GpgIdError E) (List KeyId)
or_above none above = above
or_above (some bytes) above = parse_gpg_id bytes

or_above_first :
    {E : Type 0} (blob : RelPath → Option Bytes) (dir : List Text) (dirs : List (List Text))
    → or_above {E = E} (blob (gpg_id_in dir)) (recipients_in (first_blob blob dirs))
      ≡ recipients_in (first_blob blob (dir ∷ dirs))
or_above_first blob dir dirs = ground arith

module _ {𝓢 : Storage} (laws : IsBlobMap 𝓢) (s : 𝓢.State) (healthy : laws.Healthy s) where
  open laws use {blob, read_lem}

  round_top :
      (fuel : ℕ) → resolve_from 𝓢 s (suc fuel) none ≡ or_above (blob s (gpg_id_in [])) (err missing)
  unfolding resolve_from
  round_top fuel = elim (Option-cases (blob s (gpg_id_in []))) [
    | inl e ↦ rw (gpg_id_path_top, read_lem s (gpg_id_in []) healthy, e)
    | inr (bytes, e) ↦ rw (gpg_id_path_top, read_lem s (gpg_id_in []) healthy, e)
  ]

  round_below :
      (fuel : ℕ) (q : RelPath)
      → IsValid q
      → resolve_from 𝓢 s (suc fuel) (some q)
        ≡ or_above (blob s (gpg_id_in (segments q))) (resolve_from 𝓢 s fuel (parent q))
  unfolding resolve_from
  round_below fuel q valid = elim (Option-cases (blob s (gpg_id_in (segments q)))) [
    | inl e ↦ rw (gpg_id_path_below q valid, read_lem s (gpg_id_in (segments q)) healthy, e)
    | inr (bytes, e) ↦
        rw (gpg_id_path_below q valid, read_lem s (gpg_id_in (segments q)) healthy, e)
  ]

  resolve_from-eq :
      (fuel : ℕ) (p : RelPath)
      → IsValid p
      → length p.as_str ≤ fuel
      → resolve_from 𝓢 s (suc fuel) (parent p)
        ≡ recipients_in (first_blob (blob s) (ancestors [] (segments p)))
  resolve_from-eq zero p valid enough = elim (Option-cases (parent p)) [
    | inl e ↦ rw (e, segments_top p e) (round_top zero ∙ or_above_first (blob s) [] [])
    | inr (q, e) ↦ absurd (omega (arith, length-parent p q e))
  ]
  resolve_from-eq (suc fuel) p valid enough = elim (Option-cases (parent p)) [
    | inl e ↦ rw (e, segments_top p e) (round_top (suc fuel) ∙ or_above_first (blob s) [] [])
    | inr (q, e) ↦
        let valid_q = parent-IsValid p q valid e in
        let above = resolve_from-eq fuel q valid_q (omega (arith, length-parent p q e)) in
        rw (e, segments-parent p q e, ancestors-concat [] (segments q) (file_name p))
          (round_below (suc fuel) q valid_q
            ∙ ap (or_above (blob s (gpg_id_in (segments q)))) above
            ∙ or_above_first (blob s) (segments q) (ancestors [] (segments q)))
  ]

  -- For a valid entry on a storage without I/O errors, the loop of `resolve_recipients` ends, and
  -- its result is that of parsing the first `.gpg-id` file on the way from the entry's directory
  -- up to the store's root, or `Missing` if none of these directories has one.
  pub resolve_recipients_nearest :
      (entry : RelPath)
      → IsValid entry
      → resolve_recipients 𝓢 s entry
        ≡ recipients_in (first_blob (blob s) (ancestors [] (segments entry)))
  unfolding resolve_recipients
  resolve_recipients_nearest entry valid =
      resolve_from-eq (length entry.as_str) entry valid (omega arith)
