-- ===== src/GpgId/Parse.antt =====
-- The lines of a `.gpg-id` file: what `parse_gpg_id` keeps, and that it reads back what
-- `Store::init` writes.
use bypass.Prelude.{
  ◌≡◌, ◌≢◌, refl, ap, ◌∙◌, inl, inr, true, false, List, [], ◌∷◌, ◌++◌, ◌||◌, arith, Bool-cases,
  Option-cases, Outcome, ok, err, ok_or, >>=-eq-ok, map, All, All-append, is_empty, if◌then◌else◌,
}
use bypass.Text.{Text, Bytes, contains, lines, lines_of, split, trim, strip_cr, strip_suffix}
use bypass.Text.Utf8.{encode, from_utf8, from_utf8-encode, is_scalar}
use bypass.Text.Split.{split-append, split_none, split-ne-nil}
use bypass.Text.Affix.{strip_suffix_parts}
use bypass.Text.Laws.{contains-append}
use bypass.Crypto.{KeyId}
use bypass.GpgId.{GpgIdError, empty, not_utf8, parse_gpg_id, is_recipient, filter_by, key_id}

-- One recipient to a line, as `Store::init` writes them.
abbrev pub gpg_id_body : List KeyId → Text
gpg_id_body [] = []
gpg_id_body (r ∷ rs) = r.as_str ++ (b'\n' ∷ gpg_id_body rs)

-- A name that stands on a line of its own unchanged: no newline in it, no space around it, not
-- empty and no comment.
pub record IsPlainLine (r : KeyId) : Type 0 where
  pub one_line : contains b'\n' r.as_str ≡ false
  pub no_cr : contains b'\r' r.as_str ≡ false
  pub trimmed : trim r.as_str ≡ r.as_str
  pub kept : is_recipient r.as_str ≡ true
  pub scalar : All (λ c. is_scalar c ≡ true) r.as_str

pub strip_cr_none : (s : Text) → contains b'\r' s ≡ false → strip_cr s ≡ s
unfolding strip_cr
strip_cr_none s h = elim (Option-cases (strip_suffix s (b'\r' ∷ []))) [
  | inl e ↦ rw e
  | inr (t, e) ↦
      let parts = strip_suffix_parts s (b'\r' ∷ []) t e in
      absurd (cr_last t (rw (parts, contains-append b'\r' t (b'\r' ∷ [])) at h))
]
  where
    cr_last : (t : Text) → (contains b'\r' t || contains b'\r' (b'\r' ∷ [])) ≡ false → ⊥
    cr_last t k = unfold contains in ground arith

lines_of-cons : (x : Text) (xs : List Text) → xs ≢ [] → lines_of (x ∷ xs) ≡ strip_cr x ∷ lines_of xs
unfolding lines_of
lines_of-cons x [] h = absurd (h refl)
lines_of-cons x (y ∷ r) h = refl

lines-gpg_id_body :
    (rs : List KeyId) → All IsPlainLine rs → lines (gpg_id_body rs) ≡ map (λ r. r.as_str) rs
unfolding lines
lines-gpg_id_body [] h = unfold split lines_of in refl
lines-gpg_id_body (r ∷ rs) (p, h) =
    ap lines_of {y = r.as_str ∷ split b'\n' (gpg_id_body rs)}
      (split-append b'\n' r.as_str (gpg_id_body rs) ∙ rw (split_none b'\n' r.as_str p.one_line))
    ∙ lines_of-cons r.as_str (split b'\n' (gpg_id_body rs)) (split-ne-nil b'\n' (gpg_id_body rs))
    ∙ rw (strip_cr_none r.as_str p.no_cr) (ap (◌∷◌ r.as_str) (lines-gpg_id_body rs h))

keeps_All :
    (rs : List KeyId)
    → All IsPlainLine rs
    → map key_id (filter_by is_recipient (map trim (map (λ r. r.as_str) rs))) ≡ rs
keeps_All [] h = refl
keeps_All (r ∷ rs) (p, h) = rw (p.trimmed, p.kept) (ap (◌∷◌ r) (keeps_All rs h))

gpg_id_body-scalar :
    (rs : List KeyId) → All IsPlainLine rs → All (λ c. is_scalar c ≡ true) (gpg_id_body rs)
gpg_id_body-scalar [] h = tt
gpg_id_body-scalar (r ∷ rs) (p, h) =
    All-append (λ c. is_scalar c ≡ true) r.as_str (b'\n' ∷ gpg_id_body rs) p.scalar
      (refl, gpg_id_body-scalar rs h)

-- The recipients that `init` writes, one plain line each and at least one, are the recipients that
-- `parse_gpg_id` reads.
pub parse_gpg_id-gpg_id_body :
    {E : Type 0} (r : KeyId) (rs : List KeyId)
    → All IsPlainLine (r ∷ rs)
    → parse_gpg_id {E = E} (encode (gpg_id_body (r ∷ rs))) ≡ ok (r ∷ rs)
unfolding parse_gpg_id
parse_gpg_id-gpg_id_body r rs h = rw (
  from_utf8-encode (gpg_id_body (r ∷ rs)) (gpg_id_body-scalar (r ∷ rs) h),
  lines-gpg_id_body (r ∷ rs) h,
  keeps_All (r ∷ rs) h,
)

filter_by-kept :
    (xs : List Text)
    → All (λ r. is_recipient r.as_str ≡ true) (map key_id (filter_by is_recipient xs))
filter_by-kept [] = tt
filter_by-kept (x ∷ xs) = elim (Bool-cases (is_recipient x)) [
  | inl e ↦ rw e (e, filter_by-kept xs)
  | inr e ↦ rw e (filter_by-kept xs)
]

kept_list :
    {E : Type 0} (found rs : List KeyId)
    → ◌≡◌ {A = Outcome (GpgIdError E) (List KeyId)}
        (if is_empty found then err empty else ok found)
        (ok rs)
    → (rs ≢ []) × (found ≡ rs)
kept_list [] rs h = cc
kept_list (r ∷ found) rs h = ground arith

-- What `parse_gpg_id` returns is not empty, and none of it is blank or a comment.
pub parse_gpg_id-kept :
    {E : Type 0} (bytes : Bytes) (rs : List KeyId)
    → parse_gpg_id {E = E} bytes ≡ ok rs
    → (rs ≢ []) × All (λ r. is_recipient r.as_str ≡ true) rs
unfolding parse_gpg_id
parse_gpg_id-kept {E} bytes rs h =
    let (text, decoded, kept) = >>=-eq-ok (ok_or (from_utf8 bytes) not_utf8) _ h in
    let found = map key_id (filter_by is_recipient (map trim (lines text))) in
    let (nonempty, same) = kept_list {E = E} found rs kept in
    (nonempty, rw same at (filter_by-kept (map trim (lines text))))
