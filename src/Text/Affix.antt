-- ===== src/Text/Affix.antt =====
-- Prefixes and suffixes of texts.
use mathlib.Core.Option
use bypass.Prelude.{
  ℕ, ◌≡◌, ◌≢◌, refl, ap, inl, inr, true, some, [], ◌∷◌, ◌++◌, arith, ==_refl, Bool-cases,
  Option-cases, ◌↔◌, length, length-append,
}
use bypass.Text.{Text, contains_text, text_eq, strip_prefix, strip_suffix, starts_with, ends_with}
use bypass.Text.Laws.{text_eq_iff, text_eq_refl, text_eq-false}

pub strip_prefix-append : (p s : Text) → strip_prefix (p ++ s) p ≡ some s
unfolding strip_prefix
strip_prefix-append [] s = refl
strip_prefix-append (c ∷ p) s = rw (==_refl c) (strip_prefix-append p s)

pub strip_prefix_parts : (s p t : Text) → strip_prefix s p ≡ some t → s ≡ p ++ t
unfolding strip_prefix
strip_prefix_parts s [] t h = ground arith
strip_prefix_parts [] (c ∷ p) t h = cc
strip_prefix_parts (d ∷ s) (c ∷ p) t h = ground (arith, strip_prefix_parts s p t)

longer-ne : (c : ℕ) (s t : Text) → (c ∷ s) ++ t ≢ t
longer-ne c s t e = omega (arith, ap length e, length-append {0} s t)

-- A suffix comes off again.
pub strip_suffix-append : (s t : Text) → strip_suffix (s ++ t) t ≡ some s
unfolding strip_suffix
strip_suffix-append [] [] = refl
strip_suffix-append [] (c ∷ t) = rw (text_eq_refl (c ∷ t))
strip_suffix-append (c ∷ s) t =
    rw (text_eq-false ((c ∷ s) ++ t) t (longer-ne c s t), strip_suffix-append s t)

pub strip_suffix_parts : (s t r : Text) → strip_suffix s t ≡ some r → s ≡ r ++ t
unfolding strip_suffix
strip_suffix_parts [] t r h = ground (arith, text_eq_iff [] t)
strip_suffix_parts (c ∷ s) t r h = elim (Bool-cases (text_eq (c ∷ s) t)) [
  | inl e ↦ ground (arith, text_eq_iff (c ∷ s) t)
  | inr e ↦
      let (q, found, same) = (Option.map-eq-some_iff _ _).0 (rw e at h) in
      rw (← same) (ap (◌∷◌ c) (strip_suffix_parts s t q found))
]

starts_with-append : (p s : Text) → starts_with (p ++ s) p ≡ true
unfolding starts_with
starts_with-append p s = ground (arith, strip_prefix-append p s)

starts_with_parts : (s p : Text) → starts_with s p ≡ true → (b : Text) × (s ≡ p ++ b)
unfolding starts_with
starts_with_parts s p h = elim (Option-cases (strip_prefix s p)) [
  | inl e ↦ cc
  | inr (b, e) ↦ (b, strip_prefix_parts s p b e)
]

contains_text-starts : (s p : Text) → starts_with s p ≡ true → contains_text s p ≡ true
unfolding contains_text
contains_text-starts [] p h = h
contains_text-starts (c ∷ s) p h = rw h

contains_text-append : (a p b : Text) → contains_text (a ++ (p ++ b)) p ≡ true
unfolding contains_text
contains_text-append [] p b = contains_text-starts (p ++ b) p (starts_with-append p b)
contains_text-append (c ∷ a) p b = ground (arith, contains_text-append a p b)

contains_text_parts :
    (s p : Text) → contains_text s p ≡ true → (a : Text) × (b : Text) × (s ≡ a ++ (p ++ b))
unfolding contains_text
contains_text_parts [] p h = let (b, e) = starts_with_parts [] p h in ([], b, e)
contains_text_parts (c ∷ s) p h = elim (Bool-cases (starts_with (c ∷ s) p)) [
  | inl e ↦ let (b, f) = starts_with_parts (c ∷ s) p e in ([], b, f)
  | inr e ↦ let (a, b, f) = contains_text_parts s p (ground arith) in (c ∷ a, b, ap (◌∷◌ c) f)
]

-- `contains_text` finds a pattern exactly where one stands.
pub contains_text_iff :
    (s p : Text) → (contains_text s p ≡ true) ↔ ((a : Text) × (b : Text) × (s ≡ a ++ (p ++ b)))
contains_text_iff s p = (contains_text_parts s p, λ h. rw h.2 (contains_text-append h.0 p h.1))

pub starts_with_iff : (s p : Text) → (starts_with s p ≡ true) ↔ ((t : Text) × (s ≡ p ++ t))
unfolding starts_with
starts_with_iff s p = (
  λ h. elim (Option-cases (strip_prefix s p)) [
    | inl e ↦ cc (rw e at h)
    | inr (t, e) ↦ (t, strip_prefix_parts s p t e)
  ],
  λ h. rw h.1 (rw (strip_prefix-append p h.0)),
)

pub ends_with_iff : (s p : Text) → (ends_with s p ≡ true) ↔ ((t : Text) × (s ≡ t ++ p))
unfolding ends_with
ends_with_iff s p = (
  λ h. elim (Option-cases (strip_suffix s p)) [
    | inl e ↦ cc (rw e at h)
    | inr (t, e) ↦ (t, strip_suffix_parts s p t e)
  ],
  λ h. rw h.1 (rw (strip_suffix-append h.0 p)),
)
