-- ===== src/Text/Split.antt =====
-- Splitting at a separator and joining again.
use bypass.Prelude.{
  ℕ, ◌≡◌, ◌≢◌, refl, ap, ◌∙◌, inl, inr, false, none, some, List, [], ◌∷◌, ◌++◌, arith, ◌==◌,
  ==_refl, Bool-cases, Option-cases, All,
}
use bypass.Text.{Text, contains, split, join, push_head, rsplit_once}

pub push_head-append :
    (d : ℕ) (xs ys : List Text) → xs ≢ [] → push_head d (xs ++ ys) ≡ push_head d xs ++ ys
push_head-append d [] ys h = absurd (h refl)
push_head-append d (x ∷ xs) ys h = refl

pub push_head-ne-nil : (d : ℕ) (xs : List Text) → push_head d xs ≢ []
push_head-ne-nil d [] e = cc
push_head-ne-nil d (x ∷ xs) e = cc

pub split-ne-nil : (c : ℕ) (s : Text) → split c s ≢ []
unfolding split
split-ne-nil c [] e = cc
split-ne-nil c (d ∷ s) e = ground (arith, push_head-ne-nil d (split c s))

-- A separator ends the pieces of what stands before it.
pub split-append : (c : ℕ) (s t : Text) → split c (s ++ c ∷ t) ≡ split c s ++ split c t
unfolding split
split-append c [] t = rw (==_refl c)
split-append c (d ∷ s) t =
    ground (arith, split-append c s t, push_head-append d (split c s) (split c t), split-ne-nil c s)

pub split_none : (c : ℕ) (s : Text) → contains c s ≡ false → split c s ≡ s ∷ []
unfolding split contains
split_none c [] h = refl
split_none c (d ∷ s) h = ground (arith, split_none c s)

abbrev pub append_last : List Text → Text → List Text
append_last [] t = t ∷ []
append_last (x ∷ []) t = (x ++ t) ∷ []
append_last (x ∷ (y ∷ r)) t = x ∷ append_last (y ∷ r) t

push_head-append_last :
    (d : ℕ) (xs : List Text) (t : Text)
    → xs ≢ []
    → push_head d (append_last xs t) ≡ append_last (push_head d xs) t
push_head-append_last d [] t h = absurd (h refl)
push_head-append_last d (x ∷ []) t h = refl
push_head-append_last d (x ∷ (y ∷ r)) t h = refl

cons-append_last :
    (x : Text) (xs : List Text) (t : Text) → xs ≢ [] → x ∷ append_last xs t ≡ append_last (x ∷ xs) t
cons-append_last x [] t h = absurd (h refl)
cons-append_last x (y ∷ r) t h = refl

-- What holds no separator lengthens the last piece.
pub split-append_last :
    (c : ℕ) (s t : Text) → contains c t ≡ false → split c (s ++ t) ≡ append_last (split c s) t
unfolding split
split-append_last c [] t h = split_none c t h
split-append_last c (d ∷ s) t h = ground (
  arith,
  split-append_last c s t h,
  split-ne-nil c s,
  push_head-append_last d (split c s) t,
  cons-append_last [] (split c s) t,
)

join-cons :
    (sep : Text) (x : Text) (xs : List Text)
    → xs ≢ []
    → join sep (x ∷ xs) ≡ x ++ (sep ++ join sep xs)
unfolding join
join-cons sep x [] h = absurd (h refl)
join-cons sep x (y ∷ r) h = refl

join-push_head : (sep : Text) (d : ℕ) (xs : List Text) → join sep (push_head d xs) ≡ d ∷ join sep xs
unfolding join
join-push_head sep d [] = refl
join-push_head sep d (x ∷ []) = refl
join-push_head sep d (x ∷ (y ∷ r)) = refl

pub join-split : (c : ℕ) (s : Text) → join (c ∷ []) (split c s) ≡ s
unfolding split
join-split c [] = unfold join in refl
join-split c (d ∷ s) = elim (Bool-cases (d == c)) [
  | inl e ↦ rw e (
      join-cons (c ∷ []) [] (split c s) (split-ne-nil c s)
      ∙ ap (λ (t : Text). c ∷ t) (join-split c s)
      ∙ ground arith)
  | inr e ↦ rw e (join-push_head (c ∷ []) d (split c s) ∙ ap (◌∷◌ d) (join-split c s))
]

-- Pieces that hold no separator come back from their join.
pub split-join :
    (c : ℕ) (xs : List Text)
    → xs ≢ []
    → All (λ x. contains c x ≡ false) xs
    → split c (join (c ∷ []) xs) ≡ xs
unfolding join
split-join c [] h k = absurd (h refl)
split-join c (x ∷ []) h k = split_none c x k.0
split-join c (x ∷ (y ∷ r)) h k =
    split-append c x (join (c ∷ []) (y ∷ r))
    ∙ rw (split_none c x k.0) (ap (◌∷◌ x) (split-join c (y ∷ r) (λ e. cc) k.1))

All-push_head :
    (P : Text → Type 0) (d : ℕ) (xs : List Text)
    → ((x : Text) → P x → P (d ∷ x))
    → P (d ∷ [])
    → All P xs
    → All P (push_head d xs)
All-push_head P d [] f b h = (b, tt)
All-push_head P d (x ∷ xs) f b h = (f x h.0, h.1)

-- No piece holds the separator.
pub split-contains : (c : ℕ) (s : Text) → All (λ x. contains c x ≡ false) (split c s)
unfolding split contains
split-contains c [] = (refl, tt)
split-contains c (d ∷ s) = elim (Bool-cases (d == c)) [
  | inl e ↦ rw e (refl, split-contains c s)
  | inr e ↦ rw e (
      All-push_head (λ x. contains c x ≡ false) d (split c s) (λ x h. ground arith) (ground arith)
        (split-contains c s))
]

-- `rsplit_once` cuts at the last separator.
pub rsplit_once-none : (c : ℕ) (s : Text) → contains c s ≡ false → rsplit_once c s ≡ none
unfolding rsplit_once contains
rsplit_once-none c [] h = refl
rsplit_once-none c (d ∷ s) h = ground (arith, rsplit_once-none c s)

pub rsplit_once-append :
    (c : ℕ) (s t : Text) → contains c t ≡ false → rsplit_once c (s ++ c ∷ t) ≡ some (s, t)
unfolding rsplit_once
rsplit_once-append c [] t h = rw (rsplit_once-none c t h) (rw (==_refl c))
rsplit_once-append c (d ∷ s) t h = rw (rsplit_once-append c s t h)

pub rsplit_once_eq_none : (c : ℕ) (s : Text) → rsplit_once c s ≡ none → contains c s ≡ false
unfolding rsplit_once contains
rsplit_once_eq_none c [] h = refl
rsplit_once_eq_none c (d ∷ s) h = ground (arith, rsplit_once_eq_none c s)

-- What the two parts are.
pub rsplit_once_parts :
    (c : ℕ) (s h t : Text)
    → rsplit_once c s ≡ some (h, t)
    → (s ≡ h ++ c ∷ t) × (contains c t ≡ false)
unfolding rsplit_once
rsplit_once_parts c [] h t e = cc
rsplit_once_parts c (d ∷ s) h t e = elim (Option-cases (rsplit_once c s)) [
  | inl q ↦ ground (arith, rsplit_once_eq_none c s)
  | inr ((h', t'), q) ↦ ground (arith, rsplit_once_parts c s h' t' q)
]
