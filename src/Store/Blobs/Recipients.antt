-- ===== src/Store/Blobs/Recipients.antt =====
-- `recipients_equal` decides equality up to order.
use mathlib.Core.Logic.{∥∥₁_elim}
use mathlib.Core.List.{Perm, Permᴰ}
use mathlib.Core.List.Perm
use native.Mathlib.Nat.{ℕ_set}
use bypass.Prelude.{
  suc, ◌≡◌, refl, ap, ◌∙◌, ◌↔◌, inl, inr, true, false, List, [], ◌∷◌, arith, Bool-cases, length,
  map, ◌==◌, if◌then◌else◌,
}
use bypass.Text.{Text, text_le}
use bypass.Text.Laws.{text_eq_iff, text_le_total, text_le_trans, text_le_antisymm}
use bypass.Crypto.{KeyId}
use bypass.Store.Sorting.{insert_by, sort_by}
use bypass.Store.Blobs.{texts_eq, recipients_equal}

abbrev insert : Text → List Text → List Text
insert = insert_by (λ t. t)

abbrev sort : List Text → List Text
sort = sort_by (λ t. t)

insert-perm : (a : Text) (l : List Text) → Perm (insert a l) (a ∷ l)
unfolding insert_by
insert-perm a [] = Perm.refl (a ∷ [])
insert-perm a (b ∷ l) = elim (Bool-cases (text_le a b)) [
  | inl e ↦ rw e (Perm.refl (a ∷ b ∷ l))
  | inr e ↦ rw e (Perm.trans (Perm.cons b (insert-perm a l)) (Perm.swap a b l))
]

sort-perm : (l : List Text) → Perm (sort l) l
unfolding sort_by
sort-perm [] = Perm.refl []
sort-perm (a ∷ l) = Perm.trans (insert-perm a (sort l)) (Perm.cons a (sort-perm l))

insert_comm : (a b : Text) (l : List Text) → insert a (insert b l) ≡ insert b (insert a l)
unfolding insert_by
insert_comm a b [] = ground (arith, text_le_total a b, text_le_antisymm a b)
insert_comm a b (c ∷ l) = ground (
  arith,
  text_le_total a b,
  text_le_antisymm a b,
  text_le_total a c,
  text_le_total b c,
  text_le_trans a b c,
  text_le_trans b a c,
  insert_comm a b l,
)

sort-Permᴰ : {xs ys : List Text} → Permᴰ xs ys → sort xs ≡ sort ys
unfolding sort_by
sort-Permᴰ Permᴰ.nil = refl
sort-Permᴰ (Permᴰ.cons {a = a} e p) = rw e (ap (insert _) (sort-Permᴰ p))
sort-Permᴰ (Permᴰ.swap {a = a} {b = b} {l = l} e f) = rw (← e, ← f) (insert_comm a b (sort l))
sort-Permᴰ (Permᴰ.trans p q) = sort-Permᴰ p ∙ sort-Permᴰ q

texts_eq_iff : (xs ys : List Text) → (texts_eq xs ys ≡ true) ↔ (xs ≡ ys)
unfolding texts_eq
texts_eq_iff (x ∷ xs) (y ∷ ys) = ground (arith, text_eq_iff x y, texts_eq_iff xs ys)
texts_eq_iff _ _ = ground arith

abbrev pub names : List KeyId → List Text
names = map (λ k. k.as_str)

Texts-set : IsSet (List Text)
Texts-set = hlevel

length-Permᴰ : {xs ys : List Text} → Permᴰ xs ys → length xs ≡ length ys
length-Permᴰ Permᴰ.nil = refl
length-Permᴰ (Permᴰ.cons e p) = ap suc (length-Permᴰ p)
length-Permᴰ (Permᴰ.swap e f) = refl
length-Permᴰ (Permᴰ.trans p q) = length-Permᴰ p ∙ length-Permᴰ q

length-names : (ks : List KeyId) → length (names ks) ≡ length ks
length-names [] = refl
length-names (k ∷ ks) = ap suc (length-names ks)

-- Two recipient lists are equal for `copy` and `rename` exactly when one is a reordering of the
-- other; a repeated recipient counts as often as it stands there.
pub recipients_equal_iff :
    (a b : List KeyId) → (recipients_equal a b ≡ true) ↔ Perm (names a) (names b)
unfolding recipients_equal
recipients_equal_iff a b = (to, from)
  where
    to :
        (if length a == length b then texts_eq (sort (names a)) (sort (names b)) else false) ≡ true
        → Perm (names a) (names b)
    to h =
        let same : texts_eq (sort (names a)) (sort (names b)) ≡ true = ground arith in
        Perm.trans (Perm.symm (sort-perm (names a)))
          (rw ((texts_eq_iff (sort (names a)) (sort (names b))).0 same) (sort-perm (names b)))

    from :
        Perm (names a) (names b)
        → (if length a == length b then texts_eq (sort (names a)) (sort (names b)) else false)
          ≡ true
    from p =
        let sorted = ∥∥₁_elim p (Texts-set (sort (names a)) (sort (names b))) sort-Permᴰ in
        let lengths : length (names a) ≡ length (names b) = ∥∥₁_elim p (ℕ_set _ _) length-Permᴰ in
        ground (
          arith,
          texts_eq_iff (sort (names a)) (sort (names b)),
          sorted,
          lengths,
          length-names a,
          length-names b,
        )
