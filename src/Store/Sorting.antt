-- ===== src/Store/Sorting.antt =====
-- Sorting by a text key. The order is total, so that equal keys are equal texts and the result is
-- the same for every sorting algorithm on distinct keys; `sort_by` is stable, as insertion is.
use bypass.Prelude.{
  ◌≡◌, ◌⊎◌, inl, inr, ◌↔◌, true, false, List, [], ◌∷◌, arith, Bool-cases, All, In, if◌then◌else◌,
}
use bypass.Text.{Text, text_le}
use bypass.Text.Laws.{text_le_total, text_le_trans}

module _ {A : Type 0} (key : A → Text) where
  unfoldable pub insert_by : A → List A → List A
  insert_by a [] = a ∷ []
  insert_by a (b ∷ bs) = if text_le (key a) (key b) then a ∷ (b ∷ bs) else b ∷ insert_by a bs

  unfoldable pub sort_by : List A → List A
  unfolding insert_by
  sort_by [] = []
  sort_by (a ∷ as') = insert_by a (sort_by as')

  -- Each key is at most all later ones.
  abbrev pub IsSorted : List A → Type 0
  IsSorted [] = Unit
  IsSorted (a ∷ as') = All (λ b. text_le (key a) (key b) ≡ true) as' × IsSorted as'

  All-insert_by : (P : A → Type 0) (a : A) (bs : List A) → P a → All P bs → All P (insert_by a bs)
  unfolding insert_by
  All-insert_by P a [] p h = (p, tt)
  All-insert_by P a (b ∷ bs) p h = elim (Bool-cases (text_le (key a) (key b))) [
    | inl e ↦ rw e (p, h)
    | inr e ↦ rw e (h.0, All-insert_by P a bs p h.1)
  ]

  All-le :
      (a b : A) (bs : List A)
      → text_le (key a) (key b) ≡ true
      → All (λ c. text_le (key b) (key c) ≡ true) bs
      → All (λ c. text_le (key a) (key c) ≡ true) bs
  All-le a b [] e h = tt
  All-le a b (c ∷ bs) e h = (text_le_trans (key a) (key b) (key c) e h.0, All-le a b bs e h.1)

  insert_by-IsSorted : (a : A) (bs : List A) → IsSorted bs → IsSorted (insert_by a bs)
  unfolding insert_by
  insert_by-IsSorted a [] h = (tt, tt)
  insert_by-IsSorted a (b ∷ bs) (h, hs) = elim (Bool-cases (text_le (key a) (key b))) [
    | inl e ↦ rw e ((e, All-le a b bs e h), (h, hs))
    | inr e ↦ rw e (
      All-insert_by (λ c. text_le (key b) (key c) ≡ true) a bs (other e) h,
      insert_by-IsSorted a bs hs,
    )
  ]
    where
      other : text_le (key a) (key b) ≡ false → text_le (key b) (key a) ≡ true
      other e = ground (arith, text_le_total (key a) (key b))

  pub sort_by-IsSorted : (l : List A) → IsSorted (sort_by l)
  unfolding sort_by
  sort_by-IsSorted [] = tt
  sort_by-IsSorted (a ∷ as') = insert_by-IsSorted a (sort_by as') (sort_by-IsSorted as')

  -- Sorting keeps what stands in the list.
  In-insert_by : (x a : A) (bs : List A) → In x (insert_by a bs) ↔ ((x ≡ a) ⊎ In x bs)
  unfolding insert_by
  In-insert_by x a [] = (λ h. h, λ h. h)
  In-insert_by x a (b ∷ bs) = elim (Bool-cases (text_le (key a) (key b))) [
    | inl e ↦ rw e (λ h. h, λ h. h)
    | inr e ↦ rw e (to (In-insert_by x a bs).0, from (In-insert_by x a bs).1)
  ]
    where
      to :
          (In x (insert_by a bs) → (x ≡ a) ⊎ In x bs)
          → (x ≡ b) ⊎ In x (insert_by a bs)
          → (x ≡ a) ⊎ ((x ≡ b) ⊎ In x bs)
      to f (inl p) = inr (inl p)
      to f (inr p) = elim (f p) [ inl q ↦ inl q | inr q ↦ inr (inr q) ]

      from :
          ((x ≡ a) ⊎ In x bs → In x (insert_by a bs))
          → (x ≡ a) ⊎ ((x ≡ b) ⊎ In x bs)
          → (x ≡ b) ⊎ In x (insert_by a bs)
      from f (inl p) = inr (f (inl p))
      from f (inr (inl p)) = inl p
      from f (inr (inr p)) = inr (f (inr p))

  pub In-sort_by : (x : A) (l : List A) → In x (sort_by l) ↔ In x l
  unfolding sort_by
  In-sort_by x [] = (λ h. h, λ h. h)
  In-sort_by x (a ∷ l) =
      let (to, from) = In-insert_by x a (sort_by l) in
      (
        λ h. elim (to h) [ inl p ↦ inl p | inr q ↦ inr ((In-sort_by x l).0 q) ],
        λ h. from (elim h [ inl p ↦ inl p | inr q ↦ inr ((In-sort_by x l).1 q) ]),
      )
