-- ===== src/Generate/Bounds.antt =====
-- What `generate` gives, whatever the random numbers are.
use bypass.Prelude.{
  ℕ, zero, suc, ◌<◌, ◌≡◌, refl, inl, inr, Bool, true, false, some, List, [], ◌∷◌, arith, ok, length,
  In, All, Bool-cases, ◌==◌,
}
use bypass.Text.{Text, Bytes}
use bypass.Generate.{Rng, get_elem?, index, alphabet_of, draw, generate}

-- What rand documents of a range from 0.
pub record IsRng (R : Rng) : Type 0 where
  pub random_below_lt : (s : R.State) (n : ℕ) → 0 < n → (R.random_below s n).0 < n

get_elem?-In {ℓ} :
    {A : Type ℓ} (xs : List A) (i : ℕ)
    → i < length xs
    → (x : A) × (get_elem? xs i ≡ some x) × In x xs
get_elem?-In [] i h = absurd (omega arith)
get_elem?-In (x ∷ xs) zero h = (x, refl, inl refl)
get_elem?-In (x ∷ xs) (suc i) h =
    let (y, found, there) = get_elem?-In xs i (omega arith) in (y, found, inr there)

alphabet_of_pos : (b : Bool) → 0 < length (alphabet_of b)
unfolding alphabet_of
alphabet_of_pos true = omega arith
alphabet_of_pos false = omega arith

index_lem :
    {E A : Type 0} (xs : List A) (i : ℕ) (x : A)
    → get_elem? xs i ≡ some x
    → index {E = E} xs i ≡ ok x
index_lem xs i x e = rw (e, index) refl

module _ (R : Rng) {E : Type 0} (rng : IsRng R) where
  draw_lem :
      (alphabet : Bytes) (n : ℕ) (s : R.State)
      → 0 < length alphabet
      → (out : Text) × ((draw R {E = E} alphabet n s).0 ≡ ok out)
        × (length out ≡ n)
        × All (λ c. In c alphabet) out
  unfolding draw
  draw_lem alphabet zero s h = ([], refl, refl, tt)
  draw_lem alphabet (suc n) s h =
      let i = (R.random_below s (length alphabet)).0 in
      let t = (R.random_below s (length alphabet)).1 in
      let (c, found, there) = get_elem?-In alphabet i (rng.random_below_lt s (length alphabet) h) in
      let (out, drawn, long, inside) = draw_lem alphabet n t h in
      (c ∷ out, rw (index_lem alphabet i c found, drawn) refl, rw long refl, (there, inside))

  -- With a generator that keeps to its range: `generate` returns a password of the length asked
  -- for and of characters of its alphabet only, and never panics.
  pub length-generate :
      (len : ℕ) (with_symbols : Bool) (s : R.State)
      → (out : Text) × ((generate R {E = E} len with_symbols s).0 ≡ ok out)
        × (length out ≡ len)
        × All (λ c. In c (alphabet_of with_symbols)) out
  unfolding generate
  length-generate len with_symbols s = elim (Bool-cases (len == 0)) [
    | inl e ↦ ([], rw e refl, ground arith, tt)
    | inr e ↦ rw e (draw_lem (alphabet_of with_symbols) len s (alphabet_of_pos with_symbols))
  ]
