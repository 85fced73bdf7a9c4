-- ===== src/Generate.antt =====
-- Password generation (crates/bypass-core/src/generate.rs). The random source of the rand library is
-- a parameter; a byte of the alphabets is its code point.
pub mod Bounds
use bypass.Prelude.{
  ℕ, zero, suc, ◌==◌, Bool, Option, none, some, List, [], ◌∷◌, ◌++◌, Outcome, ok, err, abort,
  if◌then◌else◌, length,
}
use bypass.Exec.{Exec, pure, lift, ◌>>=◌}
use bypass.Text.{Text, Bytes, codes}

abbrev pub alphanumeric : Bytes
alphanumeric = codes "ABCDEFGHIJKLMNOPQRSTUVWXYZabcdefghijklmnopqrstuvwxyz0123456789"

abbrev pub symbols : Bytes
symbols = codes "!@#$%^&*()-_=+[]{}|;:,.<>?/~"

abbrev pub default_length : ℕ
default_length = 25

-- `rand::rng()`: a number below the bound of the range, and the generator's next state.
pub record Rng : Type 1 where
  pub State : Type 0
  pub random_below : State → ℕ → ℕ × State

abbrev pub get_elem? {ℓ} : {A : Type ℓ} → List A → ℕ → Option A
get_elem? [] n = none
get_elem? (x ∷ xs) zero = some x
get_elem? (x ∷ xs) (suc n) = get_elem? xs n

-- `alphabet[i]`, which panics out of range.
abbrev pub index : {E A : Type 0} → List A → ℕ → Outcome E A
index xs i = elim (get_elem? xs i) [ some x ↦ ok x | none ↦ abort ]

unfoldable pub alphabet_of : Bool → Bytes
alphabet_of with_symbols = if with_symbols then alphanumeric ++ symbols else alphanumeric

module _ (R : Rng) {E : Type 0} where
  -- The loop of `generate`, with the rounds to go.
  unfoldable pub draw : Bytes → ℕ → Exec R.State E Text
  draw alphabet zero = pure []
  draw alphabet (suc left) = do
    i ← λ s. (ok (R.random_below s (length alphabet)).0, (R.random_below s (length alphabet)).1)
    c ← lift (index alphabet i)
    out ← draw alphabet left
    pure (c ∷ out)

  unfoldable pub generate : ℕ → Bool → Exec R.State E Text
  unfolding draw alphabet_of
  generate len with_symbols = if len == 0 then pure [] else draw (alphabet_of with_symbols) len
