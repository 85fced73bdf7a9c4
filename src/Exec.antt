-- ===== src/Exec.antt =====
-- Code that mutates an object and may fail: what was written before an error stays written, so the
-- state comes back beside the error too. Rust's `?` is the bind.
use bypass.Prelude.{Outcome, ok, err, abort, ◌≡◌, refl}

abbrev pub Exec : Type 0 → Type 0 → Type 0 → Type 0
Exec S E A = S → Outcome E A × S

module _ {S E : Type 0} where
  abbrev pub pure : {A : Type 0} → A → Exec S E A
  pure a s = (ok a, s)

  abbrev pub raise : {A : Type 0} → E → Exec S E A
  raise e s = (err e, s)

  abbrev pub lift : {A : Type 0} → Outcome E A → Exec S E A
  lift r s = (r, s)

  -- A computation that only reads the state.
  abbrev pub reads : {A : Type 0} → (S → Outcome E A) → Exec S E A
  reads f s = (f s, s)

  abbrev pub continue : {A B : Type 0} → (A → Exec S E B) → Outcome E A → S → Outcome E B × S
  continue f (ok a) s = f a s
  continue f (err e) s = (err e, s)
  continue f abort s = (abort, s)

  infixl 5 ◌>>=◌ ◌>>◌
  abbrev pub ◌>>=◌ : {A B : Type 0} → Exec S E A → (A → Exec S E B) → Exec S E B
  ◌>>=◌ m f s = continue f (m s).0 (m s).1

  abbrev pub ◌>>◌ : {B : Type 0} → Exec S E (Unit {0}) → Exec S E B → Exec S E B
  m >> k = m >>= λ _. k

-- What holds of the state where a computation goes on or stops holds of the state at its end.
pub continue_lem {ℓ} :
    {S E A B : Type 0} (Q : S → Type ℓ) (f : A → Exec S E B) (r : Outcome E A) (s : S)
    → ((a : A) → r ≡ ok a → Q (f a s).1)
    → Q s
    → Q (continue f r s).1
continue_lem Q f (ok a) s goes stops = goes a refl
continue_lem Q f (err e) s goes stops = stops
continue_lem Q f abort s goes stops = stops

-- Computations that go on alike come to the same.
pub continue-ext :
    {S E A B : Type 0} {f g : A → Exec S E B} (r : Outcome E A) (s : S)
    → ((a : A) (t : S) → f a t ≡ g a t)
    → continue f r s ≡ continue g r s
continue-ext (ok a) s same = same a s
continue-ext (err e) s same = refl
continue-ext abort s same = refl

-- A chain that returns has both of its parts return.
pub continue-eq-ok :
    {S E A B : Type 0} (f : A → Exec S E B) (r : Outcome E A) (s : S) {result : B}
    → (continue f r s).0 ≡ ok result
    → (a : A) × (r ≡ ok a) × ((f a s).0 ≡ ok result)
continue-eq-ok f (ok a) s returns = (a, refl, returns)
continue-eq-ok f (err e) s returns = cc
continue-eq-ok f abort s returns = cc
