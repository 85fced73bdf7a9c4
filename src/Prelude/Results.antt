-- ===== src/Prelude/Results.antt =====
-- Results of Rust code. `abort` is a call that returns no value: a panic, or a loop of the model
-- that has used up its fuel.
use mathlib.Core.Path.{◌≡◌, refl}
use mathlib.Core.Option.{Option, none, some}
use mathlib.Core.Logic.{◌⊎◌, inl, inr}
use native.Mathlib.Omega.{arith}

pub data Outcome (E A : Type 0) : Type 0 where
  ok : A → Outcome E A
  err : E → Outcome E A
  abort : Outcome E A

module _ {E : Type 0} where
  infixl 5 ◌>>=◌
  abbrev pub ◌>>=◌ : {A B : Type 0} → Outcome E A → (A → Outcome E B) → Outcome E B
  ok a >>= f = f a
  err e >>= f = err e
  abort >>= f = abort

  -- A bind that returns has both of its parts return.
  pub >>=-eq-ok :
      {A B : Type 0} (first : Outcome E A) (next : A → Outcome E B) {result : B}
      → (first >>= next) ≡ ok result
      → (a : A) × (first ≡ ok a) × (next a ≡ ok result)
  >>=-eq-ok abort next returns = cc
  >>=-eq-ok (err e) next returns = cc
  >>=-eq-ok (ok a) next returns = (a, refl, returns)

-- `Result::map_err`
abbrev pub map_err : {E F A : Type 0} → (E → F) → Outcome E A → Outcome F A
map_err f (ok a) = ok a
map_err f (err e) = err (f e)
map_err f abort = abort

-- `Option::ok_or`
abbrev pub ok_or : {E A : Type 0} → Option A → E → Outcome E A
ok_or none e = err e
ok_or (some a) e = ok a

-- `Result::ok`
abbrev pub to_option : {E A : Type 0} → Outcome E A → Option A
to_option (ok a) = some a
to_option (err e) = none
to_option abort = none

-- `Result::expect`, in code whose own error type is `F`: an error panics.
abbrev pub expect : {E F A : Type 0} → Outcome E A → Outcome F A
expect (ok a) = ok a
expect (err e) = abort
expect abort = abort

-- A result of a call that always returns, where it is one of a chain of calls.
abbrev pub returned : {E A : Type 0} → E ⊎ A → Outcome E A
returned (inl e) = err e
returned (inr a) = ok a

-- A call that returns with its error wrapped returns.
pub map_err-eq-ok :
    {E F A : Type 0} (wrap : E → F) (r : Outcome E A) {a : A} → map_err wrap r ≡ ok a → r ≡ ok a
map_err-eq-ok wrap (ok b) e = ground arith
map_err-eq-ok wrap (err x) e = cc
map_err-eq-ok wrap abort e = cc

pub returned-eq-ok :
    {E F A : Type 0} (wrap : E → F) (r : E ⊎ A) {a : A}
    → map_err wrap (returned r) ≡ ok a
    → r ≡ inr a
returned-eq-ok wrap (inl x) e = cc
returned-eq-ok wrap (inr b) e = ground arith
