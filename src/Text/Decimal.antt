-- ===== src/Text/Decimal.antt =====
-- Decimal numbers as `format!` prints them, filled up with zeros to a width.
use bypass.Prelude.{ℕ, zero, suc, ◌+◌, ◌/◌, ◌%◌, [], ◌∷◌, ◌++◌, ◌==◌, if◌then◌else◌}
use bypass.Text.{Text}

abbrev pub digit : ℕ → ℕ
digit n = b'0' + n % 10

-- The digits of a number without a zero in front; each takes a round, so as many rounds as the
-- number are enough.
unfoldable pub significant : ℕ → ℕ → Text
significant zero n = []
significant (suc fuel) n =
    let rest = significant fuel (n / 10) in if n == 0 then [] else rest ++ digit n ∷ []

-- `{n:0width$}`
unfoldable pub padded : ℕ → ℕ → Text
unfolding significant
padded zero n = significant n n
padded (suc width) n = padded width (n / 10) ++ digit n ∷ []
