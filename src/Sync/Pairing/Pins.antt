-- ===== src/Sync/Pairing/Pins.antt =====
-- `generate_pin` of crates/bypass-cli/src/sync/pairing.rs, and the time stamp as text. The random
-- source and the clock are parameters.
use bypass.Prelude.{ℕ, ◌/◌, ◌%◌, ◌<◌, ◌≡◌, refl, [], ◌∷◌, ◌++◌, arith, ok, true}
use bypass.Text.{Text, is_ascii_digit}
use bypass.Text.Decimal.{padded, significant, digit}
use bypass.Text.Utf8.{encode_ascii}
use bypass.Generate.{Rng}
use bypass.Generate.Bounds.{IsRng}
use bypass.Sync.Pairing.{pin_len, validate_pin}
use bypass.Sync.Pairing.Calendar.{civil_from_days}

unfoldable pub format_unix_ts : ℕ → Text
unfolding padded civil_from_days
format_unix_ts secs =
    let c = civil_from_days (secs / 86400) in
    let rem = secs % 86400 in
    padded 4 c.year
    ++ (b'-' ∷ padded 2 c.month)
    ++ (b'-' ∷ padded 2 c.day)
    ++ (b'T' ∷ padded 2 (rem / 3600))
    ++ (b':' ∷ padded 2 (rem % 3600 / 60))
    ++ (b':' ∷ padded 2 (rem % 60))
    ++ (b'Z' ∷ [])

module _ (R : Rng) where
  unfoldable pub generate_pin : R.State → Text
  unfolding padded
  generate_pin s = padded pin_len (R.random_below s 1_000_000).0

six_digits :
    (n : ℕ)
    → n < 1_000_000
    → padded 6 n
      ≡ digit (n / 10 / 10 / 10 / 10 / 10)
        ∷ digit (n / 10 / 10 / 10 / 10)
        ∷ digit (n / 10 / 10 / 10)
        ∷ digit (n / 10 / 10)
        ∷ digit (n / 10)
        ∷ digit n
        ∷ []
unfolding padded significant
six_digits n h = rw (none_left) refl
  where
    none_left : n / 10 / 10 / 10 / 10 / 10 / 10 ≡ 0
    none_left = omega arith

digit_lem : (n : ℕ) → (digit n < 0x80) × (is_ascii_digit (digit n) ≡ true)
digit_lem n = (omega arith, ground arith)

validate_pin-digits :
    {SE TE : Type 0} (a b c d e f : ℕ)
    → validate_pin {SE = SE} {TE = TE}
        (digit a ∷ digit b ∷ digit c ∷ digit d ∷ digit e ∷ digit f ∷ [])
      ≡ ok tt
unfolding validate_pin
validate_pin-digits a b c d e f =
    rw
      (
        encode_ascii (digit a ∷ digit b ∷ digit c ∷ digit d ∷ digit e ∷ digit f ∷ []) (
          (digit_lem a).0,
          (
            (digit_lem b).0,
            ((digit_lem c).0, ((digit_lem d).0, ((digit_lem e).0, ((digit_lem f).0, tt)))),
          ),
        ),
        (digit_lem a).1,
        (digit_lem b).1,
        (digit_lem c).1,
        (digit_lem d).1,
        (digit_lem e).1,
        (digit_lem f).1,
      )
      refl

-- With a generator that keeps to its range, the PIN that a device shows is one that the other
-- device accepts.
pub validate_pin-generate_pin :
    (R : Rng) {SE TE : Type 0} (rng : IsRng R) (s : R.State)
    → validate_pin {SE = SE} {TE = TE} (generate_pin R s) ≡ ok tt
unfolding generate_pin
validate_pin-generate_pin R rng s =
    rw (six_digits (R.random_below s 1_000_000).0 (rng.random_below_lt s 1_000_000 (omega arith)))
      (validate_pin-digits _ _ _ _ _ _)
