-- ===== src/Sync/Pairing/Tags.antt =====
-- `constant_time_eq` of crates/bypass-cli/src/sync/pairing.rs compares byte strings.
use Prim.Native.Nat.{bit_or, bit_xor}
use bypass.Prelude.{
  ℕ, zero, suc, ◌<◌, ◌≡◌, refl, ◌∙◌, ◌↔◌, Bool, true, not, ◌&&◌, ◌||◌, [], ◌∷◌, arith, ◌==◌, ltb,
  All, length,
}
use bypass.Text.{Bytes, text_eq}
use bypass.Text.Laws.{text_eq_iff}
use bypass.Sync.Pairing.{difference, constant_time_eq}

-- A test at all numbers below a bound.
holds_below : (ℕ → Bool) → ℕ → Bool
holds_below test zero = true
holds_below test (suc n) = test n && holds_below test n

holds_below_lt : (test : ℕ → Bool) (n x : ℕ) → holds_below test n ≡ true → x < n → test x ≡ true
unfolding holds_below
holds_below_lt test zero x h lt = absurd (omega arith)
holds_below_lt test (suc n) x h lt = ground (arith, holds_below_lt test n x)

-- Of bytes: the difference is a byte, and is 0 for equal ones only; gathered ones likewise.
abbrev byte_test : ℕ → ℕ → Bool
byte_test a b =
    ltb (bit_xor a b) 256
    && ltb (bit_or a b) 256
    && (if_same (bit_xor a b == 0) (a == b))
    && (if_same (bit_or a b == 0) (a == 0 && b == 0))
  where
    if_same : Bool → Bool → Bool
    if_same p q = (p && q) || (not p && not q)

byte_table : holds_below (λ a. holds_below (byte_test a) 256) 256 ≡ true
unfolding holds_below
byte_table = refl

abbrev pub IsByte : ℕ → Type 0
IsByte b = b < 256

record ByteLaws (a b : ℕ) : Type 0 where
  xor_lt : bit_xor a b < 256
  or_lt : bit_or a b < 256
  xor_eq : (bit_xor a b == 0) ≡ (a == b)
  or_eq : (bit_or a b == 0) ≡ (a == 0 && b == 0)

byte_laws : (a b : ℕ) → IsByte a → IsByte b → ByteLaws a b
byte_laws a b ha hb =
    let row = holds_below_lt (λ x. holds_below (byte_test x) 256) 256 a byte_table ha in
    let t : byte_test a b ≡ true = holds_below_lt (byte_test a) 256 b row hb in
    record {
      xor_lt = ground (arith, t);
      or_lt = ground (arith, t);
      xor_eq = ground (arith, t);
      or_eq = ground (arith, t);
    }

difference_lem :
    (acc : ℕ) (s t : Bytes)
    → IsByte acc
    → All IsByte s
    → All IsByte t
    → length s ≡ length t
    → (difference acc s t == 0) ≡ (acc == 0 && text_eq s t)
unfolding difference text_eq
difference_lem acc [] [] h hs ht e = ground arith
difference_lem acc [] (b ∷ t) h hs ht e = absurd (omega (arith, e))
difference_lem acc (a ∷ s) [] h hs ht e = absurd (omega (arith, e))
difference_lem acc (a ∷ s) (b ∷ t) h hs ht e =
    let one = byte_laws a b hs.0 ht.0 in
    let two = byte_laws acc (bit_xor a b) h one.xor_lt in
    difference_lem (bit_or acc (bit_xor a b)) s t two.or_lt hs.1 ht.1 (omega (arith, e))
    ∙ rw (two.or_eq, one.xor_eq) (ground arith)

-- On byte strings of one length, `constant_time_eq` is equality.
pub constant_time_eq_iff :
    (s t : Bytes)
    → All IsByte s
    → All IsByte t
    → length s ≡ length t
    → (constant_time_eq s t ≡ true) ↔ (s ≡ t)
unfolding constant_time_eq
constant_time_eq_iff s t hs ht e = rw (difference_lem 0 s t (omega arith) hs ht e) (text_eq_iff s t)
