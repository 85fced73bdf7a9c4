-- ===== src/Text/Utf8.antt =====
-- UTF-8, as `str::as_bytes` and `std::str::from_utf8` of the standard library have it: the shortest
-- forms only, of scalar values only.
use mathlib.Core.Option
use bypass.Prelude.{
  ℕ, zero, suc, ◌+◌, ◌-◌, ◌*◌, ◌/◌, ◌%◌, ◌≤◌, ◌<◌, ◌≡◌, refl, ◌∙◌, inl, inr, Bool, true, ◌&&◌, ◌||◌,
  Option, none, some, [], ◌∷◌, ◌++◌, arith, ltb, leb, Bool-cases, if◌then◌else◌, All,
}
use bypass.Text.{Text, Bytes}

encode_char : ℕ → Bytes
encode_char c =
    if ltb c 0x80
    then c ∷ []
    else if ltb c 0x800
    then (0xc0 + c / 64) ∷ (0x80 + c % 64) ∷ []
    else if ltb c 0x10000
    then (0xe0 + c / 4096) ∷ (0x80 + c / 64 % 64) ∷ (0x80 + c % 64) ∷ []
    else (0xf0 + c / 262144) ∷ (0x80 + c / 4096 % 64) ∷ (0x80 + c / 64 % 64) ∷ (0x80 + c % 64) ∷ []

-- `as_bytes`
unfoldable pub encode : Text → Bytes
unfolding encode_char
encode [] = []
encode (c ∷ s) = encode_char c ++ encode s

abbrev pub is_scalar : ℕ → Bool
is_scalar c = ltb c 0xd800 || (leb 0xe000 c && ltb c 0x110000)

-- Between characters, or in one: the bytes to come, the value so far, and the least value that has
-- no shorter form.
pub data Decoder : Type 0 where
  start : Decoder
  inside : ℕ → ℕ → ℕ → Decoder

-- A refusal, a character that is complete, or the state in the middle of one.
pub data Next : Type 0 where
  refuse : Next
  emit : ℕ → Next
  more : Decoder → Next

first_byte : ℕ → Next
first_byte a =
    if ltb a 0x80
    then emit a
    else if ltb a 0xc2
    then refuse
    else if ltb a 0xe0
    then more (inside 0 (a - 0xc0) 0x80)
    else if ltb a 0xf0
    then more (inside 1 (a - 0xe0) 0x800)
    else if ltb a 0xf5
    then more (inside 2 (a - 0xf0) 0x10000)
    else refuse

-- `left` bytes follow this one.
later_byte : ℕ → ℕ → ℕ → ℕ → Next
later_byte zero value least a =
    let c = value * 64 + (a - 0x80) in
    if leb 0x80 a && ltb a 0xc0 && leb least c && is_scalar c then emit c else refuse
later_byte (suc left) value least a =
    if leb 0x80 a && ltb a 0xc0 then more (inside left (value * 64 + (a - 0x80)) least) else refuse

decode_byte : Decoder → ℕ → Next
unfolding first_byte later_byte
decode_byte start a = first_byte a
decode_byte (inside left value least) a = later_byte left value least a

decode : Decoder → Bytes → Option Text
decode start [] = some []
decode (inside left value least) [] = none
decode d (a ∷ s) = elim (decode_byte d a) [
  | refuse ↦ none
  | emit c ↦ Option.map (◌∷◌ c) (decode start s)
  | more d' ↦ decode d' s
]

unfoldable pub from_utf8 : Bytes → Option Text
unfolding decode decode_byte
from_utf8 bytes = decode start bytes

decode_byte_first :
    (a : ℕ)
    → (a < 0x80 → decode_byte start a ≡ emit a)
      × ((2 ≤ a) × (a < 32) → decode_byte start (0xc0 + a) ≡ more (inside 0 a 0x80))
      × (a < 16 → decode_byte start (0xe0 + a) ≡ more (inside 1 a 0x800))
      × (a < 5 → decode_byte start (0xf0 + a) ≡ more (inside 2 a 0x10000))
unfolding decode_byte
decode_byte_first a = (λ h. ground arith, λ h. ground arith, λ h. ground arith, λ h. ground arith)

decode_byte_more :
    (n v least r : ℕ)
    → r < 64
    → decode_byte (inside (suc n) v least) (0x80 + r) ≡ more (inside n (v * 64 + r) least)
unfolding decode_byte
decode_byte_more n v least r h = ground arith

decode_byte_last :
    (v least r c : ℕ)
    → r < 64
    → v * 64 + r ≡ c
    → least ≤ c
    → is_scalar c ≡ true
    → decode_byte (inside 0 v least) (0x80 + r) ≡ emit c
unfolding decode_byte
decode_byte_last v least r c h e l s = ground arith

decode-emit :
    (d : Decoder) (a c : ℕ) (s : Bytes)
    → decode_byte d a ≡ emit c
    → decode d (a ∷ s) ≡ Option.map (◌∷◌ c) (decode start s)
unfolding decode
decode-emit start a c s h = rw (h, decode)
decode-emit (inside n v l) a c s h = rw (h, decode)

decode-more :
    (d : Decoder) (a : ℕ) (d' : Decoder) (s : Bytes)
    → decode_byte d a ≡ more d'
    → decode d (a ∷ s) ≡ decode d' s
unfolding decode
decode-more start a d' s h = rw (h, decode)
decode-more (inside n v l) a d' s h = rw (h, decode)

module _ (c : ℕ) (rest : Bytes) (h : is_scalar c ≡ true) where
  decode-two :
      0x80 ≤ c
      → c < 0x800
      → decode start ((0xc0 + c / 64) ∷ (0x80 + c % 64) ∷ rest)
        ≡ Option.map (◌∷◌ c) (decode start rest)
  decode-two k l =
      decode-more start _ _ _ ((decode_byte_first (c / 64)).1 (omega arith, omega arith))
      ∙ decode-emit _ _ _ _
          (decode_byte_last (c / 64) 0x80 (c % 64) c (omega arith) (omega arith) k h)

  decode-three :
      0x800 ≤ c
      → c < 0x10000
      → decode start ((0xe0 + c / 4096) ∷ (0x80 + c / 64 % 64) ∷ (0x80 + c % 64) ∷ rest)
        ≡ Option.map (◌∷◌ c) (decode start rest)
  decode-three k l =
      decode-more start _ _ _ ((decode_byte_first (c / 4096)).2 (omega arith))
      ∙ decode-more _ _ _ _ (decode_byte_more 0 (c / 4096) 0x800 (c / 64 % 64) (omega arith))
      ∙ decode-emit _ _ _ _ (
          decode_byte_last (c / 4096 * 64 + c / 64 % 64) 0x800 (c % 64) c (omega arith)
            (omega arith) k h)

  decode-four :
      0x10000 ≤ c
      → decode start (
          (0xf0 + c / 262144)
          ∷ (0x80 + c / 4096 % 64)
          ∷ (0x80 + c / 64 % 64)
          ∷ (0x80 + c % 64)
          ∷ rest)
        ≡ Option.map (◌∷◌ c) (decode start rest)
  decode-four k =
      let small : c < 0x110000 = ground arith in
      let high = c / 262144 * 64 + c / 4096 % 64 in
      decode-more start _ _ _ ((decode_byte_first (c / 262144)).3 (omega arith))
      ∙ decode-more _ _ _ _ (decode_byte_more 1 (c / 262144) 0x10000 (c / 4096 % 64) (omega arith))
      ∙ decode-more _ _ _ _ (decode_byte_more 0 high 0x10000 (c / 64 % 64) (omega arith))
      ∙ decode-emit _ _ _ _ (
          decode_byte_last (high * 64 + c / 64 % 64) 0x10000 (c % 64) c (omega arith) (omega arith)
            k h)

  decode-one : c < 0x80 → decode start (c ∷ rest) ≡ Option.map (◌∷◌ c) (decode start rest)
  decode-one k = decode-emit start c c rest ((decode_byte_first c).0 k)

  decode-encode_char : decode start (encode_char c ++ rest) ≡ Option.map (◌∷◌ c) (decode start rest)
  unfolding encode_char
  decode-encode_char = elim (Bool-cases (ltb c 0x80)) [
    | inl e ↦ rw e (decode-one (ground arith))
    | inr e ↦ elim (Bool-cases (ltb c 0x800)) [
      | inl f ↦ rw (e, f) (decode-two (ground arith) (ground arith))
      | inr f ↦ elim (Bool-cases (ltb c 0x10000)) [
        | inl g ↦ rw (e, f, g) (decode-three (ground arith) (ground arith))
        | inr g ↦ rw (e, f, g) (decode-four (ground arith))
      ]
    ]
  ]

-- What `as_bytes` gives of a text of scalar values is read back.
pub from_utf8-encode : (s : Text) → All (λ c. is_scalar c ≡ true) s → from_utf8 (encode s) ≡ some s
unfolding from_utf8 encode
from_utf8-encode [] h = refl
from_utf8-encode (c ∷ s) h = decode-encode_char c (encode s) h.0 ∙ rw (from_utf8-encode s h.1)

-- ASCII is its own encoding.
pub encode_ascii : (s : Text) → All (λ c. c < 0x80) s → encode s ≡ s
unfolding encode encode_char
encode_ascii [] h = refl
encode_ascii (c ∷ s) h = ground (arith, h, encode_ascii s h.1)
