-- ===== src/Crypto.antt =====
-- The trait `Crypto` and `KeyId` (crates/bypass-core/src/crypto.rs). Encryption draws on entropy,
-- so it returns a new state; decryption only reads one.
use bypass.Prelude.{◌≡◌, List, Outcome, ok}
use bypass.Text.{Text, Bytes}

pub record KeyId : Type 0 where
  pub as_str : Text

pub record Crypto : Type 1 where
  pub State : Type 0
  pub Error : Type 0
  pub encrypt : State → Bytes → List KeyId → Outcome Error Bytes × State
  pub decrypt : State → Bytes → Outcome Error Bytes

-- What OpenPGP promises: who holds a key of one of the recipients gets the plaintext back.
pub record IsDecryptable (𝓒 : Crypto) : Type 1 where
  -- A secret key of one of the recipients is at hand.
  pub Holds : 𝓒.State → List KeyId → Type 0
  pub decrypt-encrypt :
      (s s' : 𝓒.State) (plaintext ciphertext : Bytes) (recipients : List KeyId)
      → (𝓒.encrypt s plaintext recipients).0 ≡ ok ciphertext
      → Holds s' recipients
      → 𝓒.decrypt s' ciphertext ≡ ok plaintext
