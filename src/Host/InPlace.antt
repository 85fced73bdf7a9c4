-- ===== src/Host/InPlace.antt =====
-- `generate_op` of crates/bypass-cli/src/messaging_host.rs on an entry in place.
use bypass.Prelude.{
  ◌≡◌, refl, ap, ◌⊎◌, inl, inr, true, false, Bool, Option, List, [], ◌∷◌, ◌++◌, ok, ℕ, arith,
}
use bypass.Text.{Text, Bytes, contains}
use bypass.Text.Utf8.{encode}
use bypass.RelPath.{RelPath, IsValid}
use bypass.Crypto.{KeyId, Crypto, IsDecryptable}
use bypass.Storage.{Storage, IsBlobMap}
use bypass.Vcs.{VersionControl}
use bypass.GpgId.{resolve_recipients}
use bypass.Generate.{Rng, generate, default_length}
use bypass.Otp.{TotpLibrary}
use bypass.Store.{show}
use bypass.Store.Insert.{show-insert, insert_message}
use bypass.Store.Blobs.RoundTrip.{blob_of}
use bypass.Host.{Session, accept, password, generate_op, tail_of, unwrap_or}

-- A text without a newline, and then nothing or a newline and a text.
tail_of-append :
    (first rest : Bytes)
    → contains b'\n' first ≡ false
    → (rest ≡ []) ⊎ ((later : Bytes) × (rest ≡ b'\n' ∷ later))
    → tail_of (first ++ rest) ≡ rest
unfolding tail_of contains
tail_of-append [] rest clean (inl e) = rw e refl
tail_of-append [] rest clean (inr (later, e)) = rw e refl
tail_of-append (b ∷ bs) rest clean ends = let below = tail_of-append bs rest in ground arith

module _ (𝓒 : Crypto) (𝓢 : Storage) (𝓥 : VersionControl) (R : Rng) (L : TotpLibrary)
    (to_lowercase : Text → Text) (laws : IsBlobMap 𝓢) (laws_𝓒 : IsDecryptable 𝓒) where
  -- On a storage without I/O errors: where the path is valid, the generator gives a password, the
  -- entry shows a first line and what follows it, if anything a newline and more, its recipients
  -- resolve, encryption succeeds, a key of a recipient is held afterwards, and the commit
  -- succeeds, the reply to a request to generate in place has the new password, and the entry then
  -- shows that password followed by what followed the old first line.
  pub show-generate_op :
      (id : ℕ) (rel : RelPath) (length : Option ℕ) (symbols : Option Bool) (force : Bool)
      (s : Session 𝓒 𝓢 𝓥 R L to_lowercase) (secret : Text) (first rest ciphertext : Bytes)
      (recipients : List KeyId)
      → IsValid rel
      → laws.Healthy s.store.storage
      → (generate R {E = ⊥} (unwrap_or length default_length) (unwrap_or symbols true) s.rng).0
        ≡ ok secret
      → show 𝓒 𝓢 𝓥 rel s.store ≡ (ok (first ++ rest), s.store)
      → contains b'\n' first ≡ false
      → (rest ≡ []) ⊎ ((later : Bytes) × (rest ≡ b'\n' ∷ later))
      → resolve_recipients 𝓢 s.store.storage rel ≡ ok recipients
      → (𝓒.encrypt s.store.crypto (encode secret ++ rest) recipients).0 ≡ ok ciphertext
      → laws_𝓒.Holds (𝓒.encrypt s.store.crypto (encode secret ++ rest) recipients).1 recipients
      → (𝓥.commit s.store.vcs (blob_of rel ∷ []) (insert_message true rel)).0 ≡ ok tt
      → ((generate_op 𝓒 𝓢 𝓥 R L to_lowercase id rel length symbols true force s).0
          ≡ ok (accept id (password secret)))
        × ((show 𝓒 𝓢 𝓥 rel
              (generate_op 𝓒 𝓢 𝓥 R L to_lowercase id rel length symbols true force s).1.store).0
            ≡ ok (encode secret ++ rest))
  unfolding generate_op
  show-generate_op id rel length symbols force s secret first rest ciphertext recipients valid
        healthy drawn shown clean ends resolved encrypted holds committed =
      let (result, after, blobs) =
        show-insert 𝓒 𝓢 𝓥 laws rel (encode secret ++ rest) ciphertext true s.store recipients valid
          healthy (inl refl) resolved encrypted laws_𝓒 holds in
      rw (drawn, shown, tail_of-append first rest clean ends, result, committed)
        (refl, ap (λ r. r.0) after)
