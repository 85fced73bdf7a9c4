-- ===== src/Host.antt =====
-- The native-messaging host (crates/bypass-cli/src/messaging_host.rs): requests, replies, and the
-- dispatch of a request to the store. The text of an error is represented by what it names.
pub mod Framing
pub mod Loop
pub mod InPlace
use bypass.Prelude.{
  ℕ, ◌*◌, ◌⊎◌, inl, inr, Bool, true, false, Option, none, some, List, [], ◌∷◌, ◌++◌, Outcome, ok,
  err, abort, ◌==◌, if◌then◌else◌, is_empty, map,
}
use bypass.Exec.{Exec, pure, lift, ◌>>=◌}
use bypass.Text.{Text, Bytes}
use bypass.Text.Utf8.{encode, from_utf8}
use bypass.RelPath
use bypass.RelPath.{RelPath, PathError}
use bypass.Crypto.{Crypto}
use bypass.Storage.{Storage}
use bypass.Vcs.{VersionControl}
use bypass.Store as Stores
use bypass.Store.{Store, StoreError, list, show, remove_recursive}
use bypass.Entry
use bypass.Entry.{EntryError}
use bypass.Generate.{Rng, generate, default_length}
use bypass.Otp.{OtpError, TotpLibrary, current_code}

abbrev pub max_reply_bytes : ℕ
max_reply_bytes = 512 * 1024

pub data RequestBody : Type 0 where
  ls : Option Text → RequestBody
  find : Text → RequestBody
  show_entry : Text → Option Text → RequestBody
  insert : Text → Text → Bool → RequestBody
  generate_entry : Text → Option ℕ → Option Bool → Bool → Bool → RequestBody
  otp : Text → RequestBody
  rm : Text → Bool → RequestBody

pub record Request : Type 0 where
  pub id : ℕ
  pub body : RequestBody

pub data OkBody : Type 0 where
  entries : List Text → OkBody
  plaintext : Text → OkBody
  field : Text → OkBody
  password : Text → OkBody
  code : Text → OkBody
  nothing : OkBody

-- What the `error` of a reply says. `SE` is the store's error, `TE` that of totp_rs.
pub data Message (SE TE : Type 0) : Type 0 where
  malformed_request : Message SE TE
  reply_too_large : ℕ → Message SE TE
  invalid_path : PathError → Message SE TE
  store_error : SE → Message SE TE
  not_utf8 : Message SE TE
  parse_entry : EntryError → Message SE TE
  no_field : Text → Message SE TE
  totp : OtpError TE → Message SE TE

-- Both variants have an id; `ok` of the code tells them apart.
pub data Reply (SE TE : Type 0) : Type 0 where
  accept : ℕ → OkBody → Reply SE TE
  refuse : ℕ → Message SE TE → Reply SE TE

unfoldable pub unwrap_or {ℓ} : {A : Type ℓ} → Option A → A → A
unwrap_or none d = d
unwrap_or (some a) d = a

-- `existing.iter().position(|&b| b == b'\n')` and the slice from there, or the empty one.
unfoldable pub tail_of : Bytes → Bytes
tail_of [] = []
tail_of (b ∷ bs) = if b == b'\n' then b ∷ bs else tail_of bs

module _ (𝓒 : Crypto) (𝓢 : Storage) (𝓥 : VersionControl) (R : Rng) (L : TotpLibrary)
    (to_lowercase : Text → Text) where
  abbrev pub StoreFailure : Type 0
  StoreFailure = StoreError 𝓒.Error 𝓢.Error 𝓥.Error

  abbrev pub Answer : Type 0
  Answer = Reply StoreFailure L.Error

  -- The store, and the random generator of the thread.
  pub record Session : Type 0 where
    pub store : Store 𝓒 𝓢 𝓥
    pub rng : R.State

  -- A handler always makes a reply, if it returns.
  abbrev pub Handler : Type 0 → Type 0
  Handler A = Exec Session ⊥ A

  -- A fallible call, its result being matched on.
  abbrev pub attempt : {E A : Type 0} → Outcome E A → Outcome ⊥ (E ⊎ A)
  attempt (ok a) = ok (inr a)
  attempt (err e) = ok (inl e)
  attempt abort = abort

  abbrev pub on_store :
      {A : Type 0} → Exec (Store 𝓒 𝓢 𝓥) StoreFailure A → Handler (StoreFailure ⊎ A)
  on_store call s = (attempt (call s.store).0, record s { store = (call s.store).1 })

  abbrev pub on_rng : {A : Type 0} → Exec R.State ⊥ A → Handler A
  on_rng call s = ((call s.rng).0, record s { rng = (call s.rng).1 })

  -- The reply to a store operation.
  abbrev pub answer : {A : Type 0} → ℕ → (A → OkBody) → StoreFailure ⊎ A → Answer
  answer id body (inr a) = accept id (body a)
  answer id body (inl e) = refuse id (store_error e)

  -- `parse_path`, and what its success is handed to.
  abbrev pub with_path : ℕ → Text → (RelPath → Handler Answer) → Handler Answer
  with_path id path handle = do
    parsed ← lift (attempt (RelPath.new path))
    elim parsed [ inl e ↦ pure (refuse id (invalid_path e)) | inr rel ↦ handle rel ]

  -- `parse_optional_path`: an empty subpath is none.
  abbrev pub with_optional_path :
      ℕ → Option Text → (Option RelPath → Handler Answer) → Handler Answer
  with_optional_path id none handle = handle none
  with_optional_path id (some path) handle =
      if is_empty path then handle none else with_path id path (λ rel. handle (some rel))

  abbrev field_answer : ℕ → Text → Option Text → Answer
  field_answer id name (some value) = accept id (field value)
  field_answer id name none = refuse id (no_field name)

  abbrev parsed_answer : ℕ → Text → EntryError ⊎ Entry.Entry → Answer
  parsed_answer id name (inl e) = refuse id (parse_entry e)
  parsed_answer id name (inr parsed) = field_answer id name (Entry.field to_lowercase name parsed)

  unfoldable pub extract_field : ℕ → Bytes → Text → Answer
  extract_field id bytes name = parsed_answer id name (Entry.parse to_lowercase bytes)

  abbrev shown_text : ℕ → Option Text → Answer
  shown_text id none = refuse id not_utf8
  shown_text id (some s) = accept id (plaintext s)

  -- What a request for an entry is answered with, once it is decrypted.
  unfoldable pub shown : ℕ → Option Text → Bytes → Answer
  unfolding extract_field
  shown id none bytes = shown_text id (from_utf8 bytes)
  shown id (some name) bytes = extract_field id bytes name

  abbrev show_answer : ℕ → Option Text → StoreFailure ⊎ Bytes → Answer
  show_answer id name (inl e) = refuse id (store_error e)
  show_answer id name (inr bytes) = shown id name bytes

  abbrev code_answer : ℕ → OtpError L.Error ⊎ Text → Answer
  code_answer id (inl e) = refuse id (totp e)
  code_answer id (inr c) = accept id (code c)

  abbrev otp_text : ℕ → Option Text → Handler Answer
  otp_text id none = pure (refuse id not_utf8)
  otp_text id (some text) = do
    result ← lift (attempt (current_code L text))
    pure (code_answer id result)

  abbrev otp_answer : ℕ → StoreFailure ⊎ Bytes → Handler Answer
  otp_answer id (inl e) = pure (refuse id (store_error e))
  otp_answer id (inr bytes) = otp_text id (from_utf8 bytes)

  -- The rest of `generate_op` in place: what the first line of the entry is replaced by.
  abbrev pub replace_password : ℕ → RelPath → Text → StoreFailure ⊎ Bytes → Handler Answer
  replace_password id rel secret (inl e) = pure (refuse id (store_error e))
  replace_password id rel secret (inr existing) = do
    result ← on_store (Stores.insert 𝓒 𝓢 𝓥 rel (encode secret ++ tail_of existing) true)
    pure (answer id (λ done. password secret) result)

  -- The rest of `generate_op`, with the password.
  abbrev pub stored_reply : ℕ → RelPath → Text → Bool → Bool → Handler Answer
  stored_reply id rel secret true force = do
    existing ← on_store (show 𝓒 𝓢 𝓥 rel)
    replace_password id rel secret existing
  stored_reply id rel secret false force = do
    result ← on_store (Stores.insert 𝓒 𝓢 𝓥 rel (encode secret) force)
    pure (answer id (λ done. password secret) result)

  unfoldable pub generate_op : ℕ → RelPath → Option ℕ → Option Bool → Bool → Bool → Handler Answer
  unfolding unwrap_or tail_of
  generate_op id rel length with_symbols in_place force = do
    secret ← on_rng (generate R (unwrap_or length default_length) (unwrap_or with_symbols true))
    stored_reply id rel secret in_place force

  abbrev remove_op : ℕ → Bool → RelPath → Handler Answer
  remove_op id true rel = do
    result ← on_store (remove_recursive 𝓒 𝓢 𝓥 rel)
    pure (answer id (λ removed. nothing) result)
  remove_op id false rel = do
    result ← on_store (Stores.remove 𝓒 𝓢 𝓥 rel)
    pure (answer id (λ done. nothing) result)

  abbrev texts : List RelPath → OkBody
  texts paths = entries (map (λ p. p.as_str) paths)

  unfoldable pub dispatch_body : ℕ → RequestBody → Handler Answer
  unfolding generate_op shown
  dispatch_body id (ls subpath) =
      with_optional_path id subpath
        (λ sub. do result ← on_store (list 𝓒 𝓢 𝓥 sub); pure (answer id texts result))
  dispatch_body id (find pattern) = do
    result ← on_store (Stores.find 𝓒 𝓢 𝓥 pattern)
    pure (answer id texts result)
  dispatch_body id (show_entry path name) =
      with_path id path
        (λ rel. do result ← on_store (show 𝓒 𝓢 𝓥 rel); pure (show_answer id name result))
  dispatch_body id (insert path text overwrite) = with_path id path (λ rel. do
    result ← on_store (Stores.insert 𝓒 𝓢 𝓥 rel (encode text) overwrite)
    pure (answer id (λ done. nothing) result))
  dispatch_body id (generate_entry path length with_symbols in_place force) =
      with_path id path (λ rel. generate_op id rel length with_symbols in_place force)
  dispatch_body id (otp path) =
      with_path id path (λ rel. do result ← on_store (show 𝓒 𝓢 𝓥 rel); otp_answer id result)
  dispatch_body id (rm path recursive) = with_path id path (λ rel. remove_op id recursive rel)

  unfoldable pub dispatch : Request → Handler Answer
  unfolding dispatch_body
  dispatch req = dispatch_body req.id req.body
