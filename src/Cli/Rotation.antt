-- ===== src/Cli/Rotation.antt =====
-- The command `generate` and the request to generate of the native-messaging host change the store
-- alike (crates/bypass-cli/src/main.rs and crates/bypass-cli/src/messaging_host.rs).
use bypass.Prelude.{
  ℕ, ◌≡◌, refl, ◌∙◌, sym, ◌⊎◌, Bool, true, false, not, Option, some, List, ◌++◌, Outcome, ok, err,
  abort, map_err, returned,
}
use bypass.Exec.{pure, ◌>>◌, continue, continue_lem}
use bypass.Text.{Text, Bytes}
use bypass.Text.Utf8.{encode}
use bypass.RelPath
use bypass.RelPath.{RelPath}
use bypass.Crypto.{Crypto}
use bypass.Storage.{Storage}
use bypass.Vcs.{VersionControl}
use bypass.Generate.{Rng, generate, default_length}
use bypass.Otp.{TotpLibrary}
use bypass.Store.{Store, StoreError, show, insert}
use bypass.Host.{
  Session, attempt, answer, password, stored_reply, generate_op, replace_password, unwrap_or,
  tail_of,
}
use bypass.Cli.{
  Terminal, Shown, Error, no_error, on_store, to_clipboard, clipboard, store_error,
  generate_command, store_password, report_password,
}

module _ (𝓒 : Crypto) (𝓢 : Storage) (𝓥 : VersionControl) (R : Rng) (L : TotpLibrary)
    (to_lowercase : Text → Text) (XE : Type 0) (copy_and_auto_clear : Bytes → XE ⊎ (Unit {0})) where
  -- What is shown does not change the store.
  report_password_store :
      (entry : RelPath) (secret : Text) (in_place force clip : Bool)
      (t : Terminal 𝓒 𝓢 𝓥 R L to_lowercase XE copy_and_auto_clear)
      → (report_password 𝓒 𝓢 𝓥 R L to_lowercase XE copy_and_auto_clear entry secret in_place force
          clip t).1.store
        ≡ t.store
  report_password_store entry secret in_place force true t =
      let copied : (to_clipboard 𝓒 𝓢 𝓥 R L to_lowercase XE copy_and_auto_clear (encode secret)
            t).1.store
          ≡ t.store =
        continue_lem (λ u. u.store ≡ t.store) _
          (map_err clipboard (returned (copy_and_auto_clear (encode secret)))) t (λ _ _. refl)
          refl in
      let after = to_clipboard 𝓒 𝓢 𝓥 R L to_lowercase XE copy_and_auto_clear (encode secret) t in
      continue_lem (λ u. u.store ≡ t.store) _ after.0 after.1 (λ _ _. copied) copied
  report_password_store entry secret in_place force false t = refl

  reported_store :
      (entry : RelPath) (secret : Text) (in_place force clip : Bool)
      (r : Outcome (Error 𝓒 𝓢 𝓥 R L to_lowercase XE copy_and_auto_clear) (Unit {0}))
      (t : Terminal 𝓒 𝓢 𝓥 R L to_lowercase XE copy_and_auto_clear)
      → (continue
          (λ done.
            report_password 𝓒 𝓢 𝓥 R L to_lowercase XE copy_and_auto_clear entry secret in_place
              force clip)
          r
          t).1.store
        ≡ t.store
  reported_store entry secret in_place force clip r t =
      continue_lem (λ u. u.store ≡ t.store) _ r t
        (λ done e. report_password_store entry secret in_place force clip t) refl

  abbrev terminal :
      Store 𝓒 𝓢 𝓥 → R.State → List Shown → Terminal 𝓒 𝓢 𝓥 R L to_lowercase XE copy_and_auto_clear
  terminal store rng shown = record { store = store; rng = rng; shown = shown }

  abbrev session : Store 𝓒 𝓢 𝓥 → R.State → Session 𝓒 𝓢 𝓥 R L to_lowercase
  session store rng = record { store = store; rng = rng }

  -- A reply does not change the store.
  replied_store :
      {A B : Type 0} (f : A → B) (r : Outcome ⊥ A) (s : Session 𝓒 𝓢 𝓥 R L to_lowercase)
      → (continue (λ a. pure (f a)) r s).1.store ≡ s.store
  replied_store f r s =
      continue_lem (λ u. u.store ≡ s.store) (λ a. pure (f a)) r s (λ _ _. refl) refl

  module _ (rel : RelPath) (id : ℕ) (secret : Text) (rng : R.State) (shown : List Shown) where
    -- What follows the reading of the entry, in place.
    replaced_store :
        (r : Outcome (StoreError 𝓒.Error 𝓢.Error 𝓥.Error) Bytes) (store : Store 𝓒 𝓢 𝓥)
        → (continue
            (λ existing.
              on_store 𝓒 𝓢 𝓥 R L to_lowercase XE copy_and_auto_clear
                (insert 𝓒 𝓢 𝓥 rel (encode secret ++ tail_of existing) true))
            (map_err store_error r)
            (terminal store rng shown)).1.store
          ≡ (continue
              (replace_password 𝓒 𝓢 𝓥 R L to_lowercase id rel secret)
              (attempt 𝓒 𝓢 𝓥 R L to_lowercase r)
              (session store rng)).1.store
    replaced_store (ok existing) store = sym (replied_store _ _ _)
    replaced_store (err e) store = refl
    replaced_store abort store = refl

    -- A password is stored alike.
    stored_alike :
        (in_place force clip : Bool) (store : Store 𝓒 𝓢 𝓥)
        → (continue
            (λ done.
              report_password 𝓒 𝓢 𝓥 R L to_lowercase XE copy_and_auto_clear rel secret in_place
                force clip)
            (store_password 𝓒 𝓢 𝓥 R L to_lowercase XE copy_and_auto_clear rel secret in_place force
              (terminal store rng shown)).0
            (store_password 𝓒 𝓢 𝓥 R L to_lowercase XE copy_and_auto_clear rel secret in_place force
              (terminal store rng shown)).1).1.store
          ≡ (stored_reply 𝓒 𝓢 𝓥 R L to_lowercase id rel secret in_place force
              (session store rng)).1.store
    stored_alike true force clip store =
        let done =
          store_password 𝓒 𝓢 𝓥 R L to_lowercase XE copy_and_auto_clear rel secret true force
            (terminal store rng shown) in
        reported_store rel secret true force clip done.0 done.1
        ∙ replaced_store (show 𝓒 𝓢 𝓥 rel store).0 (show 𝓒 𝓢 𝓥 rel store).1
    stored_alike false force clip store =
        let done =
          store_password 𝓒 𝓢 𝓥 R L to_lowercase XE copy_and_auto_clear rel secret false force
            (terminal store rng shown) in
        let (r, after) = insert 𝓒 𝓢 𝓥 rel (encode secret) force store in
        reported_store rel secret false force clip done.0 done.1
        ∙ sym (
            replied_store (answer 𝓒 𝓢 𝓥 R L to_lowercase id (λ done. password secret))
              (attempt 𝓒 𝓢 𝓥 R L to_lowercase r) (session after rng))

  -- A password is drawn, and then stored alike.
  drawn_alike :
      (rel : RelPath) (id : ℕ) (rng : R.State) (shown : List Shown) (in_place force clip : Bool)
      (store : Store 𝓒 𝓢 𝓥) (r : Outcome ⊥ Text)
      → (continue
          (λ s. do
            store_password 𝓒 𝓢 𝓥 R L to_lowercase XE copy_and_auto_clear rel s in_place force
            report_password 𝓒 𝓢 𝓥 R L to_lowercase XE copy_and_auto_clear rel s in_place force clip)
          (no_error 𝓒 𝓢 𝓥 R L to_lowercase XE copy_and_auto_clear r)
          (terminal store rng shown)).1.store
        ≡ (continue
            (λ s. stored_reply 𝓒 𝓢 𝓥 R L to_lowercase id rel s in_place force)
            r
            (session store rng)).1.store
  drawn_alike rel id rng shown in_place force clip store (ok s) =
      stored_alike rel id s rng shown in_place force clip store
  drawn_alike rel id rng shown in_place force clip store (err e) = absurd e
  drawn_alike rel id rng shown in_place force clip store abort = refl

  -- For one path, one length and one choice of symbols, from the same store and the same random
  -- numbers: the command `generate` and the request to generate of the native-messaging host leave
  -- the same store, in place or not, forced or not, and whether or not a step fails.
  pub generate_command-generate_op :
      (path : Text) (rel : RelPath) (id : ℕ) (length : Option ℕ)
      (no_symbols in_place force clip : Bool) (shown : List Shown) (store : Store 𝓒 𝓢 𝓥)
      (rng : R.State)
      → RelPath.new path ≡ ok rel
      → (generate_command 𝓒 𝓢 𝓥 R L to_lowercase XE copy_and_auto_clear path length no_symbols
          in_place force clip
          (record { store = store; rng = rng; shown = shown })).1.store
        ≡ (generate_op 𝓒 𝓢 𝓥 R L to_lowercase id rel length
            (some (not no_symbols))
            in_place
            force
            (record { store = store; rng = rng })).1.store
  unfolding generate_command generate_op unwrap_or
  generate_command-generate_op path rel id length no_symbols in_place force clip shown store rng e =
      let (drawn, rest) =
        generate R {E = ⊥} (unwrap_or length default_length) (not no_symbols) rng in
      rw e (drawn_alike rel id rest shown in_place force clip store drawn)
