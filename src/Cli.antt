-- ===== src/Cli.antt =====
-- The commands of the command line that work on the store (crates/bypass-cli/src/main.rs). The
-- clipboard is a parameter; what is printed is kept as a list. The text of an error, and of a message
-- to the user, is represented by what it names. The id of a commit is ASCII.
pub mod Tree
pub mod Git
pub mod Rotation
pub mod Backup
pub mod Restore
use bypass.Prelude.{
  ℕ, ◌⊎◌, inl, inr, Bool, true, false, not, Option, none, some, List, [], ◌∷◌, ◌++◌, Outcome, ok,
  err, abort, map_err, ok_or, to_option, returned, ◌==◌, if◌then◌else◌, is_empty, map,
}
use bypass.Exec.{Exec, pure, raise, lift, ◌>>=◌, ◌>>◌}
use bypass.Text.{Text, Bytes, codes, strip_prefix}
use bypass.Text.Utf8.{encode, from_utf8}
use bypass.RelPath
use bypass.RelPath.{RelPath, PathError}
use bypass.Crypto.{Crypto}
use bypass.Storage.{Storage}
use bypass.Vcs.{VersionControl, Commit}
use bypass.Store as Stores
use bypass.Store.{Store, StoreError, list, show, remove_recursive, copy, rename}
use bypass.Entry
use bypass.Entry.{EntryError}
use bypass.Generate.{Rng, generate, default_length}
use bypass.Otp.{OtpError, TotpLibrary, current_code}
use bypass.Host.{tail_of, unwrap_or}
use bypass.Cli.Tree.{render}

-- What the commands say on standard error when they are done.
pub data Notice : Type 0 where
  added updated removed rotated : RelPath → Notice
  copied renamed : RelPath → RelPath → Notice
  no_match : Text → Notice

-- What a command shows: bytes on standard output, a notice, or a copy on the clipboard.
pub data Shown : Type 0 where
  out : Bytes → Shown
  notice : Notice → Shown
  clipped : Bytes → Shown

-- `SE` is the store's error, `TE` that of totp_rs, and `XE` that of the clipboard.
pub data CliError (SE TE XE : Type 0) : Type 0 where
  invalid_path : PathError → CliError SE TE XE
  store_error : SE → CliError SE TE XE
  nothing_to_insert : Text → CliError SE TE XE
  parse_entry : EntryError → CliError SE TE XE
  no_field : Text → CliError SE TE XE
  not_utf8 : CliError SE TE XE
  totp : OtpError TE → CliError SE TE XE
  clipboard : XE → CliError SE TE XE

-- The bytes before the first newline.
unfoldable pub first_line : Bytes → Bytes
first_line [] = []
first_line (b ∷ bs) = if b == b'\n' then [] else b ∷ first_line bs

unfoldable pub ends_in_newline : Bytes → Bool
ends_in_newline [] = false
ends_in_newline (b ∷ []) = b == b'\n'
ends_in_newline (b ∷ (c ∷ bs)) = ends_in_newline (c ∷ bs)

module _ (𝓒 : Crypto) (𝓢 : Storage) (𝓥 : VersionControl) (R : Rng) (L : TotpLibrary)
    (to_lowercase : Text → Text) (XE : Type 0) (copy_and_auto_clear : Bytes → XE ⊎ (Unit {0})) where
  abbrev pub StoreFailure : Type 0
  StoreFailure = StoreError 𝓒.Error 𝓢.Error 𝓥.Error

  abbrev pub Error : Type 0
  Error = CliError StoreFailure L.Error XE

  pub record Terminal : Type 0 where
    pub store : Store 𝓒 𝓢 𝓥
    pub rng : R.State
    pub shown : List Shown

  abbrev pub Command : Type 0 → Type 0
  Command A = Exec Terminal Error A

  abbrev pub on_store : {A : Type 0} → Exec (Store 𝓒 𝓢 𝓥) StoreFailure A → Command A
  on_store call t = (map_err store_error (call t.store).0, record t { store = (call t.store).1 })

  -- The random generator has no errors.
  abbrev pub no_error : {A : Type 0} → Outcome ⊥ A → Outcome Error A
  no_error (ok a) = ok a
  no_error (err e) = absurd e
  no_error abort = abort

  abbrev pub on_rng : {A : Type 0} → Exec R.State ⊥ A → Command A
  on_rng call t = (no_error (call t.rng).0, record t { rng = (call t.rng).1 })

  abbrev pub put : Shown → Command (Unit {0})
  put s t = (ok tt, record t { shown = t.shown ++ s ∷ [] })

  abbrev pub to_clipboard : Bytes → Command (Unit {0})
  to_clipboard bytes = do
    lift (map_err clipboard (returned (copy_and_auto_clear bytes)))
    put (clipped bytes)

  -- `println!`
  abbrev pub print_line : Text → Command (Unit {0})
  print_line s = put (out (encode s ++ b'\n' ∷ []))

  -- `parse_entry` of the code.
  abbrev pub parse_path : Text → Command RelPath
  parse_path s = lift (map_err invalid_path (RelPath.new s))

  unfoldable pub otp_command : Text → Bool → Command ℕ
  otp_command path clip = do
    entry ← parse_path path
    plaintext ← on_store (show 𝓒 𝓢 𝓥 entry)
    text ← lift (ok_or (from_utf8 plaintext) not_utf8)
    code ← lift (map_err totp (current_code L text))
    if clip then to_clipboard (encode code) else print_line code
    pure 0

  abbrev pub short_id : Commit → Text
  short_id c = first_seven c.id
    where
      first_seven : Text → Text
      first_seven (a ∷ (b ∷ (d ∷ (e ∷ (f ∷ (g ∷ (h ∷ rest))))))) = a ∷ b ∷ d ∷ e ∷ f ∷ g ∷ h ∷ []
      first_seven id = id

  abbrev pub print_commits : List Commit → Command (Unit {0})
  print_commits [] = pure tt
  print_commits (c ∷ cs) = do print_line (short_id c ++ (codes " " ++ c.summary)); print_commits cs

  abbrev pub optional_path : Option Text → Command (Option RelPath)
  optional_path none = pure none
  optional_path (some s) = do p ← parse_path s; pure (some p)

  unfoldable pub log_command : Option Text → Command ℕ
  log_command path = do
    entry ← optional_path path
    commits ← on_store (Stores.log 𝓒 𝓢 𝓥 entry)
    print_commits commits
    pure 0

  -- `plaintext` is what `read_secret_from_stdin` has read.
  unfoldable pub insert_command : Text → Bytes → Bool → Command ℕ
  insert_command path plaintext force = do
    entry ← parse_path path
    if is_empty plaintext then raise (nothing_to_insert path) else do
      on_store (Stores.insert 𝓒 𝓢 𝓥 entry plaintext force)
      put (notice (if force then updated entry else added entry))
      pure 0

  abbrev pub field_bytes : Text → Option Text → Outcome Error Bytes
  field_bytes name none = err (no_field name)
  field_bytes name (some value) = ok (encode value)

  abbrev pub parsed_field : Text → EntryError ⊎ Entry.Entry → Outcome Error Bytes
  parsed_field name (inl e) = err (parse_entry e)
  parsed_field name (inr parsed) = field_bytes name (Entry.field to_lowercase name parsed)

  -- The whole entry, or the value of a field.
  abbrev pub selected : Option Text → Bytes → Outcome Error Bytes
  selected none plaintext = ok plaintext
  selected (some name) plaintext = parsed_field name (Entry.parse to_lowercase plaintext)

  abbrev pub clip_part : Option Text → Bytes → Bytes
  clip_part none output = first_line output
  clip_part (some name) output = output

  abbrev pub with_newline : Bytes → Bytes
  with_newline output = if ends_in_newline output then output else output ++ b'\n' ∷ []

  unfoldable pub show_command : Text → Option Text → Bool → Command ℕ
  unfolding first_line ends_in_newline
  show_command path field clip = do
    entry ← parse_path path
    plaintext ← on_store (show 𝓒 𝓢 𝓥 entry)
    output ← lift (selected field plaintext)
    if clip then to_clipboard (clip_part field output) else put (out (with_newline output))
    pure 0

  abbrev pub keep_ok : Option RelPath → List RelPath → List RelPath
  keep_ok none rest = rest
  keep_ok (some p) rest = p ∷ rest

  abbrev pub stripped : Option Text → Option RelPath
  stripped none = none
  stripped (some s) = to_option (RelPath.new s)

  -- The entries below the directory, relative to it.
  unfoldable pub below : Text → List RelPath → List RelPath
  below prefix [] = []
  below prefix (e ∷ es) = keep_ok (stripped (strip_prefix e.as_str prefix)) (below prefix es)

  abbrev pub listing : Option RelPath → List RelPath → Text
  listing none entries = render entries (codes "Password Store")
  listing (some p) entries = render (below (p.as_str ++ codes "/") entries) (p.as_str ++ codes "/")

  unfoldable pub ls_command : Option Text → Command ℕ
  unfolding below
  ls_command subpath = do
    sub ← optional_path subpath
    entries ← on_store (list 𝓒 𝓢 𝓥 sub)
    put (out (encode (listing sub entries)))
    pure 0

  abbrev pub print_entries : List RelPath → Command (Unit {0})
  print_entries [] = pure tt
  print_entries (e ∷ es) = do print_line e.as_str; print_entries es

  unfoldable pub find_command : Text → Command ℕ
  find_command pattern = do
    entries ← on_store (Stores.find 𝓒 𝓢 𝓥 pattern)
    if is_empty entries
        then (do put (notice (no_match pattern)); pure 1)
        else (do print_entries entries; pure 0)

  abbrev pub note_removed : List RelPath → Command (Unit {0})
  note_removed [] = pure tt
  note_removed (e ∷ es) = do put (notice (removed e)); note_removed es

  unfoldable pub rm_command : Text → Bool → Command ℕ
  rm_command path recursive = do
    target ← parse_path path
    if recursive
        then (do entries ← on_store (remove_recursive 𝓒 𝓢 𝓥 target); note_removed entries)
        else (do on_store (Stores.remove 𝓒 𝓢 𝓥 target); put (notice (removed target)))
    pure 0

  abbrev pub store_password : RelPath → Text → Bool → Bool → Command (Unit {0})
  store_password entry secret true force = do
    existing ← on_store (show 𝓒 𝓢 𝓥 entry)
    on_store (Stores.insert 𝓒 𝓢 𝓥 entry (encode secret ++ tail_of existing) true)
  store_password entry secret false force =
      on_store (Stores.insert 𝓒 𝓢 𝓥 entry (encode secret) force)

  -- What is shown of a new password.
  abbrev pub report_password : RelPath → Text → Bool → Bool → Bool → Command ℕ
  report_password entry secret in_place force clip = do
    if clip then to_clipboard (encode secret) else print_line secret
    put (notice (if in_place then rotated entry else if force then updated entry else added entry))
    pure 0

  unfoldable pub generate_command : Text → Option ℕ → Bool → Bool → Bool → Bool → Command ℕ
  unfolding tail_of unwrap_or
  generate_command path length no_symbols in_place force clip = do
    entry ← parse_path path
    secret ← on_rng (generate R (unwrap_or length default_length) (not no_symbols))
    store_password entry secret in_place force
    report_password entry secret in_place force clip

  unfoldable pub cp_command : Text → Text → Bool → Command ℕ
  cp_command from to force = do
    from_entry ← parse_path from
    to_entry ← parse_path to
    on_store (copy 𝓒 𝓢 𝓥 from_entry to_entry force)
    put (notice (copied from_entry to_entry))
    pure 0

  unfoldable pub mv_command : Text → Text → Bool → Command ℕ
  mv_command from to force = do
    from_entry ← parse_path from
    to_entry ← parse_path to
    on_store (rename 𝓒 𝓢 𝓥 from_entry to_entry force)
    put (notice (renamed from_entry to_entry))
    pure 0
