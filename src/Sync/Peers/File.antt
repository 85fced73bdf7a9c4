-- ===== src/Sync/Peers/File.antt =====
-- The file of the pinned peers (`load` and `save` of crates/bypass-cli/src/sync/peers.rs) on a file
-- system. The toml library and the process id are parameters.
use bypass.Prelude.{
  ℕ, ◌⊎◌, inl, inr, ◌≡◌, ◌≢◌, refl, true, Option, none, some, List, [], ◌++◌, Outcome, ok, err,
  abort, map_err, returned, if◌then◌else◌, All, Bool-cases, arith,
}
use bypass.Exec.{Exec, lift, continue, ◌>>=◌, ◌>>◌}
use bypass.Text.{Text, Bytes, codes}
use bypass.Text.Utf8.{encode, from_utf8, from_utf8-encode, is_scalar}
use bypass.Fs.{FileSystem, or_dot, make_parent, place}
use bypass.Fs.Atomic.{IsFileSystem, place-IsAtomic}
use bypass.Sync.Peers.{PeerRecord, Peers}

-- The toml library at the list of peers.
pub record PeersToml : Type 1 where
  pub SerError : Type 0
  pub DeError : Type 0
  pub to_string_pretty : List PeerRecord → SerError ⊎ Text
  pub from_str : Text → DeError ⊎ List PeerRecord

pub data PeersError (F : FileSystem) (T : PeersToml) : Type 0 where
  io_error : F.FilePath → F.Error → PeersError F T
  not_utf8 : PeersError F T
  parse_error : T.DeError → PeersError F T
  serialise_error : T.SerError → PeersError F T

module _ (F : FileSystem) (T : PeersToml) where
  abbrev pub parsed : T.DeError ⊎ List PeerRecord → Outcome (PeersError F T) Peers
  parsed (inl e) = err (parse_error e)
  parsed (inr peers) = ok (record { peers = peers })

  abbrev pub parse_text : Option Text → Outcome (PeersError F T) Peers
  parse_text none = err not_utf8
  parse_text (some text) = parsed (T.from_str text)

  -- A file that is not there is an empty table.
  abbrev pub loaded : F.FilePath → F.Error ⊎ Bytes → Outcome (PeersError F T) Peers
  loaded at (inl e) = if F.is_not_found e then ok (record { peers = [] }) else err (io_error at e)
  loaded at (inr bytes) = parse_text (from_utf8 bytes)

  unfoldable pub load : F.FilePath → F.State → Outcome (PeersError F T) Peers
  load at s = loaded at (F.read s at)

  abbrev pub or_default : Option Text → Text
  or_default none = codes "peers.toml"
  or_default (some name) = name

  module _ (decimal : ℕ → Text) (pid : ℕ) where
    unfoldable pub tmp_path : F.FilePath → F.FilePath
    tmp_path at =
        F.join (or_dot F (F.parent at))
          (codes "." ++ (or_default (F.file_name at) ++ (codes ".tmp." ++ decimal pid)))

    unfoldable pub save : F.FilePath → Peers → Exec F.State (PeersError F T) (Unit {0})
    unfolding tmp_path
    save at table = do
      make_parent F io_error (F.parent at)
      text ← lift (map_err serialise_error (returned (T.to_string_pretty table.peers)))
      place F io_error at (tmp_path at) (encode text)

-- What toml promises: a table that is written is read back, and what is written is text.
pub record IsPeersToml (T : PeersToml) : Type 0 where
  pub from_str-to_string_pretty :
      (peers : List PeerRecord) (text : Text)
      → T.to_string_pretty peers ≡ inr text
      → (T.from_str text ≡ inr peers) × All (λ c. is_scalar c ≡ true) text

module _ (F : FileSystem) (laws : IsFileSystem F) (T : PeersToml) (toml : IsPeersToml T)
    (at : F.FilePath) (table : Peers) where
  -- What a file with the content of a table is loaded as.
  Loads : Outcome (PeersError F T) Peers → Type 0
  Loads r = (r ≡ ok table) ⊎ ((e : F.Error) × (r ≡ err (io_error at e)))

  read-Loads :
      (s : F.State) (text : Text) (r : F.Error ⊎ Bytes)
      → F.read s at ≡ r
      → laws.content s at ≡ some (encode text)
      → T.to_string_pretty table.peers ≡ inr text
      → Loads (loaded F T at r)
  unfolding Loads
  read-Loads s text (inl e) result filled written = elim (Bool-cases (F.is_not_found e)) [
    | inl y ↦ let gone = laws.read_not_found s at e result y in absurd (let no : ⊥ = cc in no)
    | inr n ↦ rw n (inr (e, refl))
  ]
  read-Loads s text (inr bytes) result filled written =
      let (read_back, scalars) = toml.from_str-to_string_pretty table.peers text written in
      let same : bytes ≡ encode text = ground (arith, laws.read_ok s at bytes result, filled) in
      rw (same, from_utf8-encode text scalars, read_back) (inl refl)

  module _ (decimal : ℕ → Text) (pid : ℕ) (ne : tmp_path F T decimal pid at ≢ at) where
    -- `save` behind the directory, from what toml gives.
    abbrev behind :
        T.SerError ⊎ Text
        → Outcome (PeersError F T) (Unit {0})
        → F.State
        → Outcome (PeersError F T) (Unit {0}) × F.State
    behind written r t =
        continue
          (λ u. lift (map_err serialise_error (returned written)) >>= λ text.
            place F io_error at (tmp_path F T decimal pid at) (encode text))
          r t

    load-behind :
        (written : T.SerError ⊎ Text) (r : Outcome (PeersError F T) (Unit {0})) (t : F.State)
        → T.to_string_pretty table.peers ≡ written
        → (behind written r t).0 ≡ ok tt
        → Loads (load F T at (behind written r t).1)
    unfolding load
    load-behind (inr text) (ok u) t e returns =
        let after = (place F io_error at (tmp_path F T decimal pid at) (encode text) t).1 in
        let atomic =
          place-IsAtomic F laws io_error at (tmp_path F T decimal pid at) (encode text) ne t t
            (λ q. refl) in
        read-Loads after text (F.read after at) refl (atomic.1 returns) e
    load-behind (inl x) (ok u) t e returns = cc
    load-behind written (err x) t e returns = cc
    load-behind written abort t e returns = cc

    -- Given what std::fs and toml promise, and a temporary path that is not that of the file:
    -- after a `save` that returns ok, `load` gives the table that was saved, or fails to read the
    -- file.
    pub load-save :
        (s : F.State)
        → (save F T decimal pid at table s).0 ≡ ok tt
        → (load F T at (save F T decimal pid at table s).1 ≡ ok table)
          ⊎ ((e : F.Error) × (load F T at (save F T decimal pid at table s).1
                ≡ err (io_error at e)))
    unfolding save Loads
    load-save s returns =
        let made = make_parent F io_error (F.parent at) s in
        load-behind (T.to_string_pretty table.peers) made.0 made.1 refl returns
