-- ===== src/Sync/Peers.antt =====
-- The table of pinned peers (crates/bypass-cli/src/sync/peers.rs), without its file. The base58 text
-- of a peer id is a parameter.
pub mod Table
pub mod File
use bypass.Prelude.{
  ◌≡◌, ◌≢◌, refl, ◌∙◌, sym, ap, inl, inr, Bool, true, false, Option, none, some, List, [], ◌∷◌,
  ◌++◌, arith, if◌then◌else◌, is_empty, Bool-cases, map, In,
}
use bypass.Text.{Text, text_eq}
use bypass.Text.Laws.{text_eq_iff, text_eq_refl, text_eq-false}

pub record PeerRecord : Type 0 where
  pub name : Text
  pub peer_id : Text
  pub noise_static_key : Text
  pub paired_at : Text

pub record Peers : Type 0 where
  pub peers : List PeerRecord

-- `find` of an iterator.
unfoldable pub find_record : (PeerRecord → Bool) → List PeerRecord → Option PeerRecord
find_record p [] = none
find_record p (r ∷ rs) = if p r then some r else find_record p rs

unfoldable pub find : {PeerId : Type 0} → (PeerId → Text) → PeerId → Peers → Option PeerRecord
find to_base58 peer_id table = find_record (λ r. text_eq r.peer_id (to_base58 peer_id)) table.peers

unfoldable pub find_by_name : Text → Peers → Option PeerRecord
find_by_name name table = find_record (λ r. text_eq r.name name) table.peers

-- The records with the first one of the same id replaced, or the new one at the end; and whether it
-- was new.
unfoldable pub upsert_records : PeerRecord → List PeerRecord → Bool × List PeerRecord
upsert_records record_ [] = (true, record_ ∷ [])
upsert_records record_ (r ∷ rs) =
    let rest = upsert_records record_ rs in
    if text_eq r.peer_id record_.peer_id then (false, record_ ∷ rs) else (rest.0, r ∷ rest.1)

unfoldable pub upsert : PeerRecord → Peers → Bool × Peers
unfolding upsert_records
upsert new_record table = (
  (upsert_records new_record table.peers).0,
  record { peers = (upsert_records new_record table.peers).1 },
)

abbrev pub skip :
    PeerRecord → Option (PeerRecord × List PeerRecord) → Option (PeerRecord × List PeerRecord)
skip r none = none
skip r (some (found, rest)) = some (found, r ∷ rest)

-- The first record with the name, and the others.
unfoldable pub take_record : Text → List PeerRecord → Option (PeerRecord × List PeerRecord)
take_record name [] = none
take_record name (r ∷ rs) =
    let rest = take_record name rs in if text_eq r.name name then some (r, rs) else skip r rest

abbrev pub taken : Peers → Option (PeerRecord × List PeerRecord) → Option PeerRecord × Peers
taken table none = (none, table)
taken table (some (found, rest)) = (some found, record { peers = rest })

unfoldable pub remove : Text → Peers → Option PeerRecord × Peers
unfolding take_record
remove name table = taken table (take_record name table.peers)

unfoldable pub clear : Peers → Peers
clear table = record { peers = [] }
