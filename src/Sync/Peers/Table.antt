-- ===== src/Sync/Peers/Table.antt =====
-- The peers table as a map from ids to records (crates/bypass-cli/src/sync/peers.rs).
use bypass.Prelude.{
  ◌≡◌, refl, ◌∙◌, inl, inr, Bool, not, none, some, List, [], ◌∷◌, arith, if◌then◌else◌, Bool-cases,
}
use bypass.Text.{Text, text_eq, is_some}
use bypass.Text.Laws.{text_eq_iff, text_eq_sym}
use bypass.Sync.Peers.{PeerRecord, Peers, find_record, find, upsert_records, upsert}

abbrev has_id : Text → PeerRecord → Bool
has_id id r = text_eq r.peer_id id

-- No two records have the same id.
abbrev pub IsUnique : List PeerRecord → Type 0
IsUnique [] = Unit
IsUnique (r ∷ rs) = (find_record (has_id r.peer_id) rs ≡ none) × IsUnique rs

find-upsert_records :
    (id : Text) (new : PeerRecord) (rs : List PeerRecord)
    → find_record (has_id id) (upsert_records new rs).1
      ≡ (if text_eq new.peer_id id then some new else find_record (has_id id) rs)
unfolding find_record upsert_records
find-upsert_records id new [] = refl
find-upsert_records id new (r ∷ rs) = ground (
  arith,
  find-upsert_records id new rs,
  text_eq_iff r.peer_id new.peer_id,
  text_eq_iff r.peer_id id,
  text_eq_iff new.peer_id id,
)

upsert_records-new :
    (new : PeerRecord) (rs : List PeerRecord)
    → (upsert_records new rs).0 ≡ not (is_some (find_record (has_id new.peer_id) rs))
unfolding find_record upsert_records
upsert_records-new new [] = refl
upsert_records-new new (r ∷ rs) = ground (arith, upsert_records-new new rs)

upsert_records-IsUnique :
    (new : PeerRecord) (rs : List PeerRecord) → IsUnique rs → IsUnique (upsert_records new rs).1
unfolding find_record upsert_records
upsert_records-IsUnique new [] h = (refl, tt)
upsert_records-IsUnique new (r ∷ rs) (fresh, h) =
    elim (Bool-cases (text_eq r.peer_id new.peer_id)) [
      | inl e ↦ rw e (rw ((text_eq_iff r.peer_id new.peer_id).0 e) at fresh, h)
      | inr e ↦ rw e (
        find-upsert_records r.peer_id new rs ∙ rw (text_eq_sym new.peer_id r.peer_id, e) fresh,
        upsert_records-IsUnique new rs h,
      )
    ]

-- In a table whose ids are unique: after `upsert`, the record's own id finds the record and every
-- other id what it found before; the result says whether the id was unknown; and ids stay unique.
pub find-upsert :
    {PeerId : Type 0} (to_base58 : PeerId → Text) (id : PeerId) (new : PeerRecord) (table : Peers)
    → IsUnique table.peers
    → (find to_base58 id (upsert new table).1
        ≡ (if text_eq new.peer_id (to_base58 id) then some new else find to_base58 id table))
      × ((upsert new table).0
          ≡ not (is_some (find_record (λ r. text_eq r.peer_id new.peer_id) table.peers)))
      × IsUnique (upsert new table).1.peers
unfolding find upsert
find-upsert to_base58 id new table unique = (
  find-upsert_records (to_base58 id) new table.peers,
  upsert_records-new new table.peers,
  upsert_records-IsUnique new table.peers unique,
)
