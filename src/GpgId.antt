-- ===== src/GpgId.antt =====
-- Resolution of the recipients of an entry by the nearest `.gpg-id` file
-- (crates/bypass-core/src/gpg_id.rs).
pub mod Nearest
pub mod Unchanged
pub mod Parse
use bypass.Prelude.{
  ℕ, zero, suc, ◌≡◌, Bool, ◌&&◌, not, Option, none, some, List, [], ◌∷◌, Outcome, ok, err, abort,
  ◌>>=◌, map_err, ok_or, expect, if◌then◌else◌, length, map, is_empty,
}
use bypass.Text.{Text, Bytes, codes, lines, trim, starts_with}
use bypass.Text.Utf8.{from_utf8}
use bypass.RelPath
use bypass.RelPath.{RelPath, parent}
use bypass.Crypto.{KeyId}
use bypass.Storage.{Storage}

pub data GpgIdError (E : Type 0) : Type 0 where
  missing empty not_utf8 : GpgIdError E
  storage : E → GpgIdError E

-- The test of `filter` in `parse_gpg_id`.
abbrev pub is_recipient : Text → Bool
is_recipient line = not (is_empty line) && not (starts_with line (codes "#"))

abbrev pub filter_by : (Text → Bool) → List Text → List Text
filter_by p [] = []
filter_by p (x ∷ xs) = if p x then x ∷ filter_by p xs else filter_by p xs

abbrev pub key_id : Text → KeyId
key_id s = record { as_str = s }

unfoldable pub parse_gpg_id : {E : Type 0} → Bytes → Outcome (GpgIdError E) (List KeyId)
parse_gpg_id bytes = do
  text ← ok_or (from_utf8 bytes) not_utf8
  let recipients = map key_id (filter_by is_recipient (map trim (lines text)))
  if is_empty recipients then err empty else ok recipients

unfoldable pub gpg_id_path : {E : Type 0} → Option RelPath → Outcome E RelPath
gpg_id_path none = expect (RelPath.new (codes ".gpg-id"))
gpg_id_path (some p) = expect (RelPath.join p (codes ".gpg-id"))

module _ (𝓢 : Storage) (s : 𝓢.State) where
  -- The loop of `resolve_recipients`, on fuel.
  resolve_from : ℕ → Option RelPath → Outcome (GpgIdError 𝓢.Error) (List KeyId)
  resolve_from zero current = abort
  resolve_from (suc fuel) current = do
    path ← gpg_id_path current
    found ← map_err storage (𝓢.read s path)
    elim found [
      | some bytes ↦ parse_gpg_id bytes
      | none ↦ elim current [ none ↦ err missing | some p ↦ resolve_from fuel (parent p) ]
    ]

  unfoldable pub resolve_recipients : RelPath → Outcome (GpgIdError 𝓢.Error) (List KeyId)
  unfolding resolve_from
  resolve_recipients entry = resolve_from (suc (length entry.as_str)) (parent entry)
