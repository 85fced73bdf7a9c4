-- ===== src/GpgId/Unchanged.antt =====
-- The files that `resolve_recipients` (crates/bypass-core/src/gpg_id.rs) reads, and the blobs of entries.
use bypass.Prelude.{
  ℕ, ◌≡◌, ◌≢◌, refl, sym, ap, ◌∙◌, Option, none, some, List, [], ◌∷◌, ◌++◌, arith, inl, inr,
  List-cases,
}
use bypass.Text
use bypass.Text.{Text, Bytes, codes}
use bypass.RelPath.{RelPath, IsValid, segments}
use bypass.Storage.{Storage, IsBlobMap}
use bypass.GpgId.{resolve_recipients}
use bypass.GpgId.Nearest.{
  ancestors, gpg_id_in, first_blob, recipients_in, join-concat, resolve_recipients_nearest,
}
use bypass.Store.Blobs.RoundTrip.{blob_of}

last : Text → Option ℕ
last [] = none
last (c ∷ []) = some c
last (c ∷ (d ∷ s)) = last (d ∷ s)

last-append : (s t : Text) (c : ℕ) → last (s ++ c ∷ t) ≡ last (c ∷ t)
unfolding last
last-append [] t c = refl
last-append (a ∷ []) t c = refl
last-append (a ∷ (b ∷ s)) t c = last-append (b ∷ s) t c

last-gpg_id_in : (dir : List Text) → last (gpg_id_in dir).as_str ≡ some b'd'
unfolding last Text.join
last-gpg_id_in dir = elim (List-cases dir) [
  | inl top ↦ rw top refl
  | inr (x, xs, below) ↦
      ap last (join-concat dir (codes ".gpg-id") (λ e. cc))
      ∙ last-append (Text.join (codes "/") dir) (codes ".gpg-id") b'/'
]

pub blob_of-ne-gpg_id_in :
    (e : RelPath) (dir : List Text) → (blob_of e).as_str ≢ (gpg_id_in dir).as_str
unfolding last
blob_of-ne-gpg_id_in e dir same =
    let ends : last (blob_of e).as_str ≡ some b'g' = last-append e.as_str (codes "gpg") b'.' in
    let clash : ◌≡◌ {A = Option ℕ} (some b'g') (some b'd') =
      sym ends ∙ ap last same ∙ last-gpg_id_in dir in
    ground arith

first_blob-ext :
    (f g : RelPath → Option Bytes) (dirs : List (List Text))
    → ((dir : List Text) → f (gpg_id_in dir) ≡ g (gpg_id_in dir))
    → first_blob f dirs ≡ first_blob g dirs
first_blob-ext f g [] same = refl
first_blob-ext f g (dir ∷ dirs) same = ground (arith, same dir, first_blob-ext f g dirs same)

-- Storages with the same `.gpg-id` files give an entry the same recipients.
pub resolve_recipients-ext :
    {𝓢 : Storage} (laws : IsBlobMap 𝓢) (s t : 𝓢.State) (e : RelPath)
    → laws.Healthy s
    → laws.Healthy t
    → IsValid e
    → ((dir : List Text) → laws.blob s (gpg_id_in dir) ≡ laws.blob t (gpg_id_in dir))
    → resolve_recipients 𝓢 s e ≡ resolve_recipients 𝓢 t e
resolve_recipients-ext laws s t e hs ht valid same =
    resolve_recipients_nearest laws s hs e valid
    ∙ ap recipients_in (first_blob-ext (laws.blob s) (laws.blob t) (ancestors [] (segments e)) same)
    ∙ sym (resolve_recipients_nearest laws t ht e valid)
