-- ===== src/Store/Listing.antt =====
-- `list` and `find` of crates/bypass-core/src/store.rs.
use bypass.Prelude.{
  ◌≡◌, refl, ◌↔◌, inl, inr, true, Option, none, List, [], ◌∷◌, ◌++◌, Bool-cases, ok, In,
}
use bypass.Text.{Text, is_some, contains_text}
use bypass.Text.Affix.{contains_text_iff}
use bypass.RelPath.{RelPath, IsValid}
use bypass.Crypto.{Crypto}
use bypass.Storage.{Storage, IsBlobMap, Below}
use bypass.Vcs.{VersionControl}
use bypass.Store.{Store, list, find}
use bypass.Store.Sorting.{sort_by, In-sort_by, IsSorted, sort_by-IsSorted}
use bypass.Store.Blobs.{entries_of, containing}
use bypass.Store.Blobs.RoundTrip.{blob_of, blob_of-IsValid, In-entries_of}

-- The order of `list`.
abbrev pub IsSortedByPath : List RelPath → Type 0
IsSortedByPath = IsSorted (λ e. e.as_str)

-- The entry is in the store, below the directory if one is given.
abbrev pub IsEntry : {𝓢 : Storage} → IsBlobMap 𝓢 → 𝓢.State → Option RelPath → RelPath → Type 0
IsEntry laws s prefix e =
    IsValid e × (is_some (laws.blob s (blob_of e)) ≡ true) × Below prefix (blob_of e)

-- On a storage without I/O errors `list` succeeds, changes nothing, and gives in order of path the
-- valid entries whose blobs are stored below the directory, all of them and no others.
pub list_lem :
    (𝓒 : Crypto) (𝓢 : Storage) (𝓥 : VersionControl) (laws : IsBlobMap 𝓢) (prefix : Option RelPath)
    (st : Store 𝓒 𝓢 𝓥)
    → laws.Healthy st.storage
    → (entries : List RelPath) × (list 𝓒 𝓢 𝓥 prefix st ≡ (ok entries, st))
      × IsSortedByPath entries
      × ((e : RelPath) → In e entries ↔ IsEntry laws st.storage prefix e)
unfolding list
list_lem 𝓒 𝓢 𝓥 laws prefix st h =
    let (blobs, listed, which) = laws.list_lem st.storage prefix h in
    let sorted = sort_by (λ (e : RelPath). e.as_str) (entries_of blobs) in
    (
      sorted,
      rw listed refl,
      sort_by-IsSorted (λ (e : RelPath). e.as_str) (entries_of blobs),
      λ e. (
        λ m.
            let (valid, there) =
              (In-entries_of blobs e).0
                ((In-sort_by (λ (x : RelPath). x.as_str) e (entries_of blobs)).0 m) in
            let (found, below) = (which (blob_of e) (blob_of-IsValid e valid)).0 there in
            (valid, found, below),
        λ m. (In-sort_by (λ (x : RelPath). x.as_str) e (entries_of blobs)).1 (
            (In-entries_of blobs e).1
              (m.0, (which (blob_of e) (blob_of-IsValid e m.0)).1 (m.1, m.2))),
      ),
    )

In-containing :
    (e : RelPath) (pattern : Text) (es : List RelPath)
    → In e (containing pattern es) ↔ (In e es × (contains_text e.as_str pattern ≡ true))
unfolding containing
In-containing e pattern [] = (λ h. absurd h.1, λ h. h.0)
In-containing e pattern (x ∷ es) =
    let (to, from) = In-containing e pattern es in
    elim (Bool-cases (contains_text x.as_str pattern)) [
      | inl f ↦ rw f (
        λ h. elim h [ inl p ↦ (inl p, rw p f) | inr q ↦ (inr (to q).0, (to q).1) ],
        λ h. elim h.0 [ inl p ↦ inl p | inr q ↦ inr (from (q, h.1)) ],
      )
      | inr f ↦ rw f (
        λ h. (inr (to h).0, (to h).1),
        λ h. elim h.0 [ inl p ↦ cc (rw p at h.1) | inr q ↦ from (q, h.1) ],
      )
    ]

-- On a storage without I/O errors `find` succeeds, changes nothing, and gives exactly the entries
-- of the store whose path holds the pattern at some place.
pub find_lem :
    (𝓒 : Crypto) (𝓢 : Storage) (𝓥 : VersionControl) (laws : IsBlobMap 𝓢) (pattern : Text)
    (st : Store 𝓒 𝓢 𝓥)
    → laws.Healthy st.storage
    → (entries : List RelPath) × (find 𝓒 𝓢 𝓥 pattern st ≡ (ok entries, st))
      × ((e : RelPath)
          → In e entries ↔ (
              IsEntry laws st.storage none e
              × ((a : Text) × (b : Text) × (e.as_str ≡ a ++ (pattern ++ b)))))
find_lem 𝓒 𝓢 𝓥 laws pattern st h =
    let (entries, listed, sorted, which) = list_lem 𝓒 𝓢 𝓥 laws none st h in
    (
      containing pattern entries,
      found entries listed,
      λ e. (
        λ m.
            let (there, holds) = (In-containing e pattern entries).0 m in
            ((which e).0 there, (contains_text_iff e.as_str pattern).0 holds),
        λ m.
            (In-containing e pattern entries).1
              ((which e).1 m.0, (contains_text_iff e.as_str pattern).1 m.1),
      ),
    )
  where
    found :
        (entries : List RelPath)
        → list 𝓒 𝓢 𝓥 none st ≡ (ok entries, st)
        → find 𝓒 𝓢 𝓥 pattern st ≡ (ok (containing pattern entries), st)
    found entries e = unfold find in rw e
