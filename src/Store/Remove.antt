-- ===== src/Store/Remove.antt =====
-- `remove` and `remove_recursive` of crates/bypass-core/src/store.rs.
use bypass.Prelude.{
  ◌≡◌, refl, ap, ◌∙◌, ◌↔◌, inl, inr, Bool, true, Option, none, some, List, [], ◌∷◌, ◌++◌, arith,
  Bool-cases, ok, err, map, map_err, any, All, All-of_In, nil_of_not-In, In, if◌then◌else◌,
}
use bypass.Text.{Text, Bytes, codes, text_eq}
use bypass.Text.Laws.{text_eq_refl}
use bypass.RelPath.{RelPath, IsValid}
use bypass.Crypto.{Crypto}
use bypass.Storage.{Storage, IsBlobMap}
use bypass.Vcs.{VersionControl}
use bypass.Store.{
  Store, StoreError, not_found, call_commit, list, remove, remove_entries, remove_recursive, show,
}
use bypass.Store.Blobs.RoundTrip.{blob_of, entry_to_blob_lem}
use bypass.Store.Insert.{show_missing}
use bypass.Store.Listing.{IsEntry, list_lem}

abbrev pub remove_message : RelPath → Text
remove_message entry = codes "bypass: Remove " ++ entry.as_str

module _ (𝓒 : Crypto) (𝓢 : Storage) (𝓥 : VersionControl) (laws : IsBlobMap 𝓢) where
  open laws use {blob, Healthy, exists_lem, remove_lem, blob-remove, list_lem}

  -- On a storage without I/O errors, `remove` of a valid entry that is not there gives an error
  -- that names it, and changes nothing.
  pub remove_missing :
      (entry : RelPath) (st : Store 𝓒 𝓢 𝓥)
      → IsValid entry
      → Healthy st.storage
      → blob st.storage (blob_of entry) ≡ none
      → remove 𝓒 𝓢 𝓥 entry st ≡ (err (not_found entry.as_str), st)
  unfolding remove
  remove_missing entry st valid h e =
      rw (entry_to_blob_lem entry valid, exists_lem st.storage (blob_of entry) h, e)

  -- On a storage without I/O errors, `remove` of a valid entry that is there has the result of one
  -- commit of its blob; `show` then does not find the entry, and every other blob is as it was.
  pub show-remove :
      (entry : RelPath) (bytes : Bytes) (st : Store 𝓒 𝓢 𝓥)
      → IsValid entry
      → Healthy st.storage
      → blob st.storage (blob_of entry) ≡ some bytes
      → ((remove 𝓒 𝓢 𝓥 entry st).0
          ≡ map_err StoreError.vcs (𝓥.commit st.vcs (blob_of entry ∷ []) (remove_message entry)).0)
        × ((show 𝓒 𝓢 𝓥 entry (remove 𝓒 𝓢 𝓥 entry st).1).0 ≡ err (not_found entry.as_str))
        × ((q : RelPath)
            → blob (remove 𝓒 𝓢 𝓥 entry st).1.storage q
              ≡ (if text_eq (blob_of entry).as_str q.as_str then none else blob st.storage q))
  show-remove entry bytes st valid h e =
      let left = record st { storage = (𝓢.remove st.storage (blob_of entry)).1 } in
      let last = call_commit 𝓒 𝓢 𝓥 (blob_of entry ∷ []) (remove_message entry) left in
      let gone =
        blob-remove st.storage (blob_of entry) (blob_of entry) h
        ∙ rw (text_eq_refl (blob_of entry).as_str) in
      rw removed (
        refl,
        rw (
            show_missing 𝓒 𝓢 𝓥 laws entry last.1 valid (remove_lem st.storage (blob_of entry) h).1
              gone),
        λ q. blob-remove st.storage (blob_of entry) q h,
      )
    where
      removed :
          remove 𝓒 𝓢 𝓥 entry st
          ≡ call_commit 𝓒 𝓢 𝓥
              (blob_of entry ∷ [])
              (remove_message entry)
              (record st { storage = (𝓢.remove st.storage (blob_of entry)).1 })
      removed =
          unfold remove in
          rw (
            entry_to_blob_lem entry valid,
            exists_lem st.storage (blob_of entry) h,
            e,
            (remove_lem st.storage (blob_of entry) h).0,
          )

-- Whether a path is the blob of one of the entries.
abbrev pub is_blob_of : List RelPath → RelPath → Bool
is_blob_of es q = any (λ e. text_eq (blob_of e).as_str q.as_str) es

module _ (𝓒 : Crypto) (𝓢 : Storage) (𝓥 : VersionControl) (laws : IsBlobMap 𝓢) where
  open laws use {blob, Healthy, remove_lem, blob-remove}

  abbrev removed_all : List RelPath → 𝓢.State → 𝓢.State
  removed_all [] s = s
  removed_all (e ∷ es) s = removed_all es (𝓢.remove s (blob_of e)).1

  remove_entries_lem :
      (es : List RelPath) (st : Store 𝓒 𝓢 𝓥)
      → All IsValid es
      → Healthy st.storage
      → remove_entries 𝓒 𝓢 𝓥 es st
        ≡ (ok (map blob_of es), record st { storage = removed_all es st.storage })
  unfolding remove_entries
  remove_entries_lem [] st v h = refl
  remove_entries_lem (e ∷ es) st v h = rw (
    entry_to_blob_lem e v.0,
    (remove_lem st.storage (blob_of e) h).0,
    remove_entries_lem es (record st { storage = (𝓢.remove st.storage (blob_of e)).1 }) v.1
        (remove_lem st.storage (blob_of e) h).1,
  )

  blob-removed_all :
      (es : List RelPath) (s : 𝓢.State) (q : RelPath)
      → Healthy s
      → (blob (removed_all es s) q ≡ (if is_blob_of es q then none else blob s q))
        × Healthy (removed_all es s)
  blob-removed_all [] s q h = (refl, h)
  blob-removed_all (e ∷ es) s q h =
      let (later, healthy) =
        blob-removed_all es (𝓢.remove s (blob_of e)).1 q (remove_lem s (blob_of e) h).1 in
      (later ∙ rw (blob-remove s (blob_of e) q h) (ground arith), healthy)

  is_blob_of-In : (x : RelPath) (es : List RelPath) → In x es → is_blob_of es (blob_of x) ≡ true
  is_blob_of-In x [] h = absurd h.1
  is_blob_of-In x (e ∷ es) (inl p) = rw p (rw (text_eq_refl (blob_of e).as_str))
  is_blob_of-In x (e ∷ es) (inr h) = ground (arith, is_blob_of-In x es h)

  list-IsEntry :
      (prefix : Option RelPath) (entries : List RelPath) (st : Store 𝓒 𝓢 𝓥)
      → Healthy st.storage
      → list 𝓒 𝓢 𝓥 prefix st ≡ (ok entries, st)
      → (e : RelPath) → In e entries ↔ IsEntry laws st.storage prefix e
  list-IsEntry prefix entries st h listed =
      let (found, listed', sorted, which) = list_lem 𝓒 𝓢 𝓥 laws prefix st h in
      let same : found ≡ entries = ground arith in rw same at which

  -- `remove_recursive` where `list` finds nothing below the directory gives an error that names
  -- it, and changes nothing.
  pub remove_recursive_none :
      (prefix : RelPath) (st : Store 𝓒 𝓢 𝓥)
      → list 𝓒 𝓢 𝓥 (some prefix) st ≡ (ok [], st)
      → remove_recursive 𝓒 𝓢 𝓥 prefix st ≡ (err (not_found prefix.as_str), st)
  unfolding remove_recursive
  remove_recursive_none prefix st listed = rw listed

  module _ (prefix e : RelPath) (es : List RelPath) (st : Store 𝓒 𝓢 𝓥)
      (healthy : Healthy st.storage) (listed : list 𝓒 𝓢 𝓥 (some prefix) st ≡ (ok (e ∷ es), st))
      (committed : (𝓥.commit st.vcs
          (map blob_of (e ∷ es))
          (codes "bypass: Remove " ++ (prefix.as_str ++ codes "/"))).0
        ≡ ok tt) where
    abbrev emptied : Store 𝓒 𝓢 𝓥
    emptied = record {
      crypto = st.crypto;
      storage = removed_all (e ∷ es) st.storage;
      vcs =
          (𝓥.commit st.vcs (map blob_of (e ∷ es))
            (codes "bypass: Remove " ++ (prefix.as_str ++ codes "/"))).1;
    }

    All-IsValid : All IsValid (e ∷ es)
    All-IsValid =
        All-of_In (e ∷ es)
          (λ x m. ((list-IsEntry (some prefix) (e ∷ es) st healthy listed x).0 m).0)

    remove_recursive_ok : remove_recursive 𝓒 𝓢 𝓥 prefix st ≡ (ok (e ∷ es), emptied)
    unfolding remove_recursive
    remove_recursive_ok = rw (listed, remove_entries_lem (e ∷ es) st All-IsValid healthy, committed)

    none_left : (x : RelPath) → IsEntry laws emptied.storage (some prefix) x → ⊥
    none_left x (valid, found, below) = elim (Bool-cases (is_blob_of (e ∷ es) (blob_of x))) [
      | inl b ↦ cc (rw (after, b) at found)
      | inr b ↦
          let there =
            (list-IsEntry (some prefix) (e ∷ es) st healthy listed x).1
              (valid, rw (after, b) at found, below) in
          cc (is_blob_of-In x (e ∷ es) there)
    ]
      where
        after :
            blob emptied.storage (blob_of x)
            ≡ (if is_blob_of (e ∷ es) (blob_of x) then none else blob st.storage (blob_of x))
        after = (blob-removed_all (e ∷ es) st.storage (blob_of x) healthy).0

    -- On a storage without I/O errors, where entries lie below the directory and the commit
    -- succeeds, `remove_recursive` returns them, removes exactly their blobs, and leaves a
    -- directory that `list` finds empty.
    pub list-remove_recursive :
        ((remove_recursive 𝓒 𝓢 𝓥 prefix st).0 ≡ ok (e ∷ es))
        × ((q : RelPath)
            → blob (remove_recursive 𝓒 𝓢 𝓥 prefix st).1.storage q
              ≡ (if is_blob_of (e ∷ es) q then none else blob st.storage q))
        × ((list 𝓒 𝓢 𝓥 (some prefix) (remove_recursive 𝓒 𝓢 𝓥 prefix st).1).0 ≡ ok [])
    list-remove_recursive =
        let (found, listed', sorted, which) =
          list_lem 𝓒 𝓢 𝓥 laws (some prefix) emptied
            (blob-removed_all (e ∷ es) st.storage e healthy).1 in
        let no_more = nil_of_not-In found (λ x m. none_left x ((which x).0 m)) in
        rw remove_recursive_ok (
          refl,
          λ q. (blob-removed_all (e ∷ es) st.storage q healthy).0,
          rw listed' (ap ok no_more),
        )
