-- ===== src/Import/Driver/Existing.antt =====
-- An import leaves the entries of the store alone.
use bypass.Prelude.{
  ℕ, ◌≡◌, ◌≢◌, refl, ◌∙◌, inl, inr, true, false, ap, Bool-cases, none, List, [], ◌∷◌, ◌++◌, arith,
  Outcome, ok, err, abort, map_err, expect, In, All, is_empty, All-imp,
}
use bypass.Exec.{pure, ◌>>◌, continue_lem}
use bypass.Text.{Text, Bytes, codes, is_some}
use bypass.Text.Laws.{text_eq_iff, text_eq-false}
use bypass.RelPath.{RelPath, IsValid}
use bypass.RelPath.Valid.{new_iff}
use bypass.Crypto.{Crypto}
use bypass.Storage.{Storage, IsBlobMap}
use bypass.Vcs.{VersionControl}
use bypass.Store.{
  Store, insert_no_commit, commit_changes, list, call_resolve, call_encrypt, call_remove,
  call_write,
}
use bypass.Store.Blobs.{entry_to_blob}
use bypass.Store.Blobs.RoundTrip.{blob_of, blob_of-ne}
use bypass.Store.Insert.{blob-write_ne}
use bypass.Store.Listing.{list_lem}
use bypass.Import.Body.{ImportedEntry, Report}
use bypass.Import.Prepare.{PreparedEntry, prepare, prepare-IsPrepared, is_known, ImportError}
use bypass.Import.Driver.{insert_all, import_entries, commit_blobs, on_store, refused, DriverError}

expect-eq-ok : {E F A : Type 0} (r : Outcome E A) (a : A) → expect {F = F} r ≡ ok a → r ≡ ok a
expect-eq-ok (ok b) a h = ground arith
expect-eq-ok (err e) a h = cc
expect-eq-ok abort a h = cc

refused_inv :
    {JE SE A : Type 0} (r : Outcome ImportError A) (a : A)
    → ◌≡◌ {A = Outcome (DriverError JE SE) A} (map_err refused r) (ok a)
    → r ≡ ok a
refused_inv (ok b) a h = ground arith
refused_inv (err e) a h = cc
refused_inv abort a h = cc

-- What `entry_to_blob` returns is the blob of the entry.
pub entry_to_blob-eq-ok :
    {E : Type 0} (e b : RelPath) → entry_to_blob {E = E} e ≡ ok b → b ≡ blob_of e
unfolding entry_to_blob
entry_to_blob-eq-ok e b h =
    let (same, valid) = (new_iff (e.as_str ++ codes ".gpg") b).0 (expect-eq-ok _ b h) in
    ap (λ (t : Text). record { as_str = t }) same

module _ (𝓒 : Crypto) (𝓢 : Storage) (𝓥 : VersionControl) (laws : IsBlobMap 𝓢) where
  open laws use {blob, Healthy, write_lem, remove_lem, blob-remove}

  -- The storage still works, and has this blob or its absence at the path.
  abbrev pub Holds : RelPath → Store 𝓒 𝓢 𝓥 → Store 𝓒 𝓢 𝓥 → Type 0
  Holds q before st = Healthy st.storage × (blob st.storage q ≡ blob before.storage q)

  call_remove_other :
      (p q : RelPath) (before st : Store 𝓒 𝓢 𝓥)
      → p.as_str ≢ q.as_str
      → Holds q before st
      → Holds q before (call_remove 𝓒 𝓢 𝓥 p st).1
  call_remove_other p q before st ne (h, same) = (
    (remove_lem st.storage p h).1,
    rw (blob-remove st.storage p q h, text_eq-false p.as_str q.as_str ne) same,
  )

  call_write_other :
      (p q : RelPath) (bytes : Bytes) (before st : Store 𝓒 𝓢 𝓥)
      → p.as_str ≢ q.as_str
      → Holds q before st
      → Holds q before (call_write 𝓒 𝓢 𝓥 p bytes st).1
  call_write_other p q bytes before st ne (h, same) = (
    (write_lem st.storage p bytes h).1,
    blob-write_ne 𝓒 𝓢 𝓥 laws st.storage p q bytes h ne ∙ same,
  )

  replace_other :
      (p q : RelPath) (bytes : Bytes) (before st : Store 𝓒 𝓢 𝓥)
      → p.as_str ≢ q.as_str
      → Holds q before st
      → Holds q before ((call_remove 𝓒 𝓢 𝓥 p >> (call_write 𝓒 𝓢 𝓥 p bytes >> pure p)) st).1
  replace_other p q bytes before st ne h =
      let removed = call_remove_other p q before st ne h in
      let t = (call_remove 𝓒 𝓢 𝓥 p st).1 in
      let written = call_write_other p q bytes before t ne removed in
      continue_lem (Holds q before) _ (call_remove 𝓒 𝓢 𝓥 p st).0 t
        (λ _ _.
          continue_lem (Holds q before) _ (call_write 𝓒 𝓢 𝓥 p bytes t).0
            (call_write 𝓒 𝓢 𝓥 p bytes t).1 (λ _ _. written) written)
        removed

  pub insert_no_commit_other :
      (e q : RelPath) (plaintext : Bytes) (before st : Store 𝓒 𝓢 𝓥)
      → (blob_of e).as_str ≢ q.as_str
      → Holds q before st
      → Holds q before (insert_no_commit 𝓒 𝓢 𝓥 e plaintext st).1
  unfolding insert_no_commit
  insert_no_commit_other e q plaintext before st ne h =
      continue_lem (Holds q before) _ (entry_to_blob e) st
        (λ b made.
          let same = entry_to_blob-eq-ok e b made in
          continue_lem (Holds q before) _ (call_resolve 𝓒 𝓢 𝓥 e st).0 st
            (λ recipients _.
              let t = (call_encrypt 𝓒 𝓢 𝓥 plaintext recipients st).1 in
              continue_lem (Holds q before) _ (call_encrypt 𝓒 𝓢 𝓥 plaintext recipients st).0 t
                (λ ciphertext _. rw same (replace_other (blob_of e) q ciphertext before t ne h)) h)
            h)
        h

  insert_all_other :
      (JE : Type 0) (f : Bytes → Text) (decimal : ℕ → Text) (quoted : Text → Text)
      (entries : List PreparedEntry) (q : RelPath) (before st : Store 𝓒 𝓢 𝓥)
      → All (λ e. (blob_of e.path).as_str ≢ q.as_str) entries
      → Holds q before st
      → Holds q before (insert_all 𝓒 𝓢 𝓥 JE f decimal quoted entries st).1
  unfolding insert_all
  insert_all_other JE f decimal quoted [] q before st ne h = h
  insert_all_other JE f decimal quoted (e ∷ entries) q before st ne h =
      let t = (insert_no_commit 𝓒 𝓢 𝓥 e.path e.body st).1 in
      let one = insert_no_commit_other e.path q e.body before st ne.0 h in
      let all = insert_all_other JE f decimal quoted entries q before t ne.1 one in
      continue_lem (Holds q before) _
        (on_store 𝓒 𝓢 𝓥 JE f decimal quoted (insert_no_commit 𝓒 𝓢 𝓥 e.path e.body) st).0 t
        (λ _ _.
          continue_lem (Holds q before) _ (insert_all 𝓒 𝓢 𝓥 JE f decimal quoted entries t).0
            (insert_all 𝓒 𝓢 𝓥 JE f decimal quoted entries t).1 (λ _ _. all) all)
        one

  known_ne :
      (f : Bytes → Text) (decimal : ℕ → Text) (quoted : Text → Text) (existing : List RelPath)
      (e p : RelPath)
      → In e existing
      → is_known f decimal quoted existing p ≡ false
      → (blob_of p).as_str ≢ (blob_of e).as_str
  known_ne f decimal quoted [] e p there h = absurd there.1
  known_ne f decimal quoted (x ∷ xs) e p (inl here) h =
      blob_of-ne p e
        (λ same. ground (arith, h, text_eq_iff x.as_str p.as_str, ap (λ r. r.as_str) here))
  known_ne f decimal quoted (x ∷ xs) e p (inr later) h =
      known_ne f decimal quoted xs e p later (ground (arith, h))

  commit_other :
      (JE : Type 0) (f : Bytes → Text) (decimal : ℕ → Text) (quoted : Text → Text)
      (blobs : List RelPath) (label : Text) (q : RelPath) (before st : Store 𝓒 𝓢 𝓥)
      → Holds q before st
      → Holds q before (commit_blobs 𝓒 𝓢 𝓥 JE f decimal quoted blobs label st).1
  unfolding commit_changes
  commit_other JE f decimal quoted [] label q before st h = h
  commit_other JE f decimal quoted (b ∷ bs) label q before st h = h

  import_entries_other :
      (JE : Type 0) (f : Bytes → Text) (decimal : ℕ → Text) (quoted : Text → Text)
      (entries : List ImportedEntry) (report : Report) (label : Text) (e : RelPath)
      (existing : List RelPath) (st : Store 𝓒 𝓢 𝓥)
      → Healthy st.storage
      → list 𝓒 𝓢 𝓥 none st ≡ (ok existing, st)
      → In e existing
      → Holds (blob_of e) st (import_entries 𝓒 𝓢 𝓥 JE f decimal quoted entries report label st).1
  unfolding import_entries
  import_entries_other JE f decimal quoted entries report label e existing st h listed there =
      elim (Bool-cases (is_empty entries)) [
        | inl none_left ↦ rw none_left (h, refl)
        | inr some_left ↦
            rw (some_left, listed)
              (continue_lem (Holds (blob_of e) st) _
                (map_err refused (prepare f decimal quoted entries existing)) st
                (λ prepared accepted.
                  let new =
                    (prepare-IsPrepared f decimal quoted entries existing prepared (
                      refused_inv (prepare f decimal quoted entries existing) prepared
                        accepted)).1 in
                  let apart =
                    All-imp (λ x known. known_ne f decimal quoted existing e x.path there known)
                      prepared.0 new in
                  let written = insert_all 𝓒 𝓢 𝓥 JE f decimal quoted prepared.0 st in
                  let kept =
                    insert_all_other JE f decimal quoted prepared.0 (blob_of e) st st apart
                      (h, refl) in
                  continue_lem (Holds (blob_of e) st) _ written.0 written.1
                    (λ blobs _.
                      let last = commit_blobs 𝓒 𝓢 𝓥 JE f decimal quoted blobs label written.1 in
                      let committed =
                        commit_other JE f decimal quoted blobs label (blob_of e) st written.1
                          kept in
                      continue_lem (Holds (blob_of e) st) _ last.0 last.1 (λ _ _. committed)
                        committed)
                    kept)
                (h, refl))
      ]

  -- On a storage without I/O errors: however an import ends, with an error or not, the blob of
  -- every entry that the store had before is what it was.
  pub blob-import_entries :
      (JE : Type 0) (f : Bytes → Text) (decimal : ℕ → Text) (quoted : Text → Text)
      (entries : List ImportedEntry) (report : Report) (label : Text) (e : RelPath)
      (st : Store 𝓒 𝓢 𝓥)
      → Healthy st.storage
      → IsValid e
      → is_some (blob st.storage (blob_of e)) ≡ true
      → blob
          (import_entries 𝓒 𝓢 𝓥 JE f decimal quoted entries report label st).1.storage
          (blob_of e)
        ≡ blob st.storage (blob_of e)
  blob-import_entries JE f decimal quoted entries report label e st h valid there =
      let (existing, listed, order, which) = list_lem 𝓒 𝓢 𝓥 laws none st h in
      (import_entries_other JE f decimal quoted entries report label e existing st h listed
        ((which e).1 (valid, there, tt))).1
