-- ===== src/Import/Prepare.antt =====
-- The preparation of a batch of imported entries (crates/bypass-core/src/import.rs): the paths that
-- they are to have, collisions within the batch and with the store, and the bodies.
use bypass.Prelude.{
  ℕ, suc, ◌≡◌, inl, inr, refl, ◌∙◌, Bool, false, List, [], ◌∷◌, ◌++◌, arith, ◌==◌, if◌then◌else◌,
  is_empty, any, All, length, Outcome, ok, err, ◌>>=◌, >>=-eq-ok, expect, Bool-cases, List-cases,
}
use bypass.Text.{Text, Bytes, codes, text_eq, join, nonempty}
use bypass.RelPath
use bypass.RelPath.{RelPath}
use bypass.Store.Sorting.{sort_by}
use bypass.Import.{slug_path}
use bypass.Import.Body.{ImportedEntry, Report, push_note, serialise_body}

pub record PreparedEntry : Type 0 where
  pub path : RelPath
  pub body : Bytes

pub data ImportError : Type 0 where
  store_collision : List Text → ImportError
  unnamed_entry : ℕ → ImportError

-- The folders and the name with slashes between them, without the empty ones.
abbrev pub raw_path : ImportedEntry → Text
raw_path e = join (codes "/") (nonempty (e.folder ++ e.name ∷ []))

-- The first pass.
unfoldable pub desired_paths : ℕ → List ImportedEntry → Outcome ImportError (List RelPath)
desired_paths idx [] = ok []
desired_paths idx (e ∷ entries) =
    if is_empty (slug_path (raw_path e)) then err (unnamed_entry idx) else do
      path ← expect (RelPath.new (slug_path (raw_path e)))
      paths ← desired_paths (suc idx) entries
      ok (path ∷ paths)

abbrev pub count_more : Text → (Text → ℕ) → Text → ℕ
count_more base counts p = if text_eq base p then suc (counts p) else counts p

module _ (from_utf8_lossy : Bytes → Text) (decimal : ℕ → Text) (quoted : Text → Text) where
  abbrev pub suffixed : RelPath → ℕ → Text
  suffixed base n = base.as_str ++ (codes "-" ++ decimal n)

  abbrev pub collision_note : RelPath → Text
  collision_note base =
      codes "in-batch path collision with " ++ (base.as_str ++ codes ": suffixed to disambiguate")

  -- The second pass: `counts` says how often a path was claimed so far.
  unfoldable pub resolve_paths :
      (Text → ℕ) → Report → List RelPath → Outcome ImportError (List RelPath × Report)
  resolve_paths counts report [] = ok ([], report)
  resolve_paths counts report (base ∷ bases) = do
    let n = suc (counts base.as_str)
    path ← (if n == 1 then ok base else expect (RelPath.new (suffixed base n)))
    let noted = if n == 1 then report else push_note path.as_str (collision_note base) report
    rest ← resolve_paths (count_more base.as_str counts) noted bases
    ok (path ∷ rest.0, rest.1)

  abbrev pub is_known : List RelPath → RelPath → Bool
  is_known existing p = any (λ q. text_eq q.as_str p.as_str) existing

  -- The third pass: the paths that the store has already.
  unfoldable pub collisions : List RelPath → List RelPath → List Text
  collisions existing [] = []
  collisions existing (p ∷ paths) =
      let rest = collisions existing paths in if is_known existing p then p.as_str ∷ rest else rest

  abbrev pub push_new : Text → List Text → List Text
  push_new s [] = s ∷ []
  push_new s (t ∷ ts) = if text_eq s t then t ∷ ts else s ∷ t ∷ ts

  -- `Vec::dedup`
  unfoldable pub dedup : List Text → List Text
  dedup [] = []
  dedup (s ∷ ss) = push_new s (dedup ss)

  -- The fourth pass, over entries and their paths side by side.
  unfoldable pub bodies : Report → List ImportedEntry → List RelPath → List PreparedEntry × Report
  bodies report (entry ∷ entries) (path ∷ paths) =
      let written = serialise_body from_utf8_lossy decimal quoted entry path.as_str report in
      let rest = bodies written.1 entries paths in
      (record { path = path; body = written.0 } ∷ rest.0, rest.1)
  bodies report [] paths = ([], report)
  bodies report (entry ∷ entries) [] = ([], report)

  unfoldable pub prepare :
      List ImportedEntry → List RelPath → Outcome ImportError (List PreparedEntry × Report)
  unfolding collisions dedup
  prepare entries existing = do
    desired ← desired_paths 0 entries
    final ← resolve_paths (λ p. 0) [] desired
    if is_empty (collisions existing final.0)
        then ok (bodies final.1 entries final.0)
        else err (store_collision (dedup (sort_by (λ s. s) (collisions existing final.0))))

  -- One prepared entry for each, at a path that the store does not have.
  abbrev pub IsPrepared : List RelPath → List ImportedEntry → List PreparedEntry → Type 0
  IsPrepared existing entries prepared =
      (length prepared ≡ length entries) × All (λ e. is_known existing e.path ≡ false) prepared

  ok_inj : {A : Type 0} {a b : A} → ◌≡◌ {A = Outcome ImportError A} (ok a) (ok b) → a ≡ b
  ok_inj h = ground arith

  length-desired_paths :
      (idx : ℕ) (entries : List ImportedEntry) (paths : List RelPath)
      → desired_paths idx entries ≡ ok paths
      → length paths ≡ length entries
  unfolding desired_paths
  length-desired_paths idx [] paths h = ground arith
  length-desired_paths idx (e ∷ entries) paths h =
      elim (Bool-cases (is_empty (slug_path (raw_path e)))) [
        | inl empty ↦ cc (rw empty at h)
        | inr some_left ↦
            let (path, first, after) =
              >>=-eq-ok (expect (RelPath.new (slug_path (raw_path e)))) _ (rw some_left at h) in
            let (rest, later, same) = >>=-eq-ok (desired_paths (suc idx) entries) _ after in
            ground (arith, length-desired_paths (suc idx) entries rest later)
      ]

  length-resolve_paths :
      (bases : List RelPath) (counts : Text → ℕ) (report : Report) (out : List RelPath × Report)
      → resolve_paths counts report bases ≡ ok out
      → length out.0 ≡ length bases
  unfolding resolve_paths
  length-resolve_paths [] counts report out h = ground arith
  length-resolve_paths (base ∷ bases) counts report out h =
      let (path, first, after) =
        >>=-eq-ok
          (if suc (counts base.as_str) == 1
            then ok base
            else expect (RelPath.new (suffixed base (suc (counts base.as_str)))))
          _ h in
      let (rest, later, same) = >>=-eq-ok (resolve_paths _ _ bases) _ after in
      ground (arith, length-resolve_paths bases _ _ rest later)

  collisions_none :
      (existing paths : List RelPath)
      → collisions existing paths ≡ []
      → All (λ p. is_known existing p ≡ false) paths
  unfolding collisions
  collisions_none existing [] h = tt
  collisions_none existing (p ∷ paths) h = elim (Bool-cases (is_known existing p)) [
    | inl e ↦ cc (rw e at h)
    | inr e ↦ (e, collisions_none existing paths (rw e at h))
  ]

  bodies-IsPrepared :
      (existing : List RelPath) (entries : List ImportedEntry) (paths : List RelPath)
      (report : Report)
      → length paths ≡ length entries
      → All (λ p. is_known existing p ≡ false) paths
      → IsPrepared existing entries (bodies report entries paths).0
  unfolding bodies
  bodies-IsPrepared existing [] paths report same new = (refl, tt)
  bodies-IsPrepared existing (e ∷ entries) [] report same new = absurd (omega (arith, same))
  bodies-IsPrepared existing (e ∷ entries) (p ∷ paths) report same new =
      let more =
        bodies-IsPrepared existing entries paths
          (serialise_body from_utf8_lossy decimal quoted e p.as_str report).1 (omega (arith, same))
          new.1 in
      (omega (arith, more.0), (new.0, more.1))

  -- A batch that `prepare` accepts gives one prepared entry for each imported one, all of them at
  -- paths that the store does not have.
  pub prepare-IsPrepared :
      (entries : List ImportedEntry) (existing : List RelPath) (out : List PreparedEntry × Report)
      → prepare entries existing ≡ ok out
      → IsPrepared existing entries out.0
  unfolding prepare
  prepare-IsPrepared entries existing out h =
      let (desired, first, h1) = >>=-eq-ok (desired_paths 0 entries) _ h in
      let (final, second, h2) = >>=-eq-ok (resolve_paths (λ p. 0) [] desired) _ h1 in
      let count : length final.0 ≡ length entries =
        length-resolve_paths desired _ _ final second
        ∙ length-desired_paths 0 entries desired first in
      elim (List-cases (collisions existing final.0)) [
        | inl none_known ↦
            let same : bodies final.1 entries final.0 ≡ out = ok_inj (rw none_known at h2) in
            rw (← same) (
              bodies-IsPrepared existing entries final.0 final.1 count
                (collisions_none existing final.0 none_known))
        | inr (c, cs, known) ↦ cc (rw known at h2)
      ]
