-- ===== src/Sync/Syncing/TieBreak.antt =====
-- Divergence (crates/bypass-cli/src/sync/syncing.rs): when two devices that have diverged reconcile
-- with each other, exactly one of them rebases.
use bypass.Prelude.{◌≡◌, ◌≢◌, ◌⊎◌, inl, inr, ◌∙◌, true, false, some, [], ok, Bool-cases}
use bypass.Text.{Text, Bytes, text_le}
use bypass.Text.Laws.{text_le_total, text_le_antisymm}
use bypass.Sync.Syncing.{
  Repo, Paths, rebased, awaiting_peer_rebase, reconcile, reconcile_oids, diverged, rebase_onto,
  rebase_args,
}

module _ (𝓡 : Repo) (𝓟 : Paths) where
  -- A device: its repository opens, its head and its peer's are different commits, and neither
  -- descends from the other.
  pub record IsDiverged (st : 𝓡.State) (local_head peer_head : Text) : Type 0 where
    pub opens : 𝓡.open_repo st ≡ ok tt
    pub local_oid : 𝓡.Oid
    pub peer_oid : 𝓡.Oid
    pub local_parses : 𝓡.oid_from_str local_head ≡ ok local_oid
    pub peer_parses : 𝓡.oid_from_str peer_head ≡ ok peer_oid
    pub different : 𝓡.oid_eq local_oid peer_oid ≡ false
    pub not_ahead : 𝓡.graph_descendant_of st peer_oid local_oid ≡ ok false
    pub not_behind : 𝓡.graph_descendant_of st local_oid peer_oid ≡ ok false

  abbrev pub Rebases : 𝓡.State → Text → Type 0
  Rebases st peer_head =
      (out : Bytes) × ((𝓡.git (rebase_args 𝓡 𝓟 peer_head) [] st).0
        ≡ ok (record { success = true; stdout = out }))

  reconcile-diverged :
      (st : 𝓡.State) (local_head peer_head local_id remote_id : Text)
      → IsDiverged st local_head peer_head
      → reconcile 𝓡 𝓟 (some local_head) peer_head local_id remote_id st
        ≡ diverged 𝓡 𝓟 peer_head local_id remote_id st
  unfolding reconcile reconcile_oids
  reconcile-diverged st local_head peer_head local_id remote_id d =
      rw (d.opens, d.peer_parses, d.local_parses, d.different, d.not_ahead, d.not_behind)

  diverged_lower :
      (st : 𝓡.State) (peer_head local_id remote_id : Text)
      → Rebases st peer_head
      → text_le remote_id local_id ≡ false
      → diverged 𝓡 𝓟 peer_head local_id remote_id st
        ≡ (ok (rebased peer_head), (𝓡.git (rebase_args 𝓡 𝓟 peer_head) [] st).1)
  unfolding diverged rebase_onto
  diverged_lower st peer_head local_id remote_id (out, e) lower = rw (lower, e)

  diverged_higher :
      (st : 𝓡.State) (peer_head local_id remote_id : Text)
      → text_le remote_id local_id ≡ true
      → diverged 𝓡 𝓟 peer_head local_id remote_id st ≡ (ok awaiting_peer_rebase, st)
  unfolding diverged
  diverged_higher st peer_head local_id remote_id higher = rw higher

  -- `a` waits and `b` rebases.
  abbrev pub Yields : 𝓡.State → 𝓡.State → Text → Text → Text → Text → Type 0
  Yields st_a st_b head_a head_b id_a id_b =
      (reconcile 𝓡 𝓟 (some head_a) head_b id_a id_b st_a ≡ (ok awaiting_peer_rebase, st_a))
      × (reconcile 𝓡 𝓟 (some head_b) head_a id_b id_a st_b
          ≡ (ok (rebased head_a), (𝓡.git (rebase_args 𝓡 𝓟 head_a) [] st_b).1))

  -- Of two devices with different ids that have diverged from each other and on which a rebase
  -- succeeds, one rebases onto the other's head, and the other one waits and changes nothing.
  pub reconcile_tie_break :
      (st_a st_b : 𝓡.State) (head_a head_b id_a id_b : Text)
      → id_a ≢ id_b
      → IsDiverged st_a head_a head_b
      → IsDiverged st_b head_b head_a
      → Rebases st_a head_b
      → Rebases st_b head_a
      → Yields st_a st_b head_a head_b id_a id_b ⊎ Yields st_b st_a head_b head_a id_b id_a
  reconcile_tie_break st_a st_b head_a head_b id_a id_b ne div_a div_b reb_a reb_b =
      elim (Bool-cases (text_le id_a id_b)) [
        | inl le ↦
            let gt : text_le id_b id_a ≡ false = elim (Bool-cases (text_le id_b id_a)) [
              | inl ge ↦ absurd (ne (text_le_antisymm id_a id_b le ge))
              | inr gt ↦ gt
            ] in
            inr (
              reconcile-diverged st_b head_b head_a id_b id_a div_b
                  ∙ diverged_higher st_b head_a id_b id_a le,
              reconcile-diverged st_a head_a head_b id_a id_b div_a
                  ∙ diverged_lower st_a head_b id_a id_b reb_a gt,
            )
        | inr gt ↦
            let le : text_le id_b id_a ≡ true = elim (text_le_total id_a id_b) [
              | inl l ↦ cc
              | inr l ↦ l
            ] in
            inl (
              reconcile-diverged st_a head_a head_b id_a id_b div_a
                  ∙ diverged_higher st_a head_b id_a id_b le,
              reconcile-diverged st_b head_b head_a id_b id_a div_b
                  ∙ diverged_lower st_b head_a id_b id_a reb_b gt,
            )
      ]
