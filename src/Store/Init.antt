-- ===== src/Store/Init.antt =====
-- `init` and `install_gitattributes` of crates/bypass-core/src/store.rs.
use bypass.Prelude.{
  ◌≡◌, ◌≢◌, refl, sym, ◌∙◌, inl, inr, none, some, List, [], ◌∷◌, ◌++◌, Bool-cases, ok, All, not,
  if◌then◌else◌,
}
use bypass.Text
use bypass.Text.{Text, Bytes, codes, contains, text_eq}
use bypass.Text.Laws.{text_eq_iff, text_eq_refl, text_eq-false}
use bypass.Text.Utf8.{encode}
use bypass.RelPath.{RelPath, new, IsValid, parent}
use bypass.Crypto.{KeyId, Crypto}
use bypass.Storage.{Storage, IsBlobMap}
use bypass.Vcs.{VersionControl}
use bypass.GpgId.{resolve_recipients}
use bypass.GpgId.Parse.{gpg_id_body, IsPlainLine, parse_gpg_id-gpg_id_body}
use bypass.GpgId.Nearest.{resolve_recipients_nearest, segments_top}
use bypass.Store.{Store, or_default, end_line, install_gitattributes, init}
use bypass.Store.Attributes.{has_gpg_binary_rule, gitattributes_rule}
use bypass.Store.Insert.{blob-write_self, blob-write_ne}

abbrev pub attributes_file : RelPath
attributes_file = record { as_str = codes ".gitattributes" }

abbrev pub root_gpg_id : RelPath
root_gpg_id = record { as_str = codes ".gpg-id" }

new-attributes_file : new (codes ".gitattributes") ≡ ok attributes_file
unfolding new contains Text.split Text.starts_with Text.ends_with
new-attributes_file = refl

new-root_gpg_id : new (codes ".gpg-id") ≡ ok root_gpg_id
unfolding new contains Text.split Text.starts_with Text.ends_with
new-root_gpg_id = refl

module _ (𝓒 : Crypto) (𝓢 : Storage) (𝓥 : VersionControl) (laws : IsBlobMap 𝓢) where
  open laws use {blob, Healthy, read_lem, write_lem, blob-write}

  abbrev existing : 𝓢.State → Bytes
  existing s = or_default (blob s attributes_file)

  abbrev ruled : 𝓢.State → 𝓢.State
  ruled s =
      if has_gpg_binary_rule (existing s)
      then s
      else (𝓢.write s attributes_file (end_line (existing s) ++ gitattributes_rule)).1

  -- On a storage without I/O errors, `install_gitattributes` writes the file, the old text ended
  -- by a newline with the rule behind it, exactly if the rule is not there, and says whether it
  -- wrote.
  pub install_gitattributes_lem :
      (st : Store 𝓒 𝓢 𝓥)
      → Healthy st.storage
      → install_gitattributes 𝓒 𝓢 𝓥 st ≡ (
        ok (not (has_gpg_binary_rule (existing st.storage))),
        record st { storage = ruled st.storage },
      )
  unfolding install_gitattributes
  install_gitattributes_lem st h = elim (Bool-cases (has_gpg_binary_rule (existing st.storage))) [
    | inl e ↦ rw (new-attributes_file, read_lem st.storage attributes_file h, e)
    | inr e ↦ rw (
      new-attributes_file,
      read_lem st.storage attributes_file h,
      e,
      (write_lem st.storage attributes_file (end_line (existing st.storage) ++ gitattributes_rule)
          h).0,
    )
  ]

  names_ne : (root_gpg_id).as_str ≢ (attributes_file).as_str
  names_ne e = cc

  ruled-Healthy : (s : 𝓢.State) → Healthy s → Healthy (ruled s)
  ruled-Healthy s h = elim (Bool-cases (has_gpg_binary_rule (existing s))) [
    | inl e ↦ rw e h
    | inr e ↦ rw e (write_lem s attributes_file _ h).1
  ]

  blob-ruled_ne :
      (s : 𝓢.State) (q : RelPath)
      → Healthy s
      → attributes_file.as_str ≢ q.as_str
      → blob (ruled s) q ≡ blob s q
  blob-ruled_ne s q h ne = elim (Bool-cases (has_gpg_binary_rule (existing s))) [
    | inl e ↦ rw e
    | inr e ↦ rw e (blob-write_ne 𝓒 𝓢 𝓥 laws s attributes_file q _ h ne)
  ]

  resolve_top :
      (s : 𝓢.State) (entry : RelPath) (r : KeyId) (rs : List KeyId)
      → Healthy s
      → IsValid entry
      → parent entry ≡ none
      → All IsPlainLine (r ∷ rs)
      → blob s root_gpg_id ≡ some (encode (gpg_id_body (r ∷ rs)))
      → resolve_recipients 𝓢 s entry ≡ ok (r ∷ rs)
  unfolding Text.join
  resolve_top s entry r rs h valid top plain e =
      resolve_recipients_nearest laws s h entry valid
      ∙ rw (segments_top entry top) (rw e (parse_gpg_id-gpg_id_body r rs plain))

  module _ (r : KeyId) (rs : List KeyId) (st : Store 𝓒 𝓢 𝓥) (healthy : Healthy st.storage)
      (inited : (𝓥.init st.vcs).0 ≡ ok tt)
      (commits : (paths : List RelPath)
        → (𝓥.commit (𝓥.init st.vcs).1 paths (codes "bypass: initialise store")).0 ≡ ok tt) where
    abbrev with_gpg_id : 𝓢.State
    with_gpg_id = (𝓢.write st.storage root_gpg_id (encode (gpg_id_body (r ∷ rs)))).1

    after_gpg_id : Healthy with_gpg_id
    after_gpg_id = (write_lem st.storage root_gpg_id (encode (gpg_id_body (r ∷ rs))) healthy).1

    abbrev paths : List RelPath
    paths =
        if not (has_gpg_binary_rule (existing with_gpg_id))
        then root_gpg_id ∷ attributes_file ∷ []
        else root_gpg_id ∷ []

    init_lem : init 𝓒 𝓢 𝓥 (r ∷ rs) st ≡ (
      ok tt,
      record {
        crypto = st.crypto;
        storage = ruled with_gpg_id;
        vcs = (𝓥.commit (𝓥.init st.vcs).1 paths (codes "bypass: initialise store")).1;
      },
    )
    unfolding init
    init_lem = elim (Bool-cases (has_gpg_binary_rule (existing with_gpg_id))) [
      | inl e ↦ rw (
        new-root_gpg_id,
        (write_lem st.storage root_gpg_id (encode (gpg_id_body (r ∷ rs))) healthy).0,
        new-attributes_file,
        install_gitattributes_lem (record st { storage = with_gpg_id }) after_gpg_id,
        e,
        inited,
        commits (root_gpg_id ∷ []),
      )
      | inr e ↦ rw (
        new-root_gpg_id,
        (write_lem st.storage root_gpg_id (encode (gpg_id_body (r ∷ rs))) healthy).0,
        new-attributes_file,
        install_gitattributes_lem (record st { storage = with_gpg_id }) after_gpg_id,
        e,
        inited,
        commits (root_gpg_id ∷ attributes_file ∷ []),
      )
    ]

    blob-init :
        (q : RelPath)
        → blob (ruled with_gpg_id) q ≡ (
            if text_eq root_gpg_id.as_str q.as_str
            then some (encode (gpg_id_body (r ∷ rs)))
            else if text_eq attributes_file.as_str q.as_str
            then blob (ruled with_gpg_id) attributes_file
            else blob st.storage q)
    blob-init q = elim (Bool-cases (text_eq attributes_file.as_str q.as_str)) [
      | inl e ↦
          let same : attributes_file.as_str ≡ q.as_str = (text_eq_iff _ _).0 e in
          rw (← same) (
            rw (
              text_eq-false root_gpg_id.as_str attributes_file.as_str names_ne,
              text_eq_refl attributes_file.as_str,
            ))
      | inr e ↦
          blob-ruled_ne with_gpg_id q after_gpg_id (λ same. cc (rw (← same, text_eq_refl) at e))
          ∙ blob-write st.storage root_gpg_id q (encode (gpg_id_body (r ∷ rs))) healthy
          ∙ rw e
    ]

    -- `init` with plain one-line recipients, where storage and version control succeed, succeeds;
    -- a valid top-level entry then resolves to these recipients, in their order; and no blob but
    -- `.gpg-id` and `.gitattributes` is touched.
    pub resolve_recipients-init :
        (entry : RelPath)
        → All IsPlainLine (r ∷ rs)
        → IsValid entry
        → parent entry ≡ none
        → ((init 𝓒 𝓢 𝓥 (r ∷ rs) st).0 ≡ ok tt)
          × (resolve_recipients 𝓢 (init 𝓒 𝓢 𝓥 (r ∷ rs) st).1.storage entry ≡ ok (r ∷ rs))
          × ((q : RelPath)
              → blob (init 𝓒 𝓢 𝓥 (r ∷ rs) st).1.storage q ≡ (
                  if text_eq root_gpg_id.as_str q.as_str
                  then some (encode (gpg_id_body (r ∷ rs)))
                  else if text_eq attributes_file.as_str q.as_str
                  then blob (init 𝓒 𝓢 𝓥 (r ∷ rs) st).1.storage attributes_file
                  else blob st.storage q))
    resolve_recipients-init entry plain valid top =
        let stored =
          blob-ruled_ne with_gpg_id root_gpg_id after_gpg_id (λ e. names_ne (sym e))
          ∙ blob-write_self 𝓒 𝓢 𝓥 laws st.storage root_gpg_id _ healthy in
        rw init_lem (
          refl,
          resolve_top (ruled with_gpg_id) entry r rs (ruled-Healthy with_gpg_id after_gpg_id) valid
              top plain stored,
          blob-init,
        )
