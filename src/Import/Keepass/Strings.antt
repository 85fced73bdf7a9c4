-- ===== src/Import/Keepass/Strings.antt =====
-- What `build_entry` of crates/bypass-core/src/import/keepass.rs makes of the strings of an entry.
use bypass.Prelude.{
  ◌≡◌, refl, ap, ◌∙◌, ◌⊎◌, inl, inr, Bool, true, false, not, ◌&&◌, ◌||◌, [], ◌∷◌, ◌++◌, arith,
  Bool-cases, if◌then◌else◌, is_empty, In, In-append_left, In-append_right,
}
use bypass.Text.{Text, codes, text_eq}
use bypass.Text.Laws.{text_eq_iff}
use bypass.Import.Keepass.{
  Nodes, nil, element, other, key, value, Draft, is_otp, set_string, draft_child, draft_of,
  text_of_child,
}

abbrev pub is_string : Text → Bool
is_string name = text_eq name (codes "String")

-- The value of the last string with the key, or `v` where there is none.
unfoldable pub last_value : Text → Nodes → Text → Text
unfolding text_of_child
last_value k nil v = v
last_value k (other rest) v = last_value k rest v
last_value k (element name text kids rest) v =
    last_value k rest (if is_string name && text_eq (key kids) k then value kids else v)

-- One of the nodes is a string with this key and value.
abbrev pub StringIn : Text → Text → Nodes → Type 0
StringIn k v nil = Unit × ⊥
StringIn k v (other rest) = StringIn k v rest
StringIn k v (element name text kids rest) =
    ((is_string name ≡ true) × (k ≡ key kids) × (v ≡ value kids)) ⊎ StringIn k v rest

-- A key that has no role of its own.
abbrev pub is_custom : Text → Bool
is_custom k = not (
    is_empty k
    || text_eq k (codes "Title")
    || text_eq k (codes "UserName")
    || text_eq k (codes "Password")
    || text_eq k (codes "URL")
    || text_eq k (codes "Notes")
    || is_otp k)

set_string-title :
    (k v : Text) (d : Draft)
    → (set_string k v d).title ≡ (if text_eq k (codes "Title") then v else d.title)
unfolding set_string
set_string-title k v d = ground arith

set_string-password_other :
    (k v : Text) (d : Draft)
    → text_eq k (codes "Password") ≡ false
    → (set_string k v d).password ≡ d.password
unfolding set_string
set_string-password_other k v d n = ground arith

set_string-password :
    (k v : Text) (d : Draft)
    → (set_string k v d).password ≡ (if text_eq k (codes "Password") then v else d.password)
unfolding set_string text_eq
set_string-password k v d = elim (Bool-cases (text_eq k (codes "Password"))) [
  | inl y ↦ rw ((text_eq_iff k (codes "Password")).0 y)
  | inr n ↦ set_string-password_other k v d n ∙ rw n refl
]

set_string-custom :
    (k v : Text) (d : Draft)
    → is_custom k ≡ true
    → is_empty v ≡ false
    → set_string k v d ≡ record d { fields = d.fields ++ (k, v) ∷ [] }
unfolding set_string
set_string-custom k v d custom filled = ground arith

draft_child-title :
    (name : Text) (kids : Nodes) (d : Draft)
    → (draft_child name kids d).title
      ≡ (if is_string name && text_eq (key kids) (codes "Title") then value kids else d.title)
unfolding draft_child
draft_child-title name kids d = ground (arith, set_string-title (key kids) (value kids) d)

draft_child-password :
    (name : Text) (kids : Nodes) (d : Draft)
    → (draft_child name kids d).password
      ≡ (if is_string name && text_eq (key kids) (codes "Password") then value kids else d.password)
unfolding draft_child
draft_child-password name kids d = ground (arith, set_string-password (key kids) (value kids) d)

module _ (f : Text × Text) where
  fields_if :
      (b : Bool) (x y : Draft) → In f x.fields → In f y.fields → In f (if b then x else y).fields
  fields_if true x y hx hy = hx
  fields_if false x y hx hy = hy

  set_string-fields : (k v : Text) (d : Draft) → In f d.fields → In f (set_string k v d).fields
  unfolding set_string
  set_string-fields k v d there = fields_if (text_eq k (codes "Title")) _ _ there (
      fields_if (text_eq k (codes "UserName") && not (is_empty v)) _ _ there (
        fields_if (text_eq k (codes "Password")) _ _ there (
          fields_if (text_eq k (codes "URL") && not (is_empty v)) _ _ there (
            fields_if (text_eq k (codes "Notes") && not (is_empty v)) _ _ there (
              fields_if (is_otp k && not (is_empty v)) _ _ there (
                fields_if (not (is_empty k) && not (is_empty v)) _ _
                  (In-append_left f d.fields ((k, v) ∷ []) there) there))))))

  draft_child-fields :
      (name : Text) (kids : Nodes) (d : Draft)
      → In f d.fields
      → In f (draft_child name kids d).fields
  unfolding draft_child
  draft_child-fields name kids d there =
      fields_if (is_string name) _ _ (set_string-fields (key kids) (value kids) d there)
        (fields_if (text_eq name (codes "Binary")) _ _ there there)

  -- What is once among the fields stays.
  draft_of-fields : (n : Nodes) (d : Draft) → In f d.fields → In f (draft_of n d).fields
  unfolding draft_of
  draft_of-fields nil d there = there
  draft_of-fields (other rest) d there = draft_of-fields rest d there
  draft_of-fields (element name text kids rest) d there =
      draft_of-fields rest (draft_child name kids d) (draft_child-fields name kids d there)

pub draft_of-title :
    (n : Nodes) (d : Draft) → (draft_of n d).title ≡ last_value (codes "Title") n d.title
unfolding draft_of last_value
draft_of-title nil d = refl
draft_of-title (other rest) d = draft_of-title rest d
draft_of-title (element name text kids rest) d =
    draft_of-title rest (draft_child name kids d)
    ∙ ap (last_value (codes "Title") rest) (draft_child-title name kids d)

pub draft_of-password :
    (n : Nodes) (d : Draft) → (draft_of n d).password ≡ last_value (codes "Password") n d.password
unfolding draft_of last_value
draft_of-password nil d = refl
draft_of-password (other rest) d = draft_of-password rest d
draft_of-password (element name text kids rest) d =
    draft_of-password rest (draft_child name kids d)
    ∙ ap (last_value (codes "Password") rest) (draft_child-password name kids d)

-- A filled string with a key of its own is among the fields.
pub draft_of-custom :
    (k v : Text) (n : Nodes) (d : Draft)
    → StringIn k v n
    → is_custom k ≡ true
    → is_empty v ≡ false
    → In (k, v) (draft_of n d).fields
unfolding draft_of draft_child
draft_of-custom k v nil d there custom filled = absurd there.1
draft_of-custom k v (other rest) d there custom filled =
    draft_of-custom k v rest d there custom filled
draft_of-custom k v (element name text kids rest) d (inl (string, same_key, same)) custom filled =
    draft_of-fields (k, v) rest (draft_child name kids d)
      (rw (string, ← same_key, ← same, set_string-custom k v d custom filled)
        (In-append_right (k, v) d.fields ((k, v) ∷ []) (inl refl)))
draft_of-custom k v (element name text kids rest) d (inr later) custom filled =
    draft_of-custom k v rest (draft_child name kids d) later custom filled
