-- ===== src/Storage.antt =====
-- The trait `Storage` (crates/bypass-core/src/storage.rs), an interface: a state, an error type and
-- the five operations. A call that mutates returns the new state beside its result, on errors too.
use bypass.Prelude.{
  ◌≡◌, ◌↔◌, Bool, true, Option, none, some, List, ◌++◌, ◌∷◌, Outcome, ok, In, if◌then◌else◌,
}
use bypass.Text.{Text, Bytes, text_eq, is_some}
use bypass.RelPath.{RelPath, IsValid}

pub record Storage : Type 1 where
  pub State : Type 0
  pub Error : Type 0
  pub read : State → RelPath → Outcome Error (Option Bytes)
  pub write : State → RelPath → Bytes → Outcome Error (Unit {0}) × State
  pub remove : State → RelPath → Outcome Error (Unit {0}) × State
  pub exists : State → RelPath → Outcome Error Bool
  pub list : State → Option RelPath → Outcome Error (List RelPath)

-- The path lies below the directory, if one is named.
abbrev pub Below : Option RelPath → RelPath → Type 0
Below none q = Unit
Below (some p) q = (r : Text) × (q.as_str ≡ p.as_str ++ (b'/' ∷ r))

-- What the documentation of the trait promises, where no I/O error occurs: a finite map from valid
-- paths to blobs. `write` overwrites, `remove` of what is not there does nothing, and `list` gives
-- the paths of the blobs below a directory, in any order.
pub record IsBlobMap (𝓢 : Storage) : Type 1 where
  pub blob : 𝓢.State → RelPath → Option Bytes
  pub Healthy : 𝓢.State → Type 0
  pub read_lem : (s : 𝓢.State) (p : RelPath) → Healthy s → 𝓢.read s p ≡ ok (blob s p)
  pub exists_lem : (s : 𝓢.State) (p : RelPath) → Healthy s → 𝓢.exists s p ≡ ok (is_some (blob s p))
  pub write_lem :
      (s : 𝓢.State) (p : RelPath) (bytes : Bytes)
      → Healthy s
      → ((𝓢.write s p bytes).0 ≡ ok tt) × Healthy (𝓢.write s p bytes).1
  pub blob-write :
      (s : 𝓢.State) (p q : RelPath) (bytes : Bytes)
      → Healthy s
      → blob (𝓢.write s p bytes).1 q ≡ (if text_eq p.as_str q.as_str then some bytes else blob s q)
  pub remove_lem :
      (s : 𝓢.State) (p : RelPath)
      → Healthy s
      → ((𝓢.remove s p).0 ≡ ok tt) × Healthy (𝓢.remove s p).1
  pub blob-remove :
      (s : 𝓢.State) (p q : RelPath)
      → Healthy s
      → blob (𝓢.remove s p).1 q ≡ (if text_eq p.as_str q.as_str then none else blob s q)
  pub list_lem :
      (s : 𝓢.State) (prefix : Option RelPath)
      → Healthy s
      → (ps : List RelPath) × (𝓢.list s prefix ≡ ok ps)
        × ((q : RelPath) → IsValid q → In q ps ↔ ((is_some (blob s q) ≡ true) × Below prefix q))
