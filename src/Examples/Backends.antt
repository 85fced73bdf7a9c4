-- ===== src/Examples/Backends.antt =====
-- Concrete backends: the in-memory storage of the unit tests, an identity cipher that anyone can
-- read, and version control that does nothing.
use mathlib.Core.List.{append_assoc}
use bypass.Prelude.{
  ◌≡◌, ◌≢◌, refl, sym, ap, ◌∙◌, ◌↔◌, inl, inr, Bool, true, Option, none, some, List, [], ◌∷◌, ◌++◌,
  arith, Bool-cases, Option-cases, Outcome, ok, err, In, if◌then◌else◌, ◌==◌,
}
use bypass.Text.{Text, Bytes, text_eq, is_some, strip_prefix}
use bypass.Text.Laws.{text_eq_iff, text_eq_refl}
use bypass.Text.Affix.{strip_prefix-append, strip_prefix_parts}
use bypass.RelPath.{RelPath}
use bypass.Crypto.{Crypto, IsDecryptable}
use bypass.Storage.{Storage, IsBlobMap, Below}
use bypass.Vcs.{no_vcs}
use bypass.Store.{Store}

abbrev pub Files : Type 0
Files = List (RelPath × Bytes)

unfoldable pub lookup : RelPath → Files → Option Bytes
lookup p [] = none
lookup p ((q, b) ∷ fs) = if text_eq q.as_str p.as_str then some b else lookup p fs

unfoldable pub without : RelPath → Files → Files
without p [] = []
without p ((q, b) ∷ fs) =
    let rest = without p fs in if text_eq p.as_str q.as_str then rest else (q, b) ∷ rest

abbrev is_below : Option RelPath → RelPath → Bool
is_below none q = true
is_below (some p) q = is_some (strip_prefix q.as_str (p.as_str ++ b'/' ∷ []))

unfoldable pub keys : Option RelPath → Files → List RelPath
keys prefix [] = []
keys prefix ((q, b) ∷ fs) =
    let rest = keys prefix fs in if is_below prefix q then q ∷ rest else rest

abbrev pub mem_storage : Storage
mem_storage = record {
  State = Files;
  Error = ⊥;
  read = λ s p. ok (lookup p s);
  write = λ s p b. (ok tt, (p, b) ∷ s);
  remove = λ s p. (ok tt, without p s);
  exists = λ s p. ok (is_some (lookup p s));
  list = λ s prefix. ok (keys prefix s);
}

pub lookup-without :
    (p q : RelPath) (fs : Files)
    → lookup q (without p fs) ≡ (if text_eq p.as_str q.as_str then none else lookup q fs)
unfolding lookup without
lookup-without p q [] = ground arith
lookup-without p q ((r, b) ∷ fs) = ground (
  arith,
  lookup-without p q fs,
  text_eq_iff p.as_str q.as_str,
  text_eq_iff p.as_str r.as_str,
  text_eq_iff r.as_str q.as_str,
)

is_below_iff : (prefix : Option RelPath) (q : RelPath) → (is_below prefix q ≡ true) ↔ Below prefix q
is_below_iff none q = (λ h. tt, λ h. refl)
is_below_iff (some p) q = (
  λ h. elim (Option-cases (strip_prefix q.as_str (p.as_str ++ b'/' ∷ []))) [
    | inl e ↦ cc
    | inr (r, e) ↦ (
      r,
      strip_prefix_parts q.as_str (p.as_str ++ b'/' ∷ []) r e ∙ append_assoc p.as_str (b'/' ∷ []) r,
    )
  ],
  λ h. rw h.1 (
      rw (← append_assoc p.as_str (b'/' ∷ []) h.0)
        (rw (strip_prefix-append (p.as_str ++ b'/' ∷ []) h.0))),
)

pub In-keys :
    (prefix : Option RelPath) (q : RelPath) (fs : Files)
    → In q (keys prefix fs) ↔ ((is_some (lookup q fs) ≡ true) × Below prefix q)
unfolding lookup keys
In-keys prefix q [] = (λ h. absurd h.1, λ h. cc)
In-keys prefix q ((r, b) ∷ fs) =
    let (ih, ih') = In-keys prefix q fs in
    elim (Bool-cases (text_eq r.as_str q.as_str)) [
      | inl e ↦
          let same : q ≡ r =
            ap (λ (t : Text). record { as_str = t }) (sym ((text_eq_iff _ _).0 e)) in
          elim (Bool-cases (is_below prefix r)) [
            | inl below ↦
                rw (e, below)
                  (λ h. (refl, rw same ((is_below_iff prefix r).0 below)), λ h. inl same)
            | inr below ↦
                rw (e, below)
                  (
                    λ h. (refl, (ih h).1),
                    λ h. absurd (cc ((is_below_iff prefix r).1 (rw same at h.1))),
                  )
          ]
      | inr e ↦
          let other : q ≢ r = λ same. cc (rw (same, text_eq_refl r.as_str) at e) in
          elim (Bool-cases (is_below prefix r)) [
            | inl below ↦
                rw (e, below)
                  (λ h. elim h [ inl same ↦ absurd (other same) | inr i ↦ ih i ], λ h. inr (ih' h))
            | inr below ↦ rw (e, below) (ih, ih')
          ]
    ]

abbrev pub mem_storage-IsBlobMap : IsBlobMap mem_storage
unfolding lookup
mem_storage-IsBlobMap = record {
  blob = λ s p. lookup p s;
  Healthy = λ s. Unit {0};
  read_lem = λ s p h. refl;
  exists_lem = λ s p h. refl;
  write_lem = λ s p b h. (refl, tt);
  blob-write = λ s p q b h. refl;
  remove_lem = λ s p h. (refl, tt);
  blob-remove = λ s p q h. lookup-without p q s;
  list_lem = λ s prefix h. (keys prefix s, refl, λ q v. In-keys prefix q s);
}

-- A cipher that only marks the plaintext, and fails on what is not marked.
abbrev pub marked : Bytes → Bytes
marked plaintext = 0x85 ∷ plaintext

abbrev pub unmarked : Bytes → Outcome (Unit {0}) Bytes
unmarked [] = err tt
unmarked (b ∷ bytes) = if b == 0x85 then ok bytes else err tt

abbrev pub marking : Crypto
marking = record {
  State = Unit {0};
  Error = Unit {0};
  encrypt = λ s plaintext recipients. (ok (marked plaintext), s);
  decrypt = λ s ciphertext. unmarked ciphertext;
}

pub unmarked-marked :
    (plaintext ciphertext : Bytes)
    → ◌≡◌ {A = Outcome (Unit {0}) Bytes} (ok (marked plaintext)) (ok ciphertext)
    → unmarked ciphertext ≡ ok plaintext
unmarked-marked plaintext ciphertext e = ground arith

abbrev pub marking-IsDecryptable : IsDecryptable marking
marking-IsDecryptable = record {
  Holds = λ s recipients. Unit {0};
  decrypt-encrypt =
      λ s s' plaintext ciphertext recipients e h. unmarked-marked plaintext ciphertext e;
}

abbrev pub store_of : Files → Store marking mem_storage no_vcs
store_of fs = record { crypto = tt; storage = fs; vcs = tt }
