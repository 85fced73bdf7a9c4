-- ===== src/Examples/PeerFiles.antt =====
-- The file of the peers at concrete inputs: a toml library that knows one table.
use bypass.Prelude.{
  ◌≡◌, ◌⊎◌, inl, inr, refl, true, false, Bool, ◌&&◌, List, [], ◌∷◌, ok, err, arith, All, Bool-cases,
  if◌then◌else◌,
}
use bypass.Text.{Text, codes, text_eq}
use bypass.Text.Laws.{text_eq_iff}
use bypass.Text.Utf8.{is_scalar, encode}
use bypass.Fs.{place}
use bypass.Sync.Peers.{PeerRecord}
use bypass.Sync.Peers.File.{PeersToml, IsPeersToml, save, load, io_error, load-save, tmp_path}
use bypass.Examples.Disks.{disk_fs, disk_fs-IsFileSystem, old_disk}
use bypass.Examples.Peering.{laptop, table}

abbrev is_laptop : List PeerRecord → Bool
is_laptop [] = false
is_laptop (r ∷ []) =
    text_eq r.name laptop.name
    && (text_eq r.peer_id laptop.peer_id
        && (text_eq r.noise_static_key laptop.noise_static_key
            && text_eq r.paired_at laptop.paired_at))
is_laptop (r ∷ (q ∷ rest)) = false

is_laptop_lem : (peers : List PeerRecord) → is_laptop peers ≡ true → laptop ∷ [] ≡ peers
is_laptop_lem [] h = cc
is_laptop_lem (r ∷ []) h = ground (
  arith,
  text_eq_iff r.name laptop.name,
  text_eq_iff r.peer_id laptop.peer_id,
  text_eq_iff r.noise_static_key laptop.noise_static_key,
  text_eq_iff r.paired_at laptop.paired_at,
)
is_laptop_lem (r ∷ (q ∷ rest)) h = cc

abbrev laptop_toml : PeersToml
laptop_toml = record {
  SerError = Unit {0};
  DeError = ⊥;
  to_string_pretty = λ peers. if is_laptop peers then inr (codes "laptop") else inl tt;
  from_str = λ s. inr (laptop ∷ []);
}

laptop_toml_lem :
    (peers : List PeerRecord) (text : Text)
    → ◌≡◌ {A = (Unit {0}) ⊎ Text}
        (if is_laptop peers then inr (codes "laptop") else inl tt)
        (inr text)
    → (◌≡◌ {A = ⊥ ⊎ List PeerRecord} (inr (laptop ∷ [])) (inr peers))
      × All (λ c. is_scalar c ≡ true) text
laptop_toml_lem peers text h = elim (Bool-cases (is_laptop peers)) [
  | inl y ↦
      let same : codes "laptop" ≡ text = ground (arith, h, y) in
      rw (← is_laptop_lem peers y, ← same)
        (refl, (refl, (refl, (refl, (refl, (refl, (refl, tt)))))))
  | inr n ↦ let no : ⊥ = ground (arith, h, n) in absurd no
]

laptop_toml-IsPeersToml : IsPeersToml laptop_toml
laptop_toml-IsPeersToml = record { from_str-to_string_pretty = laptop_toml_lem }

load-save_example :
    (load disk_fs laptop_toml
        (codes "p")
        (save disk_fs laptop_toml (λ n. codes "7") 7 (codes "p") table old_disk).1
      ≡ ok table)
    ⊎ ((e : Unit {0}) × (load disk_fs laptop_toml
            (codes "p")
            (save disk_fs laptop_toml (λ n. codes "7") 7 (codes "p") table old_disk).1
          ≡ err (io_error (codes "p") e)))
unfolding tmp_path save place text_eq encode
load-save_example =
    load-save disk_fs disk_fs-IsFileSystem laptop_toml laptop_toml-IsPeersToml (codes "p") table
      (λ n. codes "7") 7 (λ e. cc) old_disk refl
