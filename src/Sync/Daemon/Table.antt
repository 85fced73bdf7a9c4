-- ===== src/Sync/Daemon/Table.antt =====
-- The entries of the sync daemon (crates/bypass-cli/src/sync/daemon.rs), counted: those of a peer,
-- those that are not in flight, and the dials to a peer.
use bypass.Prelude.{
  ℕ, ◌+◌, ◌≤◌, ◌≡◌, refl, true, false, not, Bool, Option, none, some, List, [], ◌∷◌, ◌++◌, arith,
  Bool-cases, inl, inr, if◌then◌else◌, ◌&&◌,
}
use bypass.Text.{Text, text_eq}
use bypass.Text.Laws.{text_eq_iff}
use bypass.Sync.Daemon.{
  PeerEntry, find_entry, remove_entry, insert_entry, update_entry, collect, collected,
}

abbrev pub one : Bool → ℕ
one b = if b then 1 else 0

-- The dials to the peer.
abbrev pub dials : {A : Type 0} → Text → List (Text × A) → ℕ
dials p [] = 0
dials p ((q, a) ∷ l) = one (text_eq q p) + dials p l

pub dials-append :
    {A : Type 0} (p : Text) (xs ys : List (Text × A)) → dials p (xs ++ ys) ≡ dials p xs + dials p ys
dials-append p [] ys = omega arith
dials-append p ((q, a) ∷ xs) ys = omega (arith, dials-append p xs ys)

module _ {A : Type 0} (p : Text) where
  -- The entries of the peer that are not in flight.
  abbrev pub idle : List (Text × PeerEntry A) → ℕ
  idle [] = 0
  idle ((q, e) ∷ m) = one (text_eq q p && not e.in_flight) + idle m

  pub dials-le-idle : (m : List (Text × PeerEntry A)) → idle m ≤ dials p m
  dials-le-idle [] = omega arith
  dials-le-idle ((q, e) ∷ m) = ground (arith, dials-le-idle m)

  dials-collected :
      (q : Text) (e : PeerEntry A) (addr : Option A) (in_flight : Bool)
      (rest : List (Text × A) × List (Text × PeerEntry A)) {n : ℕ}
      → e.in_flight ≡ in_flight
      → dials p rest.0 + idle rest.1 ≡ n
      → dials p (collected q e addr in_flight rest).0 + idle (collected q e addr in_flight rest).1
        ≡ one (text_eq q p && not e.in_flight) + n
  dials-collected q e none in_flight rest same h = omega (arith, h)
  dials-collected q e (some a) true rest same h = omega (arith, h)
  dials-collected q e (some a) false rest same h = ground (arith, h, same)

  -- `collect` has the idle entries with an address take off, and no other.
  pub dials-collect :
      (m : List (Text × PeerEntry A)) → dials p (collect m).0 + idle (collect m).1 ≡ idle m
  unfolding collect
  dials-collect [] = omega arith
  dials-collect ((q, e) ∷ m) =
      dials-collected q e e.addr e.in_flight (collect m) refl (dials-collect m)

  pub idle-update_le :
      (q : Text) (change : PeerEntry A → PeerEntry A) (m : List (Text × PeerEntry A))
      → idle (update_entry q change m) ≤ idle m + one (text_eq q p)
  unfolding update_entry
  idle-update_le q change [] = ground arith
  idle-update_le q change ((r, e) ∷ m) =
      ground (arith, idle-update_le q change m, text_eq_iff r q, text_eq_iff r p, text_eq_iff q p)

  -- A change that does not touch the flight.
  pub idle-update_same :
      (q : Text) (change : PeerEntry A → PeerEntry A) (m : List (Text × PeerEntry A))
      → ((e : PeerEntry A) → (change e).in_flight ≡ e.in_flight)
      → idle (update_entry q change m) ≡ idle m
  unfolding update_entry
  idle-update_same q change [] same = refl
  idle-update_same q change ((r, e) ∷ m) same = elim (Bool-cases (text_eq r q)) [
    | inl y ↦ rw (y, same e)
    | inr n ↦ rw n (omega (arith, idle-update_same q change m same))
  ]

  -- The entry that is found takes off.
  pub idle-update_off :
      (q : Text) (change : PeerEntry A → PeerEntry A) (m : List (Text × PeerEntry A))
      (e : PeerEntry A)
      → ((x : PeerEntry A) → (change x).in_flight ≡ true)
      → find_entry q m ≡ some e
      → idle (update_entry q change m) + one (text_eq q p && not e.in_flight) ≡ idle m
  unfolding update_entry find_entry
  idle-update_off q change [] e off found = cc
  idle-update_off q change ((r, x) ∷ m) e off found = ground (
    arith,
    off x,
    idle-update_off q change m e off,
    text_eq_iff r q,
    text_eq_iff r p,
    text_eq_iff q p,
  )

  pub dials-insert_ne :
      (q : Text) (e : PeerEntry A) (m : List (Text × PeerEntry A))
      → text_eq q p ≡ false
      → (dials p (insert_entry q e m) ≡ dials p m) × (idle (insert_entry q e m) ≡ idle m)
  unfolding insert_entry
  dials-insert_ne q e [] ne = ground arith
  dials-insert_ne q e ((r, x) ∷ m) ne = ground (arith, dials-insert_ne q e m, text_eq_iff r q)

  -- An entry for the peer replaces one, or is the first.
  dials-insert_self :
      (e : PeerEntry A) (m : List (Text × PeerEntry A))
      → dials p m ≤ 1
      → dials p (insert_entry p e m) ≤ 1
  unfolding insert_entry
  dials-insert_self e [] h = ground arith
  dials-insert_self e ((r, x) ∷ m) h = ground (arith, dials-insert_self e m)

  pub dials-insert_le :
      (q : Text) (e : PeerEntry A) (m : List (Text × PeerEntry A))
      → dials p m ≤ 1
      → dials p (insert_entry q e m) ≤ 1
  dials-insert_le q e m h = elim (Bool-cases (text_eq q p)) [
    | inl y ↦ rw ((text_eq_iff q p).0 y) (dials-insert_self e m h)
    | inr n ↦ omega (arith, (dials-insert_ne q e m n).0)
  ]

  pub idle-insert_flying :
      (e : PeerEntry A) (m : List (Text × PeerEntry A))
      → e.in_flight ≡ true
      → idle (insert_entry p e m) ≤ idle m
  unfolding insert_entry
  idle-insert_flying e [] flying = ground arith
  idle-insert_flying e ((r, x) ∷ m) flying = ground (arith, idle-insert_flying e m, text_eq_iff r p)

  pub idle-remove_ne :
      (q : Text) (m : List (Text × PeerEntry A))
      → text_eq q p ≡ false
      → (idle (remove_entry q m) ≡ idle m) × (find_entry p (remove_entry q m) ≡ find_entry p m)
  unfolding remove_entry find_entry
  idle-remove_ne q [] ne = (refl, refl)
  idle-remove_ne q ((r, x) ∷ m) ne = ground (arith, idle-remove_ne q m, text_eq_iff r q)

  -- Where no entry of the peer is idle, one that is found is in flight.
  pub find-flying :
      (m : List (Text × PeerEntry A)) (e : PeerEntry A)
      → find_entry p m ≡ some e
      → idle m ≡ 0
      → e.in_flight ≡ true
  unfolding find_entry
  find-flying [] e found none_idle = cc
  find-flying ((r, x) ∷ m) e found none_idle = ground (arith, find-flying m e)
