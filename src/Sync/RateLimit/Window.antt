-- ===== src/Sync/RateLimit/Window.antt =====
-- The promise of the rate limit: how many attempts of a peer are accepted within a window, and when
-- a refused peer is accepted again (crates/bypass-cli/src/sync/ratelimit.rs).
use mathlib.Core.List.{append_assoc}
use bypass.Prelude.{
  ℕ, ◌-◌, ◌+◌, ◌≤◌, ◌<◌, ◌≡◌, ap, refl, inl, inr, true, false, ◌&&◌, List, [], ◌∷◌, ◌++◌, leb, ltb,
  if◌then◌else◌, length, length-append, Outcome, ok, err, abort, arith, Bool-cases,
}
use bypass.Text.{Text}
use bypass.Text.Laws.{text_eq_refl}
use bypass.Sync.RateLimit.{
  AttemptLog, RateLimited, cutoff_at, prune, set_bucket, refusal_of, check_and_record,
}

-- The attempts among these that count at the instant `now`.
abbrev pub within : ℕ → ℕ → List ℕ → ℕ
within window now [] = 0
within window now (t ∷ ts) =
    (if leb t now && leb now (t + window) then 1 else 0) + within window now ts

abbrev accept : Outcome RateLimited (Unit {0}) → ℕ → List ℕ → List ℕ
accept (ok u) t ts = t ∷ ts
accept (err e) t ts = ts
accept abort t ts = ts

-- The attempts that are accepted when the peer tries at these instants.
unfoldable pub accepted : Text → List ℕ → AttemptLog → List ℕ
accepted peer [] log = []
accepted peer (t ∷ ts) log =
    let rest = accepted peer ts (check_and_record peer t log).1 in
    accept (check_and_record peer t log).0 t rest

-- Instants in order, none before the given one.
abbrev pub InOrder : ℕ → List ℕ → Type 0
InOrder start [] = Unit
InOrder start (t ∷ ts) = (start ≤ t) × InOrder t ts

within-append :
    (w now : ℕ) (xs ys : List ℕ) → within w now (xs ++ ys) ≡ within w now xs + within w now ys
within-append w now [] ys = omega arith
within-append w now (x ∷ xs) ys = omega (arith, within-append w now xs ys)

within-le-length : (w now : ℕ) (xs : List ℕ) → within w now xs ≤ length xs
within-le-length w now [] = omega arith
within-le-length w now (x ∷ xs) = ground (arith, within-le-length w now xs)

-- What `prune` drops.
dropped : ℕ → List ℕ → List ℕ
dropped cutoff [] = []
dropped cutoff (t ∷ b) = if ltb t cutoff then t ∷ dropped cutoff b else []

dropped-prune : (c : ℕ) (b : List ℕ) → b ≡ dropped c b ++ prune c b
unfolding dropped prune
dropped-prune c [] = refl
dropped-prune c (t ∷ b) = elim (Bool-cases (ltb t c)) [
  | inl e ↦ rw e (ap (◌∷◌ t) (dropped-prune c b))
  | inr e ↦ rw e
]

-- What fell out of the window does not count any more.
within-dropped : (w now c : ℕ) (b : List ℕ) → c + w ≤ now → within w now (dropped c b) ≡ 0
unfolding dropped
within-dropped w now c [] h = refl
within-dropped w now c (x ∷ b) h = ground (arith, within-dropped w now c b h)

within-late : (w now t : ℕ) (ts : List ℕ) → InOrder t ts → now < t → within w now ts ≡ 0
within-late w now t [] h k = refl
within-late w now t (x ∷ ts) (le, h) k = ground (arith, within-late w now x ts h (omega arith))

module _ (peer : Text) (w now : ℕ) where
  -- One step of the bound: what the next attempt `t` drops from the bucket counts neither before
  -- nor after it.
  within-step :
      (c t bound : ℕ) (b later : List ℕ)
      → c + w ≡ t
      → length b ≤ bound
      → (now < t → within w now later ≡ 0)
      → (t ≤ now → within w now (prune c b ++ later) ≤ bound)
      → within w now (b ++ later) ≤ bound
  within-step c t bound b later wide short before after = elim (Bool-cases (leb t now)) [
    | inl e ↦
        let split = ap (λ (l : List ℕ). within w now (l ++ later)) (dropped-prune c b) in
        omega (
          arith,
          split,
          within-append w now (dropped c b ++ prune c b) later,
          within-append w now (dropped c b) (prune c b),
          within-append w now (prune c b) later,
          within-dropped w now c b (ground arith),
          after (ground arith),
        )
    | inr e ↦
        omega (arith, within-append w now b later, within-le-length w now b, before (ground arith))
  ]

InOrder-weaken : (a b : ℕ) (l : List ℕ) → a ≤ b → InOrder b l → InOrder a l
InOrder-weaken a b [] k o = tt
InOrder-weaken a b (x ∷ l) k o = (omega (arith, o.0), o.1)

accept-InOrder :
    (r : Outcome RateLimited (Unit {0})) (start t : ℕ) (later : List ℕ)
    → start ≤ t
    → InOrder t later
    → InOrder start (accept r t later)
accept-InOrder (ok u) start t later le h = (le, h)
accept-InOrder (err e) start t later le h = InOrder-weaken start t later le h
accept-InOrder abort start t later le h = InOrder-weaken start t later le h

accepted-InOrder :
    (peer : Text) (start : ℕ) (ts : List ℕ) (log : AttemptLog)
    → InOrder start ts
    → InOrder start (accepted peer ts log)
unfolding accepted
accepted-InOrder peer start [] log h = tt
accepted-InOrder peer start (t ∷ ts) log (le, h) =
    accept-InOrder (check_and_record peer t log).0 start t
      (accepted peer ts (check_and_record peer t log).1) le
      (accepted-InOrder peer t ts (check_and_record peer t log).1 h)

-- The bucket after a call, and whether the call was accepted.
check_and_record_full :
    (peer : Text) (t : ℕ) (log : AttemptLog)
    → leb log.max_attempts (length (prune (cutoff_at t log.window) (log.buckets peer))) ≡ true
    → check_and_record peer t log ≡ (
      refusal_of t log.window (prune (cutoff_at t log.window) (log.buckets peer)),
      set_bucket peer (prune (cutoff_at t log.window) (log.buckets peer)) log,
    )
unfolding check_and_record
check_and_record_full peer t log e = rw e

check_and_record_free :
    (peer : Text) (t : ℕ) (log : AttemptLog)
    → leb log.max_attempts (length (prune (cutoff_at t log.window) (log.buckets peer))) ≡ false
    → check_and_record peer t log
      ≡ (ok tt, set_bucket peer (prune (cutoff_at t log.window) (log.buckets peer) ++ t ∷ []) log)
unfolding check_and_record
check_and_record_free peer t log e = rw e

length-prune : (c : ℕ) (b : List ℕ) → length (prune c b) ≤ length b
unfolding prune
length-prune c [] = omega arith
length-prune c (t ∷ b) = ground (arith, length-prune c b)

accept-refusal_of : (t w : ℕ) (b ts : List ℕ) → accept (refusal_of t w b) t ts ≡ ts
accept-refusal_of t w [] ts = refl
accept-refusal_of t w (x ∷ b) ts = refl

cutoff_at-window : (t w : ℕ) → w ≤ t → cutoff_at t w + w ≡ t
unfolding cutoff_at
cutoff_at-window t w h = ground arith

ltb-lt : (m n : ℕ) → leb m n ≡ false → n < m
ltb-lt m n h = ground arith

-- Whatever a peer tries, at instants in order that are at least a window after the earliest
-- instant there is, and with a bucket that holds at most `max_attempts` at the start: at every
-- instant at most `max_attempts` of its accepted attempts, with those in the bucket at the start,
-- are at most a window old.
pub within-accepted :
    (peer : Text) (ts : List ℕ) (log : AttemptLog) (now : ℕ)
    → InOrder log.window ts
    → length (log.buckets peer) ≤ log.max_attempts
    → within log.window now (log.buckets peer ++ accepted peer ts log) ≤ log.max_attempts
unfolding accepted
within-accepted peer [] log now order short = omega (
  arith,
  within-append log.window now (log.buckets peer) [],
  within-le-length log.window now (log.buckets peer),
  short,
)
within-accepted peer (t ∷ ts) log now (wide, order) short =
    let w = log.window in
    let kept = prune (cutoff_at t w) (log.buckets peer) in
    let kept_short = length-prune (cutoff_at t w) (log.buckets peer) in
    elim (Bool-cases (leb log.max_attempts (length kept))) [
      | inl full ↦
          let next = set_bucket peer kept log in
          let same : next.buckets peer ≡ kept = rw (text_eq_refl peer) in
          let ih : within w now (next.buckets peer ++ accepted peer ts next) ≤ log.max_attempts =
            within-accepted peer ts next now (InOrder-weaken w t ts wide order)
              (rw same (omega (arith, kept_short, short))) in
          rw (check_and_record_full peer t log full, accept-refusal_of t w kept)
            (within-step peer w now (cutoff_at t w) t log.max_attempts (log.buckets peer)
              (accepted peer ts next) (cutoff_at-window t w wide) short
              (λ early. within-late w now t _ (accepted-InOrder peer t ts next order) early)
              (λ late. rw same at ih))
      | inr free ↦
          let next = set_bucket peer (kept ++ t ∷ []) log in
          let same : next.buckets peer ≡ kept ++ t ∷ [] = rw (text_eq_refl peer) in
          let ih : within w now (next.buckets peer ++ accepted peer ts next) ≤ log.max_attempts =
            within-accepted peer ts next now (InOrder-weaken w t ts wide order) (
              rw same (
                omega (
                  arith,
                  ltb-lt log.max_attempts (length kept) free,
                  length-append kept (t ∷ []),
                ))) in
          rw (check_and_record_free peer t log free) (
            within-step peer w now (cutoff_at t w) t log.max_attempts (log.buckets peer)
              (t ∷ accepted peer ts next) (cutoff_at-window t w wide) short
              (λ early.
                ground (arith, within-late w now t _ (accepted-InOrder peer t ts next order) early))
              (λ late. rw (same, append_assoc) at ih))
    ]

prune-oldest : (c x : ℕ) (b : List ℕ) → x < c → length (prune c (x ∷ b)) ≤ length b
unfolding prune
prune-oldest c x b h = ground (arith, length-prune c b)

refused_oldest :
    (now w r : ℕ) (b : List ℕ)
    → refusal_of now w b ≡ err (record { retry_after = r })
    → (x : ℕ) × (rest : List ℕ) × (b ≡ x ∷ rest) × (r ≡ (x + w) - now)
refused_oldest now w r [] h = cc
refused_oldest now w r (x ∷ b) h = (x, b, refl, ground arith)

accepts_short :
    (peer : Text) (t : ℕ) (log : AttemptLog)
    → length (prune (cutoff_at t log.window) (log.buckets peer)) < log.max_attempts
    → (check_and_record peer t log).0 ≡ ok tt
accepts_short peer t log h = rw (check_and_record_free peer t log (ground (arith, h)))

-- A refused peer whose bucket was within its limit is accepted by a call at any instant later than
-- `retry_after` behind the refusal.
pub check_and_record-retry :
    (peer : Text) (now t r : ℕ) (log : AttemptLog)
    → length (log.buckets peer) ≤ log.max_attempts
    → (check_and_record peer now log).0 ≡ err (record { retry_after = r })
    → now + r < t
    → (check_and_record peer t (check_and_record peer now log).1).0 ≡ ok tt
check_and_record-retry peer now t r log short refused late =
    let kept = prune (cutoff_at now log.window) (log.buckets peer) in
    elim (Bool-cases (leb log.max_attempts (length kept))) [
      | inl full ↦
          let call = check_and_record_full peer now log full in
          let (x, rest, parts, wait) = refused_oldest now log.window r kept (rw call at refused) in
          let after : (set_bucket peer kept log).buckets peer ≡ x ∷ rest =
            rw (text_eq_refl peer) parts in
          let wide : log.window ≤ t = omega (arith, wait, late) in
          rw call (
            accepts_short peer t (set_bucket peer kept log) (
              rw after (
                omega (
                  arith,
                  prune-oldest (cutoff_at t log.window) x rest
                      (omega (arith, cutoff_at-window t log.window wide, wait, late)),
                  ap length parts,
                  length-prune (cutoff_at now log.window) (log.buckets peer),
                  short,
                ))))
      | inr free ↦ cc (rw (check_and_record_free peer now log free) at refused)
    ]
