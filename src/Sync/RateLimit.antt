-- ===== src/Sync/RateLimit.antt =====
-- The window of sync attempts per peer (crates/bypass-cli/src/sync/ratelimit.rs). The map of buckets
-- is a function, an absent bucket an empty one. Instants count from the earliest one that can be
-- represented, in the unit of durations; the clock's reading is an argument.
pub mod Window
use bypass.Prelude.{
  ℕ, ◌-◌, ◌+◌, Bool, true, false, Option, none, some, List, [], ◌∷◌, ◌++◌, leb, ltb, if◌then◌else◌,
  length, Outcome, ok, err, abort,
}
use bypass.Text.{Text, text_eq}
use bypass.Exec.{Exec}

abbrev pub max_attempts_default : ℕ
max_attempts_default = 3

-- `WINDOW`, in nanoseconds.
abbrev pub window_default : ℕ
window_default = 60000000000

pub record AttemptLog : Type 0 where
  pub buckets : Text → List ℕ
  pub max_attempts : ℕ
  pub window : ℕ

pub record RateLimited : Type 0 where
  pub retry_after : ℕ

abbrev pub new : AttemptLog
new = record { buckets = λ peer. []; max_attempts = max_attempts_default; window = window_default }

abbrev pub with_limits : AttemptLog → ℕ → ℕ → AttemptLog
with_limits log max_attempts window = record log { max_attempts = max_attempts; window = window }

-- `now.checked_sub(self.window).unwrap_or(now)`
unfoldable pub cutoff_at : ℕ → ℕ → ℕ
cutoff_at now window = if leb window now then now - window else now

-- The loop that drops the attempts that fell out of the window.
unfoldable pub prune : ℕ → List ℕ → List ℕ
prune cutoff [] = []
prune cutoff (t ∷ bucket) = if ltb t cutoff then prune cutoff bucket else t ∷ bucket

abbrev pub set_bucket : Text → List ℕ → AttemptLog → AttemptLog
set_bucket peer bucket log = record log {
  buckets = λ p. if text_eq peer p then bucket else log.buckets p;
}

-- The error of a full bucket; an empty one that counts as full panics.
abbrev pub refusal_of : ℕ → ℕ → List ℕ → Outcome RateLimited (Unit {0})
refusal_of now window [] = abort
refusal_of now window (oldest ∷ bucket) = err (record { retry_after = (oldest + window) - now })

unfoldable pub check_and_record : Text → ℕ → Exec AttemptLog RateLimited (Unit {0})
unfolding prune cutoff_at
check_and_record peer now log =
    let bucket = prune (cutoff_at now log.window) (log.buckets peer) in
    if leb log.max_attempts (length bucket)
    then (refusal_of now log.window bucket, set_bucket peer bucket log)
    else (ok tt, set_bucket peer (bucket ++ now ∷ []) log)
