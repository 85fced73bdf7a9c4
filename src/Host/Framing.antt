-- ===== src/Host/Framing.antt =====
-- Frames of the native-messaging host (crates/bypass-cli/src/messaging_host.rs): a length of four
-- bytes, the least significant first, and the body.
pub mod RoundTrip
use bypass.Prelude.{
  ℕ, zero, suc, ◌+◌, ◌-◌, ◌*◌, ◌/◌, ◌%◌, ◌^◌, ◌≤◌, ◌<◌, ◌≡◌, refl, ap, ◌⊎◌, inl, inr, Bool, true,
  false, Option, none, some, List, [], ◌∷◌, ◌++◌, arith, Outcome, ok, err, abort, map_err, ltb,
  if◌then◌else◌, length,
}
use bypass.Exec.{Exec, pure, raise, lift, ◌>>=◌, ◌>>◌}
use bypass.Text.{Bytes}
use bypass.Host.{max_reply_bytes}

-- How the input ends: the browser has closed the pipe, or a read fails.
pub data Ending (IO : Type 0) : Type 0 where
  eof : Ending IO
  fails : IO → Ending IO

-- What is still to be read.
pub record Input (IO : Type 0) : Type 0 where
  pub bytes : Bytes
  pub ending : Ending IO

pub data ReadError (IO : Type 0) : Type 0 where
  unexpected_eof : ReadError IO
  io : IO → ReadError IO

pub data FrameError (IO : Type 0) : Type 0 where
  length_prefix : IO → FrameError IO
  frame_too_large : ℕ → FrameError IO
  request_body : ReadError IO → FrameError IO

abbrev ending_error : {IO : Type 0} → Ending IO → ReadError IO
ending_error eof = unexpected_eof
ending_error (fails e) = io e

-- The first so many, if there are that many, and the others.
unfoldable pub split_at : ℕ → Bytes → Option (Bytes × Bytes)
split_at zero bs = some ([], bs)
split_at (suc n) [] = none
split_at (suc n) (b ∷ bs) = elim (split_at n bs) [
  | none ↦ none
  | some cut ↦ some (b ∷ cut.0, cut.1)
]

-- `u32::to_le_bytes` and `u32::from_le_bytes`
unfoldable pub to_le_bytes : ℕ → Bytes
to_le_bytes n = (n % 256) ∷ (n / 256 % 256) ∷ (n / 65536 % 256) ∷ (n / 16777216 % 256) ∷ []

unfoldable pub from_le_bytes : Bytes → ℕ
from_le_bytes [] = 0
from_le_bytes (b ∷ bs) = b + 256 * from_le_bytes bs

module _ {IO : Type 0} where
  abbrev cut_or : Input IO → Option (Bytes × Bytes) → Outcome (ReadError IO) Bytes × Input IO
  cut_or input none = (err (ending_error input.ending), record input { bytes = [] })
  cut_or input (some cut) = (ok cut.0, record input { bytes = cut.1 })

  -- `Read::read_exact`
  unfoldable pub read_exact : ℕ → Input IO → Outcome (ReadError IO) Bytes × Input IO
  unfolding split_at
  read_exact n input = cut_or input (split_at n input.bytes)

  abbrev body_read :
      Outcome (ReadError IO) Bytes × Input IO → Outcome (FrameError IO) (Option Bytes) × Input IO
  body_read (ok buf, rest) = (ok (some buf), rest)
  body_read (err e, rest) = (err (request_body e), rest)
  body_read (abort, rest) = (abort, rest)

  -- What follows the length of a frame.
  unfoldable pub read_body : ℕ → Exec (Input IO) (FrameError IO) (Option Bytes)
  unfolding read_exact
  read_body len input =
      if ltb max_reply_bytes len
      then (err (frame_too_large len), input)
      else body_read (read_exact len input)

  abbrev read_length :
      Outcome (ReadError IO) Bytes × Input IO → Outcome (FrameError IO) (Option Bytes) × Input IO
  read_length (ok buf, rest) = read_body (from_le_bytes buf) rest
  read_length (err unexpected_eof, rest) = (ok none, rest)
  read_length (err (io e), rest) = (err (length_prefix e), rest)
  read_length (abort, rest) = (abort, rest)

  unfoldable pub read_frame : Exec (Input IO) (FrameError IO) (Option Bytes)
  unfolding read_exact read_body from_le_bytes
  read_frame input = read_length (read_exact 4 input)

-- Where replies go: standard output.
pub record Sink : Type 1 where
  pub State : Type 0
  pub Error : Type 0
  pub write_all : State → Bytes → Outcome Error (Unit {0}) × State
  pub flush : State → Outcome Error (Unit {0}) × State

pub data WriteError (E : Type 0) : Type 0 where
  too_large_for_prefix : WriteError E
  write : E → WriteError E

module _ (K : Sink) where
  abbrev wrapped :
      Outcome K.Error (Unit {0}) × K.State → Outcome (WriteError K.Error) (Unit {0}) × K.State
  wrapped r = (map_err write r.0, r.1)

  unfoldable pub write_frame : Bytes → Exec K.State (WriteError K.Error) (Unit {0})
  unfolding to_le_bytes
  write_frame body =
      if ltb (length body) (2 ^ 32)
      then (do
        λ s. wrapped (K.write_all s (to_le_bytes (length body)))
        λ s. wrapped (K.write_all s body)
        λ s. wrapped (K.flush s))
      else raise too_large_for_prefix
