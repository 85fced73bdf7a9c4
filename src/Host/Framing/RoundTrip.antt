-- ===== src/Host/Framing/RoundTrip.antt =====
-- A frame that is written is read back, and a frame that is read was in the input.
use mathlib.Core.List.{append_assoc}
use bypass.Prelude.{
  ℕ, ◌+◌, ◌*◌, ◌/◌, ◌%◌, ◌^◌, ◌≤◌, ◌<◌, ◌≡◌, refl, ◌∙◌, true, false, some, [], ◌∷◌, ◌++◌, arith, ok,
  ltb, length,
}
use bypass.Text.{Bytes}
use bypass.Host.{max_reply_bytes}
use bypass.Host.Framing.{
  Ending, Sink, split_at, to_le_bytes, read_exact, read_body, read_frame, write_frame,
}

-- What standard output promises where no write fails: it holds what was written, in order.
pub record IsSink (K : Sink) : Type 0 where
  pub content : K.State → Bytes
  pub write_all_lem :
      (s : K.State) (bytes : Bytes)
      → ((K.write_all s bytes).0 ≡ ok tt) × (content (K.write_all s bytes).1 ≡ content s ++ bytes)
  pub flush_lem : (s : K.State) → ((K.flush s).0 ≡ ok tt) × (content (K.flush s).1 ≡ content s)

abbrev pub frame_of : Bytes → Bytes
frame_of body = to_le_bytes (length body) ++ body

split_at-append : (bs rest : Bytes) → split_at (length bs) (bs ++ rest) ≡ some (bs, rest)
unfolding split_at
split_at-append [] rest = refl
split_at-append (b ∷ bs) rest = rw (split_at-append bs rest) refl

from_le_bytes_digits :
    (n : ℕ)
    → n < 2 ^ 32
    → n % 256 + 256 * (n / 256 % 256 + 256 * (n / 65536 % 256 + 256 * (n / 16777216 % 256 + 0))) ≡ n
from_le_bytes_digits n h = omega arith

module _ {IO : Type 0} where
  read_body_lem :
      (body rest : Bytes) (ending : Ending IO)
      → length body ≤ max_reply_bytes
      → read_body (length body) (record { bytes = body ++ rest; ending = ending })
        ≡ (ok (some body), record { bytes = rest; ending = ending })
  unfolding read_body read_exact
  read_body_lem body rest ending h = rw (small, split_at-append body rest) refl
    where
      small : ltb max_reply_bytes (length body) ≡ false
      small = ground arith

  -- A frame with a body within the cap is read as that body, and what stands behind it is left in
  -- the input.
  pub read_frame-frame_of :
      (body rest : Bytes) (ending : Ending IO)
      → length body ≤ max_reply_bytes
      → read_frame (record { bytes = frame_of body ++ rest; ending = ending })
        ≡ (ok (some body), record { bytes = rest; ending = ending })
  unfolding read_frame read_exact split_at to_le_bytes
  read_frame-frame_of body rest ending h =
      rw (from_le_bytes_digits (length body) (omega arith)) (read_body_lem body rest ending h)

module _ (K : Sink) (laws : IsSink K) where
  open laws use {content, write_all_lem, flush_lem}

  pub write_frame_lem :
      (body : Bytes) (s : K.State)
      → length body < 2 ^ 32
      → ((write_frame K body s).0 ≡ ok tt)
        × (content (write_frame K body s).1 ≡ content s ++ frame_of body)
  unfolding write_frame to_le_bytes
  write_frame_lem body s h =
      let (prefixed, held) = write_all_lem s (to_le_bytes (length body)) in
      let t = (K.write_all s (to_le_bytes (length body))).1 in
      let (sent, all) = write_all_lem t body in
      let (done, kept) = flush_lem (K.write_all t body).1 in
      let fits : ltb (length body) (2 ^ 32) ≡ true = ground arith in
      rw (fits, prefixed, sent, done)
        (refl, kept ∙ all ∙ rw held (append_assoc (content s) (to_le_bytes (length body)) body))
