-- ===== src/Host/Loop/Bounds.antt =====
-- The frames that the host writes.
use mathlib.Core.List.{append_assoc, append-nil}
use bypass.Prelude.{
  ℕ, zero, suc, ◌+◌, ◌≤◌, ◌≡◌, refl, sym, ◌∙◌, ◌⊎◌, inl, inr, Option, none, some, List, [], ◌∷◌,
  ◌++◌, arith, ok, returned, map_err, expect, ltb, length, All, All-append, Bool-cases,
}
use bypass.Exec.{Exec, continue_lem}
use bypass.Text.{Bytes}
use bypass.Host.{max_reply_bytes, Request, Reply, refuse, reply_too_large}
use bypass.Host.Framing.{Sink}
use bypass.Host.Framing.RoundTrip.{IsSink, frame_of, write_frame_lem}
use bypass.Host.Loop.{
  Json, Served, Connection, write_out, send_reply, serve_frame, run_loop, run, reply_to, on_served,
  on_input, encode_reply, round, Error,
}

abbrev pub Fits : Bytes → Type 0
Fits body = length body ≤ max_reply_bytes

-- The frames of these bodies, one after the other.
abbrev pub frames_of : List Bytes → Bytes
frames_of [] = []
frames_of (body ∷ bodies) = frame_of body ++ frames_of bodies

pub frames_of-append : (xs ys : List Bytes) → frames_of (xs ++ ys) ≡ frames_of xs ++ frames_of ys
frames_of-append [] ys = refl
frames_of-append (x ∷ xs) ys =
    rw (frames_of-append xs ys) (sym (append_assoc (frame_of x) (frames_of xs) (frames_of ys)))

expected_of : {E F A : Type 0} (r : E ⊎ A) (a : A) → expect {F = F} (returned r) ≡ ok a → r ≡ inr a
expected_of (inl e) a h = cc
expected_of (inr b) a h = ground arith

-- The reply about an oversized reply is itself small.
abbrev pub IsBrief : {SE TE : Type 0} → Json SE TE → Type 0
IsBrief J =
    (n : ℕ) (bytes : Bytes) → J.to_vec (refuse 0 (reply_too_large n)) ≡ inr bytes → Fits bytes

module _ (IO : Type 0) {SE TE H : Type 0} (J : Json SE TE) (K : Sink)
    (handle : Request → Exec H ⊥ (Reply SE TE)) (laws : IsSink K) where
  open laws use {content}

  -- What has been written since `before`: frames within the cap.
  abbrev WroteFrames : Bytes → Served H K.State → Type 0
  WroteFrames before s =
      (bodies : List Bytes) × All Fits bodies × (content s.output ≡ before ++ frames_of bodies)

  write_out_frames :
      (before bytes : Bytes) (s : Served H K.State)
      → Fits bytes
      → WroteFrames before s
      → WroteFrames before (write_out IO J K handle bytes s).1
  write_out_frames before bytes s fits (bodies, small, held) = (
    bodies ++ bytes ∷ [],
    All-append Fits bodies (bytes ∷ []) small (fits, tt),
    (write_frame_lem K laws bytes s.output (omega (arith, fits))).1
        ∙ rw (held, frames_of-append bodies (bytes ∷ []), append-nil, append_assoc) refl,
  )

  send_reply_frames :
      (before bytes : Bytes) (s : Served H K.State)
      → IsBrief J
      → WroteFrames before s
      → WroteFrames before (send_reply IO J K handle bytes s).1
  unfolding send_reply
  send_reply_frames before bytes s brief wrote =
      elim (Bool-cases (ltb max_reply_bytes (length bytes))) [
        | inr e ↦ rw e (write_out_frames before bytes s (ground arith) wrote)
        | inl e ↦ rw e (
            continue_lem (WroteFrames before) (write_out IO J K handle)
              (expect (returned (J.to_vec (refuse 0 (reply_too_large (length bytes)))))) s
              (λ oversize e'.
                write_out_frames before oversize s
                  (brief (length bytes) oversize (expected_of _ oversize e')) wrote)
              wrote)
      ]

  reply_to_frames :
      (before : Bytes) (request : J.Error ⊎ Request) (s : Served H K.State)
      → WroteFrames before s
      → WroteFrames before (reply_to IO J K handle request s).1
  reply_to_frames before (inl e) s wrote = wrote
  reply_to_frames before (inr req) s wrote = wrote

  serve_frame_frames :
      (before req : Bytes) (s : Served H K.State)
      → IsBrief J
      → WroteFrames before s
      → WroteFrames before (serve_frame IO J K handle req s).1
  unfolding serve_frame
  serve_frame_frames before req s brief wrote =
      let request = J.from_slice req in
      let t = (reply_to IO J K handle request s).1 in
      let replied = reply_to_frames before request s wrote in
      continue_lem (WroteFrames before) _ (reply_to IO J K handle request s).0 t
        (λ reply _.
          continue_lem (WroteFrames before) (send_reply IO J K handle)
            (map_err encode_reply (returned (J.to_vec reply))) t
            (λ bytes _. send_reply_frames before bytes t brief replied) replied)
        replied

  round_frames :
      (before : Bytes) (rest : Exec (Connection IO H K.State) (Error IO J K handle) ℕ)
      (c : Connection IO H K.State) (frame : Option Bytes)
      → IsBrief J
      → ((d : Connection IO H K.State)
          → WroteFrames before d.served
          → WroteFrames before (rest d).1.served)
      → WroteFrames before c.served
      → WroteFrames before (round IO J K handle rest frame c).1.served
  round_frames before rest c none brief goes wrote = wrote
  round_frames before rest c (some req) brief goes wrote =
      let served = serve_frame_frames before req c.served brief wrote in
      continue_lem (λ d. WroteFrames before d.served) _ (serve_frame IO J K handle req c.served).0
        (on_served IO J K handle (serve_frame IO J K handle req) c).1 (λ _ _. goes _ served) served

  run_loop_frames :
      (fuel : ℕ) (before : Bytes) (c : Connection IO H K.State)
      → IsBrief J
      → WroteFrames before c.served
      → WroteFrames before (run_loop IO J K handle fuel c).1.served
  unfolding run_loop
  run_loop_frames zero before c brief wrote = wrote
  run_loop_frames (suc fuel) before c brief wrote =
      continue_lem (λ d. WroteFrames before d.served) _ (on_input IO J K handle c).0
        (on_input IO J K handle c).1
        (λ frame _.
          round_frames before (run_loop IO J K handle fuel) (on_input IO J K handle c).1 frame brief
            (λ d held. run_loop_frames fuel before d brief held) wrote)
        wrote

  -- With a standard output that takes what is written, and a reply about an oversized reply that
  -- is itself within the cap: however a session ends, the host has written a sequence of whole
  -- frames, none with a body above the cap of 512 KiB.
  pub run-Fits :
      (c : Connection IO H K.State)
      → IsBrief J
      → (bodies : List Bytes) × All Fits bodies
        × (content (run IO J K handle c).1.served.output
            ≡ content c.served.output ++ frames_of bodies)
  unfolding run
  run-Fits c brief =
      run_loop_frames (length c.input.bytes + 1) (content c.served.output) c brief
        ([], tt, sym (append-nil (content c.served.output)))
