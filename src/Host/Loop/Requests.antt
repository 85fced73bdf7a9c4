-- ===== src/Host/Loop/Requests.antt =====
-- The loop of the native-messaging host against its description: requests are served one by one.
use bypass.Prelude.{
  ℕ, zero, suc, ◌+◌, ◌≤◌, ◌<◌, ◌≡◌, refl, ap, List, [], ◌∷◌, arith, Outcome, ok, err, abort, All,
  length, length-append, none,
}
use bypass.Exec.{Exec, pure, continue, ◌>>◌}
use bypass.Text.{Bytes}
use bypass.Host.{Request, Reply}
use bypass.Host.Framing.{Sink, eof, read_frame, to_le_bytes}
use bypass.Host.Framing.RoundTrip.{frame_of, read_frame-frame_of}
use bypass.Host.Loop.{Json, Served, Connection, Serving, Error, serve_frame, run_loop, run}
use bypass.Host.Loop.Bounds.{Fits, frames_of}

length-frame_of : (body : Bytes) → 1 ≤ length (frame_of body)
unfolding to_le_bytes
length-frame_of body = omega arith

length-frames_of : (bodies : List Bytes) → length bodies ≤ length (frames_of bodies)
length-frames_of [] = omega arith
length-frames_of (b ∷ bs) =
    omega (arith, length-frames_of bs, length-append (frame_of b) (frames_of bs), length-frame_of b)

read_frame_eof :
    {IO : Type 0}
    → read_frame {IO = IO} (record { bytes = []; ending = eof })
      ≡ (ok none, record { bytes = []; ending = eof })
unfolding read_frame
read_frame_eof = refl

module _ (IO : Type 0) {SE TE H : Type 0} (J : Json SE TE) (K : Sink)
    (handle : Request → Exec H ⊥ (Reply SE TE)) where
  -- The requests served in order, up to the first error.
  abbrev pub serve_all : List Bytes → Serving IO J K handle ℕ
  serve_all [] = pure 0
  serve_all (req ∷ reqs) = do serve_frame IO J K handle req; serve_all reqs

  abbrev pub at : List Bytes → Served H K.State → Connection IO H K.State
  at reqs s = record { input = record { bytes = frames_of reqs; ending = eof }; served = s }

  -- The outcome and what has been served.
  abbrev seen :
      Outcome (Error IO J K handle) ℕ × Connection IO H K.State
      → Outcome (Error IO J K handle) ℕ × Served H K.State
  seen r = (r.0, r.1.served)

  continue-seen :
      (rest : Exec (Connection IO H K.State) (Error IO J K handle) ℕ)
      (next : Serving IO J K handle ℕ) (r : Outcome (Error IO J K handle) (Unit {0}))
      (c : Connection IO H K.State)
      → seen (rest c) ≡ next c.served
      → seen (continue (λ _. rest) r c) ≡ continue (λ _. next) r c.served
  continue-seen rest next (ok u) c same = same
  continue-seen rest next (err e) c same = refl
  continue-seen rest next abort c same = refl

  run_loop-serve_all :
      (fuel : ℕ) (reqs : List Bytes) (s : Served H K.State)
      → All Fits reqs
      → length reqs < fuel
      → seen (run_loop IO J K handle fuel (at reqs s)) ≡ serve_all reqs s
  unfolding run_loop
  run_loop-serve_all zero reqs s fits h = absurd (omega arith)
  run_loop-serve_all (suc fuel) [] s fits h = rw read_frame_eof refl
  run_loop-serve_all (suc fuel) (req ∷ reqs) s fits h =
      rw (read_frame-frame_of req (frames_of reqs) eof fits.0) (
        continue-seen (run_loop IO J K handle fuel) (serve_all reqs)
          (serve_frame IO J K handle req s).0 (at reqs (serve_frame IO J K handle req s).1)
          (run_loop-serve_all fuel reqs (serve_frame IO J K handle req s).1 fits.1 (omega arith)))

  -- Where the input is a sequence of whole frames with bodies within the cap, and then ends: the
  -- loop serves the bodies as requests, each exactly once and in order up to the first error, and
  -- does no more; the rounds it is given are enough.
  pub run-serve_all :
      (reqs : List Bytes) (s : Served H K.State)
      → All Fits reqs
      → ((run IO J K handle (at reqs s)).0 ≡ (serve_all reqs s).0)
        × ((run IO J K handle (at reqs s)).1.served ≡ (serve_all reqs s).1)
  unfolding run
  run-serve_all reqs s fits =
      let same =
        run_loop-serve_all (length (frames_of reqs) + 1) reqs s fits
          (omega (arith, length-frames_of reqs)) in
      (ap (λ r. r.0) same, ap (λ r. r.1) same)
