-- ===== src/Host/Loop.antt =====
-- The loop of the native-messaging host, `run` of crates/bypass-cli/src/messaging_host.rs, over the
-- handler of requests. serde_json is a parameter.
pub mod Bounds
pub mod Requests
use bypass.Prelude.{
  ℕ, zero, suc, ◌+◌, ◌⊎◌, inl, inr, Option, none, some, List, [], ◌∷◌, Outcome, ok, err, abort,
  map_err, expect, returned, ltb, if◌then◌else◌, length,
}
use bypass.Exec.{Exec, pure, lift, ◌>>=◌, ◌>>◌}
use bypass.Text.{Bytes}
use bypass.Host.{
  max_reply_bytes, Request, Reply, Message, refuse, malformed_request, reply_too_large,
}
use bypass.Host.Framing.{Input, FrameError, WriteError, Sink, read_frame, write_frame}

-- serde_json at the types of the two messages.
pub record Json (SE TE : Type 0) : Type 1 where
  pub Error : Type 0
  pub from_slice : Bytes → Error ⊎ Request
  pub to_vec : Reply SE TE → Error ⊎ Bytes

pub data HostError (IO JE WE : Type 0) : Type 0 where
  read_request_frame : FrameError IO → HostError IO JE WE
  encode_reply : JE → HostError IO JE WE
  write_reply_frame : WriteError WE → HostError IO JE WE

-- The state of the handler, and standard output.
pub record Served (H O : Type 0) : Type 0 where
  pub session : H
  pub output : O

pub record Connection (IO H O : Type 0) : Type 0 where
  pub input : Input IO
  pub served : Served H O

module _ (IO : Type 0) {SE TE H : Type 0} (J : Json SE TE) (K : Sink)
    (handle : Request → Exec H ⊥ (Reply SE TE)) where
  abbrev pub Error : Type 0
  Error = HostError IO J.Error K.Error

  abbrev pub Serving : Type 0 → Type 0
  Serving A = Exec (Served H K.State) Error A

  -- A handler has no error; it may panic.
  abbrev handled : Outcome ⊥ (Reply SE TE) → Outcome Error (Reply SE TE)
  handled (ok reply) = ok reply
  handled (err e) = absurd e
  handled abort = abort

  abbrev pub reply_to : J.Error ⊎ Request → Serving (Reply SE TE)
  reply_to (inl e) s = (ok (refuse 0 malformed_request), s)
  reply_to (inr req) s =
      (handled (handle req s.session).0, record s { session = (handle req s.session).1 })

  abbrev pub write_out : Bytes → Serving (Unit {0})
  write_out bytes s = (
    map_err write_reply_frame (write_frame K bytes s.output).0,
    record s { output = (write_frame K bytes s.output).1 },
  )

  -- A reply above the cap is replaced by one that says so.
  unfoldable pub send_reply : Bytes → Serving (Unit {0})
  send_reply bytes =
      if ltb max_reply_bytes (length bytes)
      then (do
        oversize ← lift (expect (returned (J.to_vec (refuse 0 (reply_too_large (length bytes))))))
        write_out oversize)
      else write_out bytes

  -- The body of the loop, for the request in a frame.
  unfoldable pub serve_frame : Bytes → Serving (Unit {0})
  unfolding send_reply
  serve_frame req_bytes = do
    reply ← reply_to (J.from_slice req_bytes)
    bytes ← lift (map_err encode_reply (returned (J.to_vec reply)))
    send_reply bytes

  abbrev pub on_input : Exec (Connection IO H K.State) Error (Option Bytes)
  on_input c = (
    map_err read_request_frame (read_frame c.input).0,
    record c { input = (read_frame c.input).1 },
  )

  abbrev pub on_served : Serving (Unit {0}) → Exec (Connection IO H K.State) Error (Unit {0})
  on_served call c = ((call c.served).0, record c { served = (call c.served).1 })

  -- A round of the loop, for what was read, and what follows it.
  abbrev pub round :
      Exec (Connection IO H K.State) Error ℕ → Option Bytes → Exec (Connection IO H K.State) Error ℕ
  round rest none = pure 0
  round rest (some req_bytes) = do on_served (serve_frame req_bytes); rest

  -- `abort` is a loop that ran out of fuel; `run` gives one round for each byte, and one more.
  unfoldable pub run_loop : ℕ → Exec (Connection IO H K.State) Error ℕ
  run_loop zero = lift abort
  run_loop (suc fuel) = do frame ← on_input; round (run_loop fuel) frame

  unfoldable pub run : Exec (Connection IO H K.State) Error ℕ
  unfolding run_loop
  run c = run_loop (length c.input.bytes + 1) c
