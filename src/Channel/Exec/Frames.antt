-- ===== src/Channel/Exec/Frames.antt =====
-- What an exec bridge does with the frames of a client that keeps the protocol, and of one that breaks it.
use pty_relay.Base.{
  ℕ, suc, String, true, false, some, List, [], ◌∷◌, ◌++◌, map, ◌≡◌, refl, All, Bytes, arith, ◌==◌,
  ◌∙◌, ◌≢◌, length,
}
use pty_relay.Channel.Framing.{type_signal, type_data, stdin_id, unwrap_substream, wrap_substream}
use pty_relay.Channel.Exec.{
  Platform, send_close, stdin_write, stdin_end, kill, Bridge, Event, frame, on_frame, close, step,
  run, Child, tear_down, on_stdin, on_live_frame, frame_for, on_data,
}

suc-ne_zero : (n : ℕ) → (suc n == 0) ≡ false
suc-ne_zero n = ground arith

-- The frame that carries bytes for the child's stdin; with no bytes it is the end of stdin.
abbrev pub stdin_frame : Bytes → Event
stdin_frame bytes = frame type_data (wrap_substream stdin_id bytes)

-- The ways in which an inbound frame breaks the protocol of an exec channel.
pub data Violates (b : Bridge) (type : ℕ) : Bytes → Type 0 where
  odd_type : {payload : Bytes} → type ≢ type_signal → type ≢ type_data → Violates b type payload
  no_substream : type ≡ type_data → Violates b type []
  odd_substream :
      {s : ℕ} {rest : Bytes} → type ≡ type_data → s ≢ stdin_id → Violates b type (s ∷ rest)
  after_end :
      {s : ℕ} {rest : Bytes} → type ≡ type_data → b.stdin_closed ≡ true → Violates b type (s ∷ rest)

ne→false : {a b : ℕ} → a ≢ b → (a == b) ≡ false
ne→false h = ground arith

-- A started bridge whose child has a stdin that is still open.
pub record IsOpen (b : Bridge) : Type 0 where
  pub child : Child
  pub is_child : b.child ≡ some child
  pub has_pipe : child.has_stdin ≡ true
  pub live : b.finalized ≡ false
  pub not_ended : b.stdin_closed ≡ false

module _ (p : Platform) where
  write-step :
      (b : Bridge) (x : ℕ) (chunk : Bytes)
      → IsOpen b
      → step p (stdin_frame (x ∷ chunk)) b ≡ (b, stdin_write (x ∷ chunk) ∷ [])
  unfolding step on_frame frame_for on_live_frame on_data on_stdin unwrap_substream wrap_substream
  write-step b x chunk o =
      simp (o.is_child, o.live, o.not_ended, o.has_pipe, suc-ne_zero (length chunk))

  end-step :
      (b : Bridge)
      → IsOpen b
      → step p (stdin_frame []) b ≡ (record b { stdin_closed = true }, stdin_end ∷ [])
  unfolding step on_frame frame_for on_live_frame on_data on_stdin unwrap_substream wrap_substream
  end-step b o = simp (o.is_child, o.live, o.not_ended, o.has_pipe)

  -- On a started bridge with an open stdin, frames with non-empty chunks and then the empty frame
  -- write these chunks in order and then end stdin.
  run-stdin_frames :
      (chunks : List Bytes) (b : Bridge)
      → IsOpen b
      → All (λ chunk. chunk ≢ []) chunks
      → run p (map stdin_frame chunks ++ stdin_frame [] ∷ []) b
        ≡ (record b { stdin_closed = true }, map stdin_write chunks ++ stdin_end ∷ [])
  unfolding run
  run-stdin_frames [] b o h = rw (end-step b o)
  run-stdin_frames ([] ∷ chunks) b o h = absurd (h.0 refl)
  run-stdin_frames ((x ∷ chunk) ∷ chunks) b o h =
      rw (write-step b x chunk o, run-stdin_frames chunks b o h.1)

  tear_down-live :
      (b : Bridge) (c : Child) (reason : String)
      → b.child ≡ some c
      → b.finalized ≡ false
      → tear_down p reason b
        ≡ (record b { finalized = true }, send_close b.channel_id reason ∷ kill "SIGTERM" ∷ [])
  unfolding tear_down close
  tear_down-live b c reason e live = simp (e, live)

  step-live_frame :
      (b : Bridge) (c : Child) (type : ℕ) (payload : Bytes)
      → b.child ≡ some c
      → b.finalized ≡ false
      → step p (frame type payload) b ≡ on_live_frame p c type payload b
  unfolding step on_frame frame_for
  step-live_frame b c type payload e live = simp (e, live)

  live_frame-violation :
      (b : Bridge) (c : Child) (type : ℕ) (payload : Bytes)
      → Violates b type payload
      → on_live_frame p c type payload b ≡ tear_down p "protocol_error" b
  unfolding on_live_frame on_data unwrap_substream on_stdin
  live_frame-violation b c type payload (odd_type h k) = ground (arith, ne→false h, ne→false k)
  live_frame-violation b c type [] (no_substream e) = rw e
  live_frame-violation b c type (s ∷ rest) (odd_substream e h) = rw (e, ne→false h)
  live_frame-violation b c type (s ∷ rest) (after_end e shut) = ground arith

  -- On a live bridge every frame that breaks the exec protocol closes the channel with
  -- protocol_error and sends SIGTERM to the child.
  step_violation :
      (b : Bridge) (c : Child) (type : ℕ) (payload : Bytes)
      → b.child ≡ some c
      → b.finalized ≡ false
      → Violates b type payload
      → step p (frame type payload) b ≡ (
        record b { finalized = true },
        send_close b.channel_id "protocol_error" ∷ kill "SIGTERM" ∷ [],
      )
  step_violation b c type payload e live bad =
      step-live_frame b c type payload e live
      ∙ live_frame-violation b c type payload bad
      ∙ tear_down-live b c "protocol_error" e live
