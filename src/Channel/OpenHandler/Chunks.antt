-- ===== src/Channel/OpenHandler/Chunks.antt =====
-- A chunk of a child's output on its way to the client.
use pty_relay.Base.{
  ℕ, true, some, [], ◌∷◌, ◌++◌, ◌≡◌, refl, ◌∙◌, ap, Bytes, length, arith, ◌≤◌, ◌<◌, ◌==◌,
}
use pty_relay.Js.{nat}
use pty_relay.Channel.Framing.{
  Frame, EncodeResult, bytes, throws, frame_too_big, encode_frame, decode_frame, ok, wrap_substream,
}
use pty_relay.Channel.Framing.RoundTrip.{encode-Fits_iff, decode-encode}
use pty_relay.Channel.Registry.{Registry}
use pty_relay.Channel.Exec
use pty_relay.Channel.Exec.{Bridge, Child, ChildEvent, stdout, stderr, Action, send_data}
use pty_relay.Channel.Connection.{
  Handler, Env, sent_data, World, Conn, on_child_event, on_bridge, bridge_for, perform, perform_all,
  data_for, and_then, returned, send_channel_data, ship_data,
}

-- A pipe that the daemon reads, its sub-stream and its event.
pub data Pipe : Type 0 where
  out_pipe err_pipe : Pipe

abbrev pub substream : Pipe → ℕ
substream out_pipe = 1
substream err_pipe = 2

abbrev pub chunk_of : Pipe → Bytes → ChildEvent
chunk_of out_pipe chunk = stdout chunk
chunk_of err_pipe chunk = stderr chunk

abbrev pub HasPipe : Pipe → Child → Type 0
HasPipe out_pipe k = k.has_stdout ≡ true
HasPipe err_pipe k = k.has_stderr ≡ true

-- A bridge at reference `a` whose child has the pipe.
pub record Reads (s : Pipe) (a : ℕ) (w : World) (b : Bridge) : Type 0 where
  pub child : Child
  pub here : w.bridges a ≡ some b
  pub alive : b.child ≡ some child
  pub reads : HasPipe s child

ship_out :
    (e : EncodeResult) (c c' : Conn)
    → c.1.out ≡ c'.1.out
    → (and_then (ship_data e c) (λ _. returned tt)).0.1.out ≡ (ship_data e c').0.1.out
unfolding ship_data
ship_out (bytes bs) c c' h = ap (λ l. l ++ sent_data bs ∷ []) h
ship_out (throws x) c c' h = h

too_long :
    (id : ℕ) (p : Bytes)
    → id < 4294967296
    → 65531 < length p
    → encode_frame (nat id) (nat 0) p ≡ throws frame_too_big
unfolding encode_frame
too_long id p h l = ground arith

==_refl : (a : ℕ) → (a == a) ≡ true
==_refl a = ground arith

module _ (env : Env) where
  sends :
      (s : Pipe) (a : ℕ) (chunk : Bytes) (r : Registry Handler) (w : World) (b : Bridge)
      → Reads s a w b
      → (on_child_event env a (chunk_of s chunk) (r, w)).0.1.out
        ≡ (ship_data (encode_frame (nat b.channel_id) (nat 0) (substream s ∷ chunk)) (r, w)).0.1.out
  unfolding on_child_event on_bridge bridge_for perform perform_all data_for send_channel_data
      Exec.child_for Exec.on_child wrap_substream
  sends out_pipe a chunk r w b v =
      simp (v.here, v.alive, v.reads, ==_refl a) (ship_out _ _ (r, w) refl)
  sends err_pipe a chunk r w b v =
      simp (v.here, v.alive, v.reads, ==_refl a) (ship_out _ _ (r, w) refl)

  -- A chunk of at most 65530 bytes that the child of a bridge with an id below 2^32 writes to
  -- stdout or stderr is sent as one frame, which decodes to a DATA frame of the bridge's channel
  -- with the sub-stream and the whole chunk; also when the bridge has ended and its channel_close
  -- was sent.
  pub on_child_event-chunk :
      (s : Pipe) (a : ℕ) (chunk : Bytes) (r : Registry Handler) (w : World) (b : Bridge)
      → Reads s a w b
      → b.channel_id < 4294967296
      → length chunk ≤ 65530
      → (bs : Bytes) × ((on_child_event env a (chunk_of s chunk) (r, w)).0.1.out
          ≡ w.out ++ sent_data bs ∷ [])
        × (decode_frame bs
            ≡ ok (record { channel_id = b.channel_id; type = 0; payload = substream s ∷ chunk }))
  unfolding ship_data
  on_child_event-chunk s a chunk r w b v small short =
      let f : Frame = record {
        channel_id = b.channel_id;
        type = 0;
        payload = substream s ∷ chunk;
      } in
      let (bs, e) =
        (encode-Fits_iff f).1
          (record { id_fits = small; type_fits = ground arith; payload_fits = omega arith }) in
      (bs, sends s a chunk r w b v ∙ ap (λ x. (ship_data x (r, w)).0.1.out) e, decode-encode f bs e)

  -- A chunk longer than 65530 bytes that the child of a bridge with an id below 2^32 writes to
  -- stdout or stderr is lost: nothing is sent for it.
  pub on_child_event_lost :
      (s : Pipe) (a : ℕ) (chunk : Bytes) (r : Registry Handler) (w : World) (b : Bridge)
      → Reads s a w b
      → b.channel_id < 4294967296
      → 65530 < length chunk
      → (on_child_event env a (chunk_of s chunk) (r, w)).0.1.out ≡ w.out
  unfolding ship_data encode_frame
  on_child_event_lost s a chunk r w b v small long =
      sends s a chunk r w b v
      ∙ ap (λ x. (ship_data x (r, w)).0.1.out)
          (too_long b.channel_id (substream s ∷ chunk) small (omega arith))
