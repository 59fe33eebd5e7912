-- ===== src/Channel/SessionBridge/Chunks.antt =====
-- What the pty session writes, on its way to the client.
use pty_relay.Base.{
  ℕ, Bool, [], ◌∷◌, ◌≡◌, refl, ◌⊎◌, inl, inr, Bytes, length, arith, ◌≤◌, ◌<◌, leb, Bool-cases,
}
use pty_relay.Js.{nat}
use pty_relay.Channel.Framing.{Frame, throws, frame_too_big, encode_frame, decode_frame, ok}
use pty_relay.Channel.Framing.RoundTrip.{encode-Fits_iff, decode-encode}
use pty_relay.Channel.Connection.{Conn, send_bridge_data, ship_bridge, output, thrown, sent_data}
use pty_relay.Channel.SessionBridge.{SessionBridge, sent, close, received, step, goes_over, is_some}

-- The daemon hands the chunk on, in one frame that decodes to the whole of it.
pub record IsForwarded (c : Conn) (s : ℕ) (chunk : Bytes) (fails : Bool) (b : SessionBridge)
    : Type 0 where
  pub short : length chunk ≤ 65531
  pub frame_bytes : Bytes
  pub forwards : step (goes_over c) (received s chunk fails) b ≡ (b, sent chunk ∷ [])
  pub sends : send_bridge_data chunk c ≡ output (sent_data frame_bytes) c
  pub decodes : decode_frame frame_bytes ≡ ok (record { channel_id = 1; type = 0; payload = chunk })

-- Nothing is sent, and the bridge closes.
pub record IsCutOff (c : Conn) (s : ℕ) (chunk : Bytes) (fails : Bool) (b : SessionBridge)
    : Type 0 where
  pub long : 65531 < length chunk
  pub closes : step (goes_over c) (received s chunk fails) b ≡ close "send_failed" fails b
  pub throws_out : send_bridge_data chunk c ≡ thrown c

too_long : (p : Bytes) → 65531 < length p → encode_frame (nat 1) (nat 0) p ≡ throws frame_too_big
unfolding encode_frame
too_long p l = ground arith

forwarded :
    (c : Conn) (s : ℕ) (chunk : Bytes) (fails : Bool) (b : SessionBridge)
    → length chunk ≤ 65531
    → IsForwarded c s chunk fails b
unfolding step goes_over is_some send_bridge_data ship_bridge
forwarded c s chunk fails b h =
    let f : Frame = record { channel_id = 1; type = 0; payload = chunk } in
    let (bs, e) =
      (encode-Fits_iff f).1
        (record { id_fits = ground arith; type_fits = ground arith; payload_fits = omega arith }) in
    record {
      short = h;
      frame_bytes = bs;
      forwards = rw e refl;
      sends = rw e refl;
      decodes = decode-encode f bs e;
    }

cut_off :
    (c : Conn) (s : ℕ) (chunk : Bytes) (fails : Bool) (b : SessionBridge)
    → 65531 < length chunk
    → IsCutOff c s chunk fails b
unfolding step goes_over is_some send_bridge_data ship_bridge
cut_off c s chunk fails b h = record {
  long = h;
  closes = rw (too_long chunk h) refl;
  throws_out = rw (too_long chunk h) refl;
}

-- What the pty session writes goes to the client in one frame, which decodes to the whole of it on
-- channel 1, when it has at most 65531 bytes; and when it has more, sendBridgeData throws and the
-- bridge closes.
pub received_outcome :
    (c : Conn) (s : ℕ) (chunk : Bytes) (fails : Bool) (b : SessionBridge)
    → IsForwarded c s chunk fails b ⊎ IsCutOff c s chunk fails b
received_outcome c s chunk fails b = elim (Bool-cases (leb (length chunk) 65531)) [
  | inl h ↦ inl (forwarded c s chunk fails b (ground arith))
  | inr h ↦ inr (cut_off c s chunk fails b (ground arith))
]
