-- ===== src/Channel/Framing/RoundTrip.antt =====
-- Encoding and decoding of frames (src/relay/channel-framing.ts), and where each fails.
use pty_relay.Base.{
  ℕ, ◌+◌, ◌*◌, ◌/◌, ◌%◌, ◌≤◌, ◌<◌, ◌≡◌, ◌↔◌, ◌∷◌, length, Bytes, All, IsByte, ap, ◌∙◌, arith,
}
use pty_relay.Js.{nat}
use pty_relay.Channel.Framing.{
  Frame, ok, err, frame_too_short, frame_too_large, bytes, encode_frame, decode_frame,
}

-- A frame that the format can hold.
pub record Fits (f : Frame) : Type 0 where
  pub id_fits : f.channel_id < 4294967296
  pub type_fits : IsByte f.type
  pub payload_fits : length f.payload ≤ 65531

-- Four big-endian bytes hold a uint32.
get-set_uint32 :
    (n : ℕ)
    → n < 4294967296
    → n / 16777216 % 256 * 16777216 + n / 65536 % 256 * 65536 + n / 256 % 256 * 256 + n % 256 ≡ n
get-set_uint32 n h = omega arith

set-get_uint32 :
    (a b c d : ℕ) {n : ℕ}
    → IsByte a
    → IsByte b
    → IsByte c
    → IsByte d
    → n ≡ a * 16777216 + b * 65536 + c * 256 + d
    → (n < 4294967296)
      × (n / 16777216 % 256 ≡ a)
      × (n / 65536 % 256 ≡ b)
      × (n / 256 % 256 ≡ c)
      × (n % 256 ≡ d)
set-get_uint32 a b c d ha hb hc hd e = omega arith

-- What `encode_frame` writes.
abbrev wire : Frame → Bytes
wire f =
    (f.channel_id / 16777216 % 256)
    ∷ (f.channel_id / 65536 % 256)
    ∷ (f.channel_id / 256 % 256)
    ∷ (f.channel_id % 256)
    ∷ (f.type % 256)
    ∷ f.payload

encode-wire :
    (f : Frame) → Fits f → encode_frame (nat f.channel_id) (nat f.type) f.payload ≡ bytes (wire f)
unfolding encode_frame
encode-wire f h = ground arith

encode-bytes :
    (f : Frame) (bs : Bytes)
    → encode_frame (nat f.channel_id) (nat f.type) f.payload ≡ bytes bs
    → Fits f × (bs ≡ wire f)
unfolding encode_frame
encode-bytes f bs e = ground arith

decode-wire : (f : Frame) → Fits f → decode_frame (wire f) ≡ ok f
unfolding decode_frame
decode-wire f h = ground (arith, get-set_uint32 f.channel_id)

-- What encode_frame makes of a frame, decode_frame reads back as that frame.
pub decode-encode :
    (f : Frame) (bs : Bytes)
    → encode_frame (nat f.channel_id) (nat f.type) f.payload ≡ bytes bs
    → decode_frame bs ≡ ok f
decode-encode f bs e = let (fits, same) = encode-bytes f bs e in rw same (decode-wire f fits)

-- What a decoded frame of at least five bytes holds.
decode-ok :
    (a b c d t : ℕ) (payload : Bytes) (f : Frame)
    → decode_frame (a ∷ b ∷ c ∷ d ∷ t ∷ payload) ≡ ok f
    → (f.channel_id ≡ a * 16777216 + b * 65536 + c * 256 + d)
      × (f.type ≡ t)
      × (f.payload ≡ payload)
      × (length payload ≤ 65531)
unfolding decode_frame
decode-ok a b c d t payload f e = ground arith

wire-decode :
    (a b c d t : ℕ) (payload : Bytes) (f : Frame)
    → All IsByte (a ∷ b ∷ c ∷ d ∷ t ∷ payload)
    → decode_frame (a ∷ b ∷ c ∷ d ∷ t ∷ payload) ≡ ok f
    → Fits f × (wire f ≡ a ∷ b ∷ c ∷ d ∷ t ∷ payload)
wire-decode a b c d t payload f (ha, (hb, (hc, (hd, (ht, _))))) e =
    let (id, type, rest, short) = decode-ok a b c d t payload f e in
    let (fits, w, x, y, z) = set-get_uint32 a b c d ha hb hc hd id in (ground arith, ground arith)

-- A byte string that decode_frame accepts is what encode_frame makes of the decoded frame.
pub encode-decode :
    (bs : Bytes) (f : Frame)
    → All IsByte bs
    → decode_frame bs ≡ ok f
    → encode_frame (nat f.channel_id) (nat f.type) f.payload ≡ bytes bs
encode-decode (a ∷ b ∷ c ∷ d ∷ t ∷ payload) f h e =
    let (fits, same) = wire-decode a b c d t payload f h e in encode-wire f fits ∙ ap bytes same
encode-decode bs f h e = unfold decode_frame in ground arith

-- encode_frame succeeds exactly on a channel id below 2^32, a type below 256 and a payload of at
-- most 65531 bytes.
pub encode-Fits_iff :
    (f : Frame)
    → ((bs : Bytes) × (encode_frame (nat f.channel_id) (nat f.type) f.payload ≡ bytes bs)) ↔ Fits f
encode-Fits_iff f =
    (λ found. (encode-bytes f (found.0) (found.1)).0, λ fits. (wire f, encode-wire f fits))

decode-ok_iff :
    (bs : Bytes)
    → ((f : Frame) × (decode_frame bs ≡ ok f)) ↔ ((5 ≤ length bs) × (length bs ≤ 65536))
unfolding decode_frame
decode-ok_iff (a ∷ b ∷ c ∷ d ∷ t ∷ payload) = (
  λ found. let h = found.1 in ground arith,
  λ h.
      let r : Frame = record {
        channel_id = a * 16777216 + b * 65536 + c * 256 + d;
        type = t;
        payload = payload;
      } in
      (r, ground arith),
)
decode-ok_iff bs = (λ found. let h = found.1 in ground arith, λ h. absurd (omega arith))

-- decode_frame accepts exactly the lengths 5 to 65536, and else names the bound that was missed.
decode_outcome :
    (bs : Bytes)
    → (((f : Frame) × (decode_frame bs ≡ ok f)) ↔ ((5 ≤ length bs) × (length bs ≤ 65536)))
      × ((decode_frame bs ≡ err frame_too_short) ↔ (length bs < 5))
      × ((decode_frame bs ≡ err frame_too_large) ↔ (65536 < length bs))
unfolding decode_frame
decode_outcome (a ∷ b ∷ c ∷ d ∷ t ∷ payload) =
    (decode-ok_iff (a ∷ b ∷ c ∷ d ∷ t ∷ payload), ground arith, ground arith)
decode_outcome bs = (decode-ok_iff bs, ground arith, ground arith)
