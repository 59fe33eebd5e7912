-- ===== src/Channel/Framing.antt =====
-- src/relay/channel-framing.ts: `channel-id u32BE | type u8 | payload`.
pub mod RoundTrip
use pty_relay.Base.{
  ℕ, suc, ◌+◌, ◌*◌, ◌/◌, ◌%◌, ◌^◌, Bool, true, false, Option, none, some, List, [], ◌∷◌, ltb,
  length, Bytes, if◌then◌else◌,
}
use pty_relay.Js.{Number, nat, neg, other, int_between}

abbrev pub min_frame_bytes : ℕ
min_frame_bytes = 5

abbrev pub max_frame_bytes : ℕ
max_frame_bytes = 65536

abbrev pub control_channel_id : ℕ
control_channel_id = 0

abbrev pub default_pty_channel_id : ℕ
default_pty_channel_id = 1

-- `FRAME_TYPE`
abbrev pub type_data : ℕ
type_data = 0

abbrev pub type_signal : ℕ
type_signal = 1

-- `SUBSTREAM`
abbrev pub stdin_id : ℕ
stdin_id = 0

abbrev pub stdout_id : ℕ
stdout_id = 1

abbrev pub stderr_id : ℕ
stderr_id = 2

pub record Frame : Type 0 where
  pub channel_id : ℕ
  pub type : ℕ
  pub payload : Bytes

pub data DecodeError : Type 0 where
  frame_too_short frame_too_large : DecodeError

pub data DecodeResult : Type 0 where
  ok : Frame → DecodeResult
  err : DecodeError → DecodeResult

-- The three `RangeError`s of `encodeFrame`.
pub data RangeError : Type 0 where
  bad_channel_id bad_type frame_too_big : RangeError

pub data EncodeResult : Type 0 where
  bytes : Bytes → EncodeResult
  throws : RangeError → EncodeResult

-- The value of a `number` that has passed the integer guard.
abbrev to_nat : Number → ℕ
to_nat (nat n) = n
to_nat (neg n) = 0
to_nat (other d) = 0

-- `view.setUint32(0, n, false)`
set_uint32 : ℕ → Bytes → Bytes
set_uint32 n rest = (n / 16777216 % 256) ∷ (n / 65536 % 256) ∷ (n / 256 % 256) ∷ (n % 256) ∷ rest

-- `buf[4] = type` stores the number modulo 256.
unfoldable pub encode_frame : Number → Number → Bytes → EncodeResult
unfolding int_between set_uint32
encode_frame channel_id type payload =
    if int_between 0 0xffffffff channel_id
    then (if int_between 0 0xff type
        then (if ltb max_frame_bytes (min_frame_bytes + length payload)
            then throws frame_too_big
            else bytes (set_uint32 (to_nat channel_id) ((to_nat type % 256) ∷ payload)))
        else throws bad_type)
    else throws bad_channel_id

-- `view.getUint32(0, false)`, `bytes[4]` and `bytes.slice(5)` of a frame that is long enough
read_frame : Bytes → DecodeResult
read_frame (a ∷ b ∷ c ∷ d ∷ t ∷ payload) =
    ok (record { channel_id = a * 16777216 + b * 65536 + c * 256 + d; type = t; payload = payload })
read_frame _ = err frame_too_short

unfoldable pub decode_frame : Bytes → DecodeResult
unfolding read_frame
decode_frame bs =
    if ltb (length bs) min_frame_bytes
    then err frame_too_short
    else (if ltb max_frame_bytes (length bs) then err frame_too_large else read_frame bs)

unfoldable pub wrap_substream : ℕ → Bytes → Bytes
wrap_substream substream payload = (substream % 256) ∷ payload

unfoldable pub unwrap_substream : Bytes → Option (ℕ × Bytes)
unwrap_substream [] = none
unwrap_substream (substream ∷ rest) = some (substream, rest)
