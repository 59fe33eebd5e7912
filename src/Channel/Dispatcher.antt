-- ===== src/Channel/Dispatcher.antt =====
-- src/relay/channel-dispatcher.ts: where a decrypted plaintext goes.
pub mod Routing
use pty_relay.Base.{ℕ, String, Bytes, ◌==◌, if◌then◌else◌}
use pty_relay.Js.{Fields}
use pty_relay.Channel.Framing.{
  Frame, DecodeResult, ok, err, DecodeError, decode_frame, control_channel_id, type_data,
}
use pty_relay.Channel.Control.{ControlMessage}
use pty_relay.Channel.Control.Parse.{
  ParseError, ParseResult, control, app, failed, Decoders, parse_control_message,
}

-- `ConnectionErrorCode`: an error of the frame, of its type, or of the control message.
pub data FatalCode : Type 0 where
  frame_error : DecodeError → FatalCode
  control_frame_type : FatalCode
  control_error : ParseError → FatalCode

-- What `handlePlaintext` calls: `onFatalError`, `onControlMessage`, `onAppMessage`, or `onFrame` of
-- the handler that is registered for the channel.
pub data Route : Type 0 where
  fatal : FatalCode → Route
  on_control : ControlMessage → Route
  on_app : String → Fields → Route
  on_channel : ℕ → ℕ → Bytes → Route

unfoldable pub route_parsed : ParseResult → Route
route_parsed (control msg) = on_control msg
route_parsed (app type json) = on_app type json
route_parsed (failed code detail) = fatal (control_error code)

module _ (d : Decoders) where
  -- `handleControlFrame(type, payload)`
  unfoldable pub route_control : ℕ → Bytes → Route
  route_control type payload =
      if type == type_data
      then route_parsed (parse_control_message d payload)
      else fatal control_frame_type

  unfoldable pub route_frame : Frame → Route
  route_frame f =
      if f.channel_id == control_channel_id
      then route_control f.type f.payload
      else on_channel f.channel_id f.type f.payload

  unfoldable pub route_decoded : DecodeResult → Route
  route_decoded (err code) = fatal (frame_error code)
  route_decoded (ok f) = route_frame f

  unfoldable pub route : Bytes → Route
  route bytes = route_decoded (decode_frame bytes)
