-- ===== src/Channel/Dispatcher/Routing.antt =====
-- Encoded messages and frames at the dispatcher of src/relay/channel-dispatcher.ts.
use pty_relay.Base.{◌≡◌, refl, ◌≢◌, some, Bytes, String, ◌∙◌, arith, ap}
use pty_relay.Js.{nat, obj}
use pty_relay.Channel.Framing.{Frame, encode_frame, bytes}
use pty_relay.Channel.Framing.RoundTrip.{decode-encode}
use pty_relay.Channel.Control.{ControlMessage}
use pty_relay.Channel.Control.Parse.{Decoders, parse_control_message, parse_json, control}
use pty_relay.Channel.Control.Encode.{to_fields}
use pty_relay.Channel.Control.RoundTrip.{IsWellFormed, parse_object-to_fields}
use pty_relay.Channel.Dispatcher.{
  on_control, on_channel, route, route_decoded, route_frame, route_control, route_parsed,
}

module _ (d : Decoders) where
  -- An encoded frame of a channel other than 0 is routed to that channel with its type and payload.
  route-encode_data :
      (f : Frame) (bs : Bytes)
      → f.channel_id ≢ 0
      → encode_frame (nat f.channel_id) (nat f.type) f.payload ≡ bytes bs
      → route d bs ≡ on_channel f.channel_id f.type f.payload
  unfolding route
  route-encode_data f bs h e =
      rw (decode-encode f bs e) (unfold route_decoded route_frame in ground arith)

  parse-encode :
      (m : ControlMessage) (payload : Bytes) (text : String)
      → d.utf8_decode payload ≡ some text
      → d.json_parse text ≡ some (obj (to_fields m))
      → IsWellFormed m
      → parse_control_message d payload ≡ control m
  unfolding parse_control_message
  parse-encode m payload text utf8 json h =
      rw (utf8, parse_control_message)
        (rw (json, parse_control_message) (unfold parse_json in parse_object-to_fields m h))

  -- An encoded control message on channel 0 is routed to the control handler as that message, when
  -- the decoders read its payload back and it is well-formed.
  pub route-encode_control :
      (m : ControlMessage) (payload bs : Bytes) (text : String)
      → d.utf8_decode payload ≡ some text
      → d.json_parse text ≡ some (obj (to_fields m))
      → IsWellFormed m
      → encode_frame (nat 0) (nat 0) payload ≡ bytes bs
      → route d bs ≡ on_control m
  unfolding route
  route-encode_control m payload bs text utf8 json h e =
      ap (route_decoded d)
        (decode-encode (record { channel_id = 0; type = 0; payload = payload }) bs e)
      ∙ unfold route_decoded route_frame route_control in
        ap route_parsed (parse-encode m payload text utf8 json h) ∙ unfold route_parsed in refl
