-- ===== src/Channel/Control.antt =====
-- src/relay/channel-control.ts: the JSON messages of channel 0 and their validation.
pub mod Parse
pub mod Encode
pub mod RoundTrip
pub mod Valid
use pty_relay.Base.{ℕ, String, Option, List}
use pty_relay.Js.{Number}

-- An optional property that may also be null: left out, null, or a value.
pub data Optional (A : Type 0) : Type 0 where
  absent : Optional A
  null : Optional A
  given : A → Optional A

-- `ChannelOpenErrorCode`
pub data OpenErrorCode : Type 0 where
  mode_not_enabled argv_not_allowed session_not_found : OpenErrorCode
  spawn_failed id_collision channel_limit : OpenErrorCode

-- `ChannelCloseReason`
pub data CloseReason : Type 0 where
  client_detach operator_close peer_lost protocol_error exit : CloseReason

-- `ControlMessage`, less the connection error, which the parser leaves to the application.
pub data ControlMessage : Type 0 where
  channel_open_pty : ℕ → String → Option Number → Option Number → ControlMessage
  channel_open_exec :
      ℕ → List String → Optional (List (String × String)) → Optional String → ControlMessage
  channel_open_ack : ℕ → ControlMessage
  channel_open_error : ℕ → OpenErrorCode → String → ControlMessage
  channel_close : ℕ → CloseReason → ControlMessage
  channel_exit : ℕ → Option Number → Option String → ControlMessage
  keepalive : ControlMessage

abbrev pub code_name : OpenErrorCode → String
code_name mode_not_enabled = "mode_not_enabled"
code_name argv_not_allowed = "argv_not_allowed"
code_name session_not_found = "session_not_found"
code_name spawn_failed = "spawn_failed"
code_name id_collision = "id_collision"
code_name channel_limit = "channel_limit"

abbrev pub reason_name : CloseReason → String
reason_name client_detach = "client_detach"
reason_name operator_close = "operator_close"
reason_name peer_lost = "peer_lost"
reason_name protocol_error = "protocol_error"
reason_name exit = "exit"
