-- ===== src/Channel/OpenHandler.antt =====
-- src/relay/channel-open-handler.ts: the daemon's answer to the channel messages of a client.
pub mod Gate
pub mod Answer
pub mod Replies
pub mod Chunks
pub mod Ending
use pty_relay.Base.{
  ℕ, suc, ◌+◌, String, Bool, true, false, Option, none, some, List, [], ◌∷◌, Bytes, if◌then◌else◌,
}
use pty_relay.Base.Assoc.{get}
use pty_relay.Js.{Fields, end, field, str}
use pty_relay.Channel.AllowList.{check_argv_allowed}
use pty_relay.Channel.Registry.{
  open_channel, OpenResult, opened, refused, OpenError, id_collision, channel_limit,
}
use pty_relay.Channel.Exec
use pty_relay.Channel.Exec.{
  ChildEvent, SpawnOptions, StartResult, started, already_started, spawn_failed,
}
use pty_relay.Channel.Control.{
  Optional, absent, null, given, OpenErrorCode, code_name, reason_name, ControlMessage,
  channel_open_pty, channel_open_exec, channel_open_ack, channel_open_error, channel_close,
  channel_exit, keepalive,
}
use pty_relay.Channel.Control.Encode.{to_fields}
use pty_relay.Channel.Dispatcher.{Route, fatal, on_control, on_app, on_channel, route}
use pty_relay.Channel.Connection.{
  Handler, exec, pty, Env, Output, spawned, app_message, fatal_error, World, Conn, M, returned,
  thrown, emit, output, put_bridge, send_app, handler_frame, close_id, on_child_event,
  close_everything, attach_bridge, detach_bridge,
}

-- `v ?? undefined`
abbrev pub or_undefined : {A : Type 0} → Optional A → Option A
or_undefined absent = none
or_undefined null = none
or_undefined (given a) = some a

-- `argv[0]`; an argv from the parser is not empty.
abbrev pub first : List String → String
first [] = ""
first (s ∷ ss) = s

abbrev pub join : String → String → String
join s t = Prim.Native.String.◌++◌ s t

-- The texts of the replies.
abbrev pub pty_message : String
pty_message =
    "pty-mode channel_open isn't wired yet; use the v1 attach RPC on DEFAULT_PTY_CHANNEL_ID"

abbrev pub exec_message : String
exec_message = "exec mode not enabled on this daemon"

abbrev pub argv_message : String → String
argv_message argv0 = join "argv[0] '" (join argv0 "' not in exec allow-list")

abbrev pub already_message : String
already_message = "ExecBridge.start() already called"

abbrev pub open_code : OpenError → OpenErrorCode
open_code id_collision = OpenErrorCode.id_collision
open_code channel_limit = OpenErrorCode.channel_limit

module _ (env : Env) where
  -- `ChannelOpenError`'s message.
  abbrev pub open_message : ℕ → OpenError → String
  open_message id id_collision = join "channel id " (join (env.number_text id) " is already open")
  open_message id channel_limit = "at MAX_CHANNELS (16) — close one before opening another"

  -- `channel.sendApp({type: "channel_open_error", …})`
  unfoldable pub reply_error : ℕ → OpenErrorCode → String → M (Unit {0})
  reply_error id code message = send_app env (to_fields (channel_open_error id code message))

  -- `bridge.start()` of the registered bridge at reference `a`, and what follows it.
  unfoldable pub started_as : StartResult → ℕ → ℕ → SpawnOptions → M (Unit {0})
  started_as (started b) id a opts (r, w) =
      send_app env (to_fields (channel_open_ack id)) (r, put_bridge a b (emit (spawned opts) w))
  started_as already_started id a opts c =
      reply_error id OpenErrorCode.spawn_failed already_message (close_id env id "spawn_failed" c)
  started_as spawn_failed id a opts (r, w) =
      reply_error id OpenErrorCode.spawn_failed (env.spawn_message opts)
        (close_id env id "spawn_failed" (r, emit (spawned opts) w))

  -- `registry.open(channelId, bridge)` and what follows it.
  unfoldable pub registered : OpenResult Handler → ℕ → SpawnOptions → M (Unit {0})
  registered (refused e) id opts c = reply_error id (open_code e) (open_message id e) c
  registered (opened r') id opts (r, w) =
      started_as (Exec.start env.platform (Exec.make id opts)) id w.next opts
        (r', put_bridge w.next (Exec.make id opts) (record w { next = w.next + 1 }))

  -- The part of `openExecChannel` behind the two gates.
  unfoldable pub register_bridge : ℕ → SpawnOptions → M (Unit {0})
  register_bridge id opts c = registered (open_channel id (exec c.1.next) c.0) id opts c

  unfoldable pub open_allowed : Option String → ℕ → SpawnOptions → M (Unit {0})
  open_allowed none id opts =
      reply_error id OpenErrorCode.argv_not_allowed (argv_message (first opts.argv))
  open_allowed (some name) id opts = register_bridge id opts

  -- `openExecChannel`
  unfoldable pub open_exec_channel : ℕ → SpawnOptions → M (Unit {0})
  open_exec_channel id opts =
      if env.allow_exec
      then open_allowed (check_argv_allowed (first opts.argv)) id opts
      else reply_error id OpenErrorCode.mode_not_enabled exec_message

  -- `handleChannelOpenControl`
  unfoldable pub handle_control : ControlMessage → M (Unit {0})
  handle_control (channel_open_pty id session cols rows) c =
      reply_error id OpenErrorCode.mode_not_enabled pty_message c
  handle_control (channel_open_exec id argv e cwd) c =
      open_exec_channel id (record { argv = argv; env = or_undefined e; cwd = or_undefined cwd }) c
  handle_control (channel_close id reason) c = returned tt (close_id env id (reason_name reason) c)
  handle_control _ c = returned tt c

  -- A frame for an id that is not open is dropped.
  unfoldable pub to_handler : Option Handler → ℕ → Bytes → M (Unit {0})
  to_handler none type payload c = returned tt c
  to_handler (some h) type payload c = handler_frame env h type payload c

  -- `handlePlaintext` of the connection, with the daemon's callbacks.
  unfoldable pub follow : Route → M (Unit {0})
  follow (fatal code) c = output (fatal_error code) c
  follow (on_control m) c = handle_control m c
  follow (on_app type json) c = output (app_message type json) c
  follow (on_channel id type payload) c = to_handler (get id c.0) type payload c

  unfoldable pub handle_plaintext : Bytes → M (Unit {0})
  handle_plaintext plaintext = follow (route env.decoders plaintext)

-- What happens to a connection: a plaintext, an event of a child, a pty bridge attached or detached,
-- and the end of the tunnel. An exception ends only the handling of the event.
pub data Event : Type 0 where
  plaintext : Bytes → Event
  child_event : ℕ → ChildEvent → Event
  attach : ℕ → Event
  detach : String → Event
  ended : String → Event

module _ (env : Env) where
  unfoldable pub step : Event → Conn → Conn
  step (plaintext bs) c = (handle_plaintext env bs c).0
  step (child_event a e) c = (on_child_event env a e c).0
  step (attach a) c = (attach_bridge env a c).0
  step (detach reason) c = detach_bridge env reason c
  step (ended reason) c = close_everything env reason c

  unfoldable pub run : List Event → Conn → Conn
  run [] c = c
  run (e ∷ es) c = run es (step e c)

-- The connection when it is made.
abbrev pub fresh : Conn
fresh = ([], record { bridges = λ a. none; next = 0; out = [] })
