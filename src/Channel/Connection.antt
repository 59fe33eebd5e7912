-- ===== src/Channel/Connection.antt =====
-- src/relay/channel-connection.ts: the registry and the dispatcher of one connection, with the exec
-- bridges that its handlers stand for. A handler is a reference; a bridge outlives its registration.
use pty_relay.Base.{
  ℕ, String, Bool, false, Option, none, some, List, [], ◌∷◌, ◌++◌, Bytes, ◌==◌, if◌then◌else◌,
}
use pty_relay.Base.Assoc.{get}
use pty_relay.Js.{nat, str, Fields, end, field}
use pty_relay.Channel.Framing.{
  EncodeResult, encode_frame, bytes, throws, control_channel_id, default_pty_channel_id, type_data,
}
use pty_relay.Channel.Registry.{
  Registry, OpenResult, open_channel, opened, refused, close_channel, close_all,
}
use pty_relay.Channel.Exec
use pty_relay.Channel.Exec.{
  Platform, Action, send_data, send_exit, send_close, stdin_write, stdin_end, kill, Bridge,
  SpawnOptions, ChildEvent,
}
use pty_relay.Channel.Control.Parse.{Decoders}
use pty_relay.Channel.Control.Encode.{number_json, string_json, typed}
use pty_relay.Channel.Dispatcher.{FatalCode}

-- A `ChannelHandler`: an exec bridge, or a pty bridge (which only forwards).
pub data Handler : Type 0 where
  exec : ℕ → Handler
  pty : ℕ → Handler

-- What the platform gives: `child_process.spawn` and the message of what it throws, the decoders,
-- the UTF-8 bytes of `JSON.stringify(o)`, and a number as text.
pub record Env : Type 0 where
  pub allow_exec : Bool
  pub platform : Platform
  pub spawn_message : SpawnOptions → String
  pub decoders : Decoders
  pub stringify : Fields → Bytes
  pub number_text : ℕ → String

-- What the outside sees, in order.
pub data Output : Type 0 where
  -- `rawSend` of a frame with an application object, and of a frame with channel data
  sent_app : Fields → Bytes → Output
  sent_data : Bytes → Output
  -- a call of `spawnFn`
  spawned : SpawnOptions → Output
  -- the child of a bridge
  child_stdin : ℕ → Bytes → Output
  child_stdin_end : ℕ → Output
  child_kill : ℕ → String → Output
  -- `onFrame` and `close` of a pty bridge
  pty_frame : ℕ → Bytes → Output
  pty_close : ℕ → String → Output
  -- `onApp` and `onFatal`
  app_message : String → Fields → Output
  fatal_error : FatalCode → Output

pub record World : Type 0 where
  pub bridges : ℕ → Option Bridge
  pub next : ℕ
  pub out : List Output

abbrev pub Conn : Type 0
Conn = Registry Handler × World

-- A handler's code over the connection; `none` is an exception on its way to the caller.
abbrev pub M : Type 0 → Type 0
M A = Conn → Conn × Option A

abbrev pub returned : {A : Type 0} → A → M A
returned a c = (c, some a)

abbrev pub thrown : {A : Type 0} → M A
thrown c = (c, none)

abbrev pub and_then : {A B : Type 0} → Conn × Option A → (A → M B) → Conn × Option B
and_then (c, none) f = (c, none)
and_then (c, some a) f = f a c

abbrev pub emit : Output → World → World
emit o w = record w { out = w.out ++ o ∷ [] }

abbrev pub output : Output → M (Unit {0})
output o (r, w) = ((r, emit o w), some tt)

abbrev pub put_bridge : ℕ → Bridge → World → World
put_bridge a b w = record w { bridges = λ i. if i == a then some b else w.bridges i }

-- `this.send(encodeFrame(…))`, where the encoder may throw.
unfoldable pub ship_app : Fields → EncodeResult → M (Unit {0})
ship_app o (bytes frame) c = output (sent_app o frame) c
ship_app o (throws e) c = thrown c

unfoldable pub ship_data : EncodeResult → M (Unit {0})
ship_data (bytes frame) c = output (sent_data frame) c
ship_data (throws e) c = returned tt c

unfoldable pub ship_bridge : EncodeResult → M (Unit {0})
ship_bridge (bytes frame) c = output (sent_data frame) c
ship_bridge (throws e) c = thrown c

-- `sendBridgeData(payload)`
unfoldable pub send_bridge_data : Bytes → M (Unit {0})
send_bridge_data payload =
    ship_bridge (encode_frame (nat default_pty_channel_id) (nat type_data) payload)

module _ (env : Env) where
  -- `sendApp(o)`: throws when the frame would be too large.
  unfoldable pub send_app : Fields → M (Unit {0})
  send_app o = ship_app o (encode_frame (nat control_channel_id) (nat type_data) (env.stringify o))

  -- `sendData` of an exec bridge: an exception is logged, and the payload is lost.
  unfoldable pub send_channel_data : ℕ → Bytes → M (Unit {0})
  send_channel_data id payload = ship_data (encode_frame (nat id) (nat type_data) payload)

  -- Data of a bridge, if the reference holds one.
  unfoldable pub data_for : Option Bridge → Bytes → M (Unit {0})
  data_for none payload c = returned tt c
  data_for (some b) payload c = send_channel_data b.channel_id payload c

  -- What a bridge does, at its reference.
  unfoldable pub perform : ℕ → Action → M (Unit {0})
  perform a (send_data payload) c = data_for (c.1.bridges a) payload c
  perform a (send_exit id code signal) c =
      send_app
        (typed "channel_exit" id
          (field "exit_code" (number_json code) (field "signal" (string_json signal) end)))
        c
  perform a (send_close id reason) c =
      send_app (typed "channel_close" id (field "reason" (str reason) end)) c
  perform a (stdin_write p) c = output (child_stdin a p) c
  perform a stdin_end c = output (child_stdin_end a) c
  perform a (kill signal) c = output (child_kill a signal) c

  unfoldable pub perform_all : ℕ → List Action → M (Unit {0})
  perform_all a [] c = returned tt c
  perform_all a (x ∷ xs) c = and_then (perform a x c) (λ _. perform_all a xs)

  -- A bridge's handler: the new state, then its actions.
  unfoldable pub bridge_for : Option Bridge → ℕ → (Bridge → Bridge × List Action) → M (Unit {0})
  bridge_for none a handler c = returned tt c
  bridge_for (some b) a handler (r, w) =
      perform_all a (handler b).1 (r, put_bridge a (handler b).0 w)

  unfoldable pub on_bridge : ℕ → (Bridge → Bridge × List Action) → M (Unit {0})
  on_bridge a handler c = bridge_for (c.1.bridges a) a handler c

  -- `handler.onFrame(type, payload)`
  unfoldable pub handler_frame : Handler → ℕ → Bytes → M (Unit {0})
  handler_frame (exec a) type payload = on_bridge a (Exec.on_frame env.platform type payload)
  handler_frame (pty a) type payload = output (pty_frame a payload)

  -- `handler.close(reason)`, whose exceptions the registry swallows
  unfoldable pub handler_close : Handler → String → Conn → Conn
  handler_close (exec a) reason c = (on_bridge a (Exec.close env.platform reason) c).0
  handler_close (pty a) reason c = (output (pty_close a reason) c).0

  -- `registry.close(id, reason)` and `closeAll(reason)`
  unfoldable pub close_id : ℕ → String → Conn → Conn
  close_id id reason c = (close_channel handler_close id reason c).0

  unfoldable pub close_everything : String → Conn → Conn
  close_everything reason c = close_all handler_close reason c

  -- An event of the child of a bridge.
  unfoldable pub on_child_event : ℕ → ChildEvent → M (Unit {0})
  on_child_event a e = on_bridge a (λ b. Exec.child_for b.child e b)

-- The pty bridge with this reference is the handler.
unfoldable pub is_pty : ℕ → Handler → Bool
is_pty a (exec b) = false
is_pty a (pty b) = a == b

-- `registry.open(DEFAULT_PTY_CHANNEL_ID, bridge)`; a refusal is thrown.
unfoldable pub pty_opened : OpenResult Handler → M (Unit {0})
pty_opened (opened r') (r, w) = returned tt (r', w)
pty_opened (refused e) (r, w) = thrown (r, w)

unfoldable pub open_pty : ℕ → M (Unit {0})
open_pty a (r, w) = pty_opened (open_channel default_pty_channel_id (pty a) r) (r, w)

module _ (env : Env) where
  -- `attachBridge(bridge)`, by the handler that stands there
  unfoldable pub attach_over : Option Handler → ℕ → M (Unit {0})
  attach_over none a c = open_pty a c
  attach_over (some h) a c =
      if is_pty a h
      then returned tt c
      else open_pty a (close_id env default_pty_channel_id "client_detach" c)

  unfoldable pub attach_bridge : ℕ → M (Unit {0})
  attach_bridge a c = attach_over (get default_pty_channel_id c.0) a c

  -- `detachBridge(reason)`
  unfoldable pub detach_bridge : String → Conn → Conn
  detach_bridge reason c = close_id env default_pty_channel_id reason c
