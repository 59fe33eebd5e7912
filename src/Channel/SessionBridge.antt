-- ===== src/Channel/SessionBridge.antt =====
-- src/relay/session-bridge.ts: a channel that forwards to the Unix socket of a pty session. A step
-- gives the new state and what it does, in order.
pub mod Trace
pub mod Chunks
use pty_relay.Base.{
  ℕ, ◌+◌, String, Bool, true, false, not, ◌&&◌, Option, none, some, List, [], ◌∷◌, ◌++◌, Bytes, ltb,
  ◌==◌, if◌then◌else◌,
}
use pty_relay.Channel.Connection.{Conn, send_bridge_data}

-- What is written to a socket: `encodeAttach(rows, cols)`, `encodeDetach()`, or the bytes of a frame.
pub data Packet : Type 0 where
  attach_packet : ℕ → ℕ → Packet
  detach_packet : Packet
  payload : Bytes → Packet

-- The calls of the bridge: `createConnection` for a session, `write` and `destroy` of a socket,
-- `resolve` and `reject`, `sendData`, and an exception that no code catches.
pub data Output : Type 0 where
  connecting : ℕ → String → Output
  wrote : ℕ → Packet → Output
  destroying : ℕ → Output
  resolved : Output
  rejected : String → Output
  sent : Bytes → Output
  uncaught : Output

-- `SessionBridge`, with the sockets that it made, which are numbers, and the columns and rows that the
-- listeners of each captured.
pub record SessionBridge : Type 0 where
  pub socket : Option ℕ
  pub session_name : Option String
  pub destroyed : ℕ → Bool
  pub sizes : ℕ → ℕ × ℕ
  pub next : ℕ

abbrev pub fresh : SessionBridge
fresh = record {
  socket = none;
  session_name = none;
  destroyed = λ s. false;
  sizes = λ s. (0, 0);
  next = 0;
}

abbrev pub set_destroyed : ℕ → SessionBridge → SessionBridge
set_destroyed s b = record b { destroyed = λ t. if t == s then true else b.destroyed t }

-- `attach(session, cols, rows)`, up to its listeners
unfoldable pub attach : String → ℕ → ℕ → SessionBridge → SessionBridge × List Output
attach session cols rows b = (
  record b {
    socket = some b.next;
    session_name = some session;
    sizes = λ s. if s == b.next then (cols, rows) else b.sizes s;
    next = b.next + 1;
  },
  connecting b.next session ∷ [],
)

-- `onFrame(type, payload)`
unfoldable pub frame_to : Option ℕ → Bytes → SessionBridge → SessionBridge × List Output
frame_to none bytes b = (b, [])
frame_to (some s) bytes b = if b.destroyed s then (b, []) else (b, wrote s (payload bytes) ∷ [])

unfoldable pub on_frame : ℕ → Bytes → SessionBridge → SessionBridge × List Output
on_frame type bytes b = frame_to b.socket bytes b

-- `close(reason)`, when the write of DETACH throws or not
abbrev pub forget : SessionBridge → SessionBridge
forget b = record b { socket = none; session_name = none }

unfoldable pub close_of : Option ℕ → Bool → SessionBridge → SessionBridge × List Output
close_of none fails b = (forget b, [])
close_of (some s) fails b = if b.destroyed s then (forget b, []) else (
  forget (set_destroyed s b),
  if fails then destroying s ∷ [] else wrote s detach_packet ∷ destroying s ∷ [],
)

unfoldable pub close : String → Bool → SessionBridge → SessionBridge × List Output
close reason fails b = close_of b.socket fails b

-- `isConnected()`
unfoldable pub connected_by : Option ℕ → SessionBridge → Bool
connected_by none b = false
connected_by (some s) b = not (b.destroyed s)

unfoldable pub is_connected : SessionBridge → Bool
is_connected b = connected_by b.socket b

-- The listener of `connect`, which writes to the socket that the bridge has then.
unfoldable pub attach_to : Option ℕ → ℕ × ℕ → List Output
attach_to none size = uncaught ∷ []
attach_to (some t) (cols, rows) = wrote t (attach_packet rows cols) ∷ resolved ∷ []

-- The calls of the owner of the bridge, and the events of a socket; `gone` is its end by the
-- platform, before its listeners hear of it. The Booleans say that a write of DETACH throws.
pub data Event : Type 0 where
  attaching : String → ℕ → ℕ → Event
  framed : ℕ → Bytes → Event
  closing : String → Bool → Event
  connected : ℕ → Event
  received : ℕ → Bytes → Bool → Event
  gone : ℕ → Event
  closed : ℕ → Event
  errored : ℕ → String → Event

-- `goes` says that `sendData` does not throw.
module _ (goes : Bytes → Bool) where
  -- Only a socket that was made has events, and one that is destroyed does not connect.
  unfoldable pub step : Event → SessionBridge → SessionBridge × List Output
  step (attaching session cols rows) b = attach session cols rows b
  step (framed type bytes) b = on_frame type bytes b
  step (closing reason fails) b = close reason fails b
  step (connected s) b =
      (b, if ltb s b.next && not (b.destroyed s) then attach_to b.socket (b.sizes s) else [])
  step (received s bytes fails) b =
      if goes bytes then (b, sent bytes ∷ []) else close "send_failed" fails b
  step (gone s) b = (if ltb s b.next then set_destroyed s b else b, [])
  step (closed s) b = (record b { socket = none }, [])
  step (errored s message) b = (record b { socket = none }, rejected message ∷ [])

  unfoldable pub run : List Event → SessionBridge → SessionBridge × List Output
  run [] b = (b, [])
  run (e ∷ es) b = let (b1, now) = step e b in let (b2, later) = run es b1 in (b2, now ++ later)

-- Whether `(payload) => cs.connection.sendBridgeData(payload)`, the `sendData` of the daemon, goes
-- through.
unfoldable pub is_some : Option (Unit {0}) → Bool
is_some none = false
is_some (some u) = true

unfoldable pub goes_over : Conn → Bytes → Bool
goes_over c bytes = is_some (send_bridge_data bytes c).1
