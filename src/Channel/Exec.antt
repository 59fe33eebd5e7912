-- ===== src/Channel/Exec.antt =====
-- src/relay/exec-bridge.ts: one exec channel on the daemon. A handler returns the new state and what
-- it does to the outside, in order. Sending a control message is taken not to throw here: those of a
-- bridge are short. Log lines are left out.
pub mod Announce
pub mod Stdin
pub mod Frames
use pty_relay.Base.{
  ℕ, String, Bool, true, false, ◌||◌, Option, none, some, List, [], ◌∷◌, ◌++◌, str_eq, ◌==◌, Bytes,
  length, not, if◌then◌else◌,
}
use pty_relay.Js.{Number, neg}
use pty_relay.Channel.Framing.{
  type_data, type_signal, stdin_id, stdout_id, stderr_id, wrap_substream, unwrap_substream,
}

-- `ExecSpawnOptions`; `none` is an absent or null `env` or `cwd`.
pub record SpawnOptions : Type 0 where
  pub argv : List String
  pub env : Option (List (String × String))
  pub cwd : Option String

-- The pipes that a spawned child has; each may be null.
pub record Child : Type 0 where
  pub has_stdin : Bool
  pub has_stdout : Bool
  pub has_stderr : Bool

-- The platform: `child_process.spawn` (`none` when it throws), the fatal UTF-8 `TextDecoder` (`none`
-- when it throws) and `String.prototype.trim`.
pub record Platform : Type 0 where
  pub spawn : SpawnOptions → Option Child
  pub utf8_decode : Bytes → Option String
  pub trim : String → String

pub data Action : Type 0 where
  send_data : Bytes → Action
  send_exit : ℕ → Option Number → Option String → Action
  send_close : ℕ → String → Action
  stdin_write : Bytes → Action
  stdin_end : Action
  kill : String → Action

pub record Bridge : Type 0 where
  pub channel_id : ℕ
  pub opts : SpawnOptions
  pub child : Option Child
  pub stdin_closed : Bool
  pub finalized : Bool

-- The constructor.
unfoldable pub make : ℕ → SpawnOptions → Bridge
make channel_id opts = record {
  channel_id = channel_id;
  opts = opts;
  child = none;
  stdin_closed = false;
  finalized = false;
}

abbrev pub allowed_signals : List String
allowed_signals = "SIGINT" ∷ "SIGTERM" ∷ "SIGHUP" ∷ []

-- `ALLOWED_SIGNALS.has(name)`
unfoldable pub is_allowed_signal : String → Bool
is_allowed_signal name = str_eq name "SIGINT" || str_eq name "SIGTERM" || str_eq name "SIGHUP"

-- `this.child.stdin?.…`
abbrev pub if_stdin : Child → Action → List Action
if_stdin c a = if c.has_stdin then a ∷ [] else []

pub data StartResult : Type 0 where
  started : Bridge → StartResult
  already_started spawn_failed : StartResult

-- An event of the child process.
pub data ChildEvent : Type 0 where
  stdout stderr : Bytes → ChildEvent
  exit : Option Number → Option String → ChildEvent
  error : String → ChildEvent

module _ (p : Platform) where
  -- `start()`; `none` of `spawn` and a second start throw.
  unfoldable pub start : Bridge → StartResult
  start b = elim b.child [
    | some c ↦ already_started
    | none ↦ elim (p.spawn b.opts) [
      | none ↦ spawn_failed
      | some c ↦ started (record b { child = some c })
    ]
  ]

  -- `close(reason)`
  unfoldable pub close : String → Bridge → Bridge × List Action
  close reason b = if b.finalized then (b, []) else (
    record b { finalized = true },
    elim b.child [ none ↦ [] | some c ↦ kill "SIGTERM" ∷ [] ],
  )

  -- `tearDown(reason)`
  unfoldable pub tear_down : String → Bridge → Bridge × List Action
  tear_down reason b =
      if b.finalized
      then (b, [])
      else (let (b', later) = close reason b in (b', send_close b.channel_id reason ∷ later))

  -- `handleSignal(payload)`, by the decoded text
  unfoldable pub signal_named : Option String → List Action
  signal_named none = []
  signal_named (some text) = if is_allowed_signal (p.trim text) then kill (p.trim text) ∷ [] else []

  unfoldable pub handle_signal : Bytes → List Action
  handle_signal payload = signal_named (p.utf8_decode payload)

  -- The part of `onFrame` behind the sub-stream checks.
  unfoldable pub on_stdin : Child → Bytes → Bridge → Bridge × List Action
  on_stdin c bytes b =
      if b.stdin_closed
      then tear_down "protocol_error" b
      else (if length bytes == 0
          then (record b { stdin_closed = true }, if_stdin c stdin_end)
          else (b, if_stdin c (stdin_write bytes)))

  -- The part of `onFrame` on a DATA frame, by `unwrapSubstream(payload)`.
  unfoldable pub on_data : Child → Option (ℕ × Bytes) → Bridge → Bridge × List Action
  on_data c none b = tear_down "protocol_error" b
  on_data c (some (substream, bytes)) b =
      if substream == stdin_id then on_stdin c bytes b else tear_down "protocol_error" b

  -- The part of `onFrame` behind the guard on the child.
  unfoldable pub on_live_frame : Child → ℕ → Bytes → Bridge → Bridge × List Action
  on_live_frame c type payload b =
      if type == type_signal
      then (b, handle_signal payload)
      else (if type == type_data
          then on_data c (unwrap_substream payload) b
          else tear_down "protocol_error" b)

  -- `onFrame(type, payload)`, by `this.child`
  unfoldable pub frame_for : Option Child → ℕ → Bytes → Bridge → Bridge × List Action
  frame_for none type payload b = (b, [])
  frame_for (some c) type payload b =
      if b.finalized then (b, []) else on_live_frame c type payload b

  unfoldable pub on_frame : ℕ → Bytes → Bridge → Bridge × List Action
  on_frame type payload b = frame_for b.child type payload b

-- The announcement that the "exit" and "error" listeners share.
unfoldable pub announce : Option Number → Option String → Bridge → Bridge × List Action
announce code signal b = if b.finalized then (b, []) else (
  record b { finalized = true },
  send_exit b.channel_id code signal ∷ send_close b.channel_id "exit" ∷ [],
)

-- The listeners that `start` wires to the child.
unfoldable pub on_child : ChildEvent → Child → Bridge → Bridge × List Action
on_child (stdout chunk) c b =
    (b, if c.has_stdout then send_data (wrap_substream stdout_id chunk) ∷ [] else [])
on_child (stderr chunk) c b =
    (b, if c.has_stderr then send_data (wrap_substream stderr_id chunk) ∷ [] else [])
on_child (exit code signal) c b = announce code signal b
on_child (error message) c b = announce (some (neg 0)) none b

-- The listeners exist once there is a child.
unfoldable pub child_for : Option Child → ChildEvent → Bridge → Bridge × List Action
child_for none e b = (b, [])
child_for (some c) e b = on_child e c b

-- What reaches a bridge over its life.
pub data Event : Type 0 where
  frame : ℕ → Bytes → Event
  child_event : ChildEvent → Event
  closed : String → Event

module _ (p : Platform) where
  unfoldable pub step : Event → Bridge → Bridge × List Action
  step (frame type payload) b = on_frame p type payload b
  step (child_event e) b = child_for b.child e b
  step (closed reason) b = close p reason b

  unfoldable pub run : List Event → Bridge → Bridge × List Action
  run [] b = (b, [])
  run (e ∷ es) b = let (b', done) = step e b in let (b'', later) = run es b' in (b'', done ++ later)
