-- ===== src/Channel/OpenHandler/Answer.antt =====
-- Which reply a channel_open in exec mode should get, and what should become of the registry.
use pty_relay.Base.{
  ℕ, String, Bool, true, false, Option, none, some, List, [], ◌∷◌, ◌≡◌, length, ◌≤◌, leb, not,
  if◌then◌else◌,
}
use pty_relay.Base.Assoc.{set}
use pty_relay.Channel.AllowList.{check_argv_allowed}
use pty_relay.Channel.Registry.{Registry, OpenError, has}
use pty_relay.Channel.Exec.{SpawnOptions}
use pty_relay.Channel.Control.{
  Optional, OpenErrorCode, ControlMessage, channel_open_ack, channel_open_error,
}
use pty_relay.Channel.Control.Encode.{to_fields}
use pty_relay.Channel.Connection.{Handler, exec, Env, Output, sent_app, spawned, Conn}
use pty_relay.Channel.OpenHandler.{first, argv_message, exec_message, open_message, or_undefined}

abbrev pub is_none : {A : Type 0} → Option A → Bool
is_none none = true
is_none (some a) = false

-- The message of the first test that holds, or else the last one.
abbrev pub first_of : List (Bool × ControlMessage) → ControlMessage → ControlMessage
first_of [] m = m
first_of ((true, m) ∷ ms) last = m
first_of ((false, m) ∷ ms) last = first_of ms last

abbrev pub any_of : List (Bool × ControlMessage) → Bool
any_of [] = false
any_of ((true, m) ∷ ms) = true
any_of ((false, m) ∷ ms) = any_of ms

module _ (env : Env) (id : ℕ) (opts : SpawnOptions) where
  abbrev pub error_reply : OpenErrorCode → String → ControlMessage
  error_reply code message = channel_open_error id code message

  -- The tests before a process is spawned, in order.
  abbrev pub refusals : Registry Handler → List (Bool × ControlMessage)
  refusals r =
      (not env.allow_exec, error_reply OpenErrorCode.mode_not_enabled exec_message)
      ∷ (
        is_none (check_argv_allowed (first opts.argv)),
        error_reply OpenErrorCode.argv_not_allowed (argv_message (first opts.argv)),
      )
      ∷ (
        has id r,
        error_reply OpenErrorCode.id_collision (open_message env id OpenError.id_collision),
      )
      ∷ (
        leb 16 (length r),
        error_reply OpenErrorCode.channel_limit (open_message env id OpenError.channel_limit),
      )
      ∷ []

  abbrev pub spawn_refusal : List (Bool × ControlMessage)
  spawn_refusal =
      (
        is_none (env.platform.spawn opts),
        error_reply OpenErrorCode.spawn_failed (env.spawn_message opts),
      )
      ∷ []

  abbrev pub reply_to : Registry Handler → ControlMessage
  reply_to r = first_of (refusals r) (first_of spawn_refusal (channel_open_ack id))

  -- What is spawned before the reply, and the registry after it.
  abbrev pub spawns : Registry Handler → List Output
  spawns r = if any_of (refusals r) then [] else spawned opts ∷ []

  abbrev pub registry_after : Registry Handler → ℕ → Registry Handler
  registry_after r next =
      if any_of (refusals r) then r else (if any_of spawn_refusal then r else set id (exec next) r)

-- The output of a reply: its frame on channel 0.
abbrev pub sent : Env → ControlMessage → Output
sent env m = sent_app (to_fields m) (0 ∷ 0 ∷ 0 ∷ 0 ∷ 0 ∷ env.stringify (to_fields m))

abbrev pub Fits : Env → ControlMessage → Type 0
Fits env m = length (env.stringify (to_fields m)) ≤ 65531

abbrev pub spawn_options :
    List String → Optional (List (String × String)) → Optional String → SpawnOptions
spawn_options argv vars cwd = record {
  argv = argv;
  env = or_undefined vars;
  cwd = or_undefined cwd;
}

-- `m` ended normally, with this registry and these outputs.
abbrev pub Ends : Registry Handler → List Output → Conn × Option (Unit {0}) → Type 0
Ends r out m = (m.0.0 ≡ r) × (m.0.1.out ≡ out) × (m.1 ≡ some tt)
