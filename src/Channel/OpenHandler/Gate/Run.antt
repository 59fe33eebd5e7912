-- ===== src/Channel/OpenHandler/Gate/Run.antt =====
-- The invariant of a connection over the daemon's handlers, and over every run.
use pty_relay.Base.{
  ℕ, ◌+◌, String, Bool, true, false, Option, none, some, List, [], ◌∷◌, ◌≡◌, refl, Bytes, arith,
  if◌then◌else◌,
}
use pty_relay.Base.Assoc.{get}
use pty_relay.Channel.AllowList.{check_argv_allowed}
use pty_relay.Channel.AllowList.Basename.{check_argv_allowed_iff}
use pty_relay.Channel.Registry.{OpenResult, open_channel, opened, refused}
use pty_relay.Channel.Exec
use pty_relay.Channel.Exec.{SpawnOptions, StartResult, started, already_started, spawn_failed}
use pty_relay.Channel.Control.{
  OpenErrorCode, ControlMessage, channel_open_pty, channel_open_exec, channel_close,
}
use pty_relay.Channel.Dispatcher.{Route, fatal, on_control, on_app, on_channel}
use pty_relay.Channel.Connection.{
  Handler, exec, Env, spawned, app_message, fatal_error, Conn, M, attach_bridge, detach_bridge,
  on_child_event,
}
use pty_relay.Channel.OpenHandler.{
  first, reply_error, started_as, registered, to_handler, register_bridge, open_allowed,
  open_exec_channel, handle_control, follow, handle_plaintext, Event, plaintext, child_event,
  attach, detach, ended, step, run, fresh,
}
use pty_relay.Channel.OpenHandler.Gate.{
  IsPermitted, Inv, emit-Inv, put_bridge-Inv, send_app-Inv, handler_frame-Inv, on_bridge-Inv,
  close_id-Inv, close_everything-Inv, open-Inv, attach_over-Inv,
}

module _ (env : Env) where
  reply_error-Inv :
      (id : ℕ) (code : OpenErrorCode) (message : String) (c : Conn)
      → Inv env c
      → Inv env (reply_error env id code message c).0
  unfolding reply_error
  reply_error-Inv id code message c v = send_app-Inv env _ c v

  started_as-Inv :
      (o : StartResult) (id a : ℕ) (opts : SpawnOptions) (c : Conn)
      → IsPermitted env (spawned opts)
      → Inv env c
      → Inv env (started_as env o id a opts c).0
  unfolding started_as
  started_as-Inv (started b) id a opts (r, w) h v =
      send_app-Inv env _ _ (put_bridge-Inv env a b r _ (emit-Inv env (spawned opts) (r, w) h v))
  started_as-Inv already_started id a opts c h v =
      reply_error-Inv id _ _ _ (close_id-Inv env id "spawn_failed" c v)
  started_as-Inv spawn_failed id a opts (r, w) h v =
      reply_error-Inv id _ _ _
        (close_id-Inv env id "spawn_failed" _ (emit-Inv env (spawned opts) (r, w) h v))

  registered-Inv :
      (o : OpenResult Handler) (id : ℕ) (opts : SpawnOptions) (c : Conn)
      → open_channel id (exec c.1.next) c.0 ≡ o
      → IsPermitted env (spawned opts)
      → Inv env c
      → Inv env (registered env o id opts c).0
  unfolding registered
  registered-Inv (refused e) id opts c same h v = reply_error-Inv id _ _ c v
  registered-Inv (opened r') id opts (r, w) same h v = started_as-Inv _ id w.next opts _ h (
      put_bridge-Inv env w.next (Exec.make id opts) r' (record w { next = w.next + 1 })
        (record {
          valid = (open-Inv env id (exec w.next) r r' w same v).valid;
          permitted = v.permitted;
        }))

  open_allowed-Inv :
      (o : Option String) (id : ℕ) (opts : SpawnOptions) (c : Conn)
      → env.allow_exec ≡ true
      → check_argv_allowed (first opts.argv) ≡ o
      → Inv env c
      → Inv env (open_allowed env o id opts c).0
  unfolding open_allowed register_bridge
  open_allowed-Inv none id opts c on e v = reply_error-Inv id _ _ c v
  open_allowed-Inv (some name) id opts c on e v =
      registered-Inv _ id opts c refl
        (let (base, listed) = (check_argv_allowed_iff (first opts.argv) name).0 e in
          (on, (name, base, listed)))
        v

  if-Inv :
      (b : Bool) (m n : M (Unit {0})) (c : Conn)
      → (b ≡ true → Inv env (m c).0)
      → (b ≡ false → Inv env (n c).0)
      → Inv env ((if b then m else n) c).0
  if-Inv true m n c on off = on refl
  if-Inv false m n c on off = off refl

  open_exec_channel-Inv :
      (id : ℕ) (opts : SpawnOptions) (c : Conn)
      → Inv env c
      → Inv env (open_exec_channel env id opts c).0
  unfolding open_exec_channel
  open_exec_channel-Inv id opts c v =
      if-Inv env.allow_exec _ _ c (λ on. open_allowed-Inv _ id opts c on refl v)
        (λ off. reply_error-Inv id _ _ c v)

  handle_control-Inv :
      (m : ControlMessage) (c : Conn) → Inv env c → Inv env (handle_control env m c).0
  unfolding handle_control
  handle_control-Inv (channel_open_pty id session cols rows) c v = reply_error-Inv id _ _ c v
  handle_control-Inv (channel_open_exec id argv e cwd) c v = open_exec_channel-Inv id _ c v
  handle_control-Inv (channel_close id reason) c v = close_id-Inv env id _ c v
  handle_control-Inv _ c v = v

  to_handler-Inv :
      (o : Option Handler) (type : ℕ) (payload : Bytes) (c : Conn)
      → Inv env c
      → Inv env (to_handler env o type payload c).0
  unfolding to_handler
  to_handler-Inv none type payload c v = v
  to_handler-Inv (some h) type payload c v = handler_frame-Inv env h type payload c v

  follow-Inv : (r : Route) (c : Conn) → Inv env c → Inv env (follow env r c).0
  unfolding follow
  follow-Inv (fatal code) c v = emit-Inv env (fatal_error code) c tt v
  follow-Inv (on_control m) c v = handle_control-Inv m c v
  follow-Inv (on_app type json) c v = emit-Inv env (app_message type json) c tt v
  follow-Inv (on_channel id type payload) c v = to_handler-Inv (get id c.0) type payload c v

  step-Inv : (e : Event) (c : Conn) → Inv env c → Inv env (step env e c)
  unfolding step handle_plaintext on_child_event attach_bridge detach_bridge
  step-Inv (plaintext bs) c v = follow-Inv _ c v
  step-Inv (child_event a e) c v = on_bridge-Inv env a _ c v
  step-Inv (attach a) c v = attach_over-Inv env (get _ c.0) a c v
  step-Inv (detach reason) c v = close_id-Inv env _ reason c v
  step-Inv (ended reason) c v = close_everything-Inv env reason c v

  run_keeps-Inv : (es : List Event) (c : Conn) → Inv env c → Inv env (run env es c)
  unfolding run
  run_keeps-Inv [] c v = v
  run_keeps-Inv (e ∷ es) c v = run_keeps-Inv es (step env e c) (step-Inv e c v)

  -- After any sequence of events on a new connection the registry has distinct ids, at most
  -- sixteen, and every spawn that the daemon made was made with exec enabled and an argv[0] whose
  -- last path component is one of the listed names.
  pub run-Inv : (es : List Event) → Inv env (run env es fresh)
  run-Inv es =
      run_keeps-Inv es fresh
        (record { valid = record { distinct = tt; bounded = ground arith }; permitted = tt })
