-- ===== src/Channel/OpenHandler/Replies.antt =====
-- The one reply to a channel_open in exec mode.
use pty_relay.Base.{
  ℕ, ◌+◌, String, Bool, true, false, Option, none, some, List, [], ◌∷◌, ◌++◌, ◌≡◌, refl, ◌∙◌, ap,
  sym, append_assoc, subst, inl, inr, Bytes, Option-cases, length, arith, ◌≤◌, leb, if◌then◌else◌,
}
use pty_relay.Base.Assoc.{get, set, delete, get-set}
use pty_relay.Js.{nat}
use pty_relay.Channel.Framing.{bytes, encode_frame}
use pty_relay.Channel.AllowList.{check_argv_allowed}
use pty_relay.Channel.Registry.{Registry, open_channel, has, opened, close_channel, close_found}
use pty_relay.Channel.Exec
use pty_relay.Channel.Exec.{
  Bridge, SpawnOptions, Child, StartResult, started, already_started, spawn_failed,
}
use pty_relay.Channel.Control.{
  Optional, OpenErrorCode, ControlMessage, channel_open_exec, channel_open_ack, channel_open_error,
}
use pty_relay.Channel.Control.Encode.{to_fields}
use pty_relay.Channel.Connection.{
  Handler, exec, Env, spawned, World, Conn, M, emit, put_bridge, close_id, ship_app, send_app,
  returned, handler_close, on_bridge, bridge_for, perform_all,
}
use pty_relay.Channel.OpenHandler.{
  first, reply_error, started_as, registered, register_bridge, open_allowed, open_exec_channel,
  handle_control,
}
use pty_relay.Channel.OpenHandler.Answer.{
  first_of, any_of, spawn_refusal, reply_to, spawns, registry_after, sent, Fits, spawn_options,
  Ends,
}

encode-zero :
    (p : Bytes) → length p ≤ 65531 → encode_frame (nat 0) (nat 0) p ≡ bytes (0 ∷ 0 ∷ 0 ∷ 0 ∷ 0 ∷ p)
unfolding encode_frame
encode-zero p h = ground arith

delete-set_new :
    {A : Type 0} (id : ℕ) (a : A) (r : List (ℕ × A)) → get id r ≡ none → delete id (set id a r) ≡ r
unfolding delete set get
delete-set_new id a [] e = ground arith
delete-set_new id a ((i, x) ∷ r) e = ground (arith, delete-set_new id a r)

module _ (env : Env) (id : ℕ) where
  send-Ends :
      (m : ControlMessage) (c : Conn)
      → Fits env m
      → send_app env (to_fields m) c ≡ ((c.0, emit (sent env m) c.1), some tt)
  unfolding send_app ship_app
  send-Ends m c h = rw (encode-zero (env.stringify (to_fields m)) h) refl

  reply_error-Ends :
      (code : OpenErrorCode) (message : String) (c : Conn)
      → Fits env (channel_open_error id code message)
      → Ends c.0
          (c.1.out ++ sent env (channel_open_error id code message) ∷ [])
          (reply_error env id code message c)
  unfolding reply_error
  reply_error-Ends code message c h =
      rw (send-Ends (channel_open_error id code message) c h) (refl, refl, refl)

  close_new :
      (a : ℕ) (opts : SpawnOptions) (reason : String) (r : Registry Handler) (w : World)
      → get id r ≡ none
      → w.bridges a ≡ some (Exec.make id opts)
      → Ends r w.out (returned tt (close_id env id reason (set id (exec a) r, w)))
  unfolding close_id close_channel close_found handler_close on_bridge bridge_for Exec.close
      Exec.make perform_all
  close_new a opts reason r w absent here =
      let found : get id (set id (exec a) r) ≡ some (exec a) =
        ground (arith, get-set id id (exec a) r) in
      simp (found, here, delete-set_new id (exec a) r absent) (refl, refl, refl)

  -- After `registry.open` gave `set id (exec a) r`.
  started-Ends :
      (b : Bridge) (a : ℕ) (opts : SpawnOptions) (r : Registry Handler) (w : World)
      → Fits env (channel_open_ack id)
      → Ends r
          (w.out ++ spawned opts ∷ sent env (channel_open_ack id) ∷ [])
          (started_as env (started b) id a opts (r, w))
  unfolding started_as
  started-Ends b a opts r w h =
      rw (send-Ends (channel_open_ack id) _ h)
        (refl, append_assoc w.out (spawned opts ∷ []) _, refl)

  failed-Ends :
      (a : ℕ) (opts : SpawnOptions) (r : Registry Handler) (w : World)
      → get id r ≡ none
      → w.bridges a ≡ some (Exec.make id opts)
      → Fits env (channel_open_error id OpenErrorCode.spawn_failed (env.spawn_message opts))
      → Ends r
          (w.out
            ++ spawned opts
              ∷ sent env (channel_open_error id OpenErrorCode.spawn_failed (env.spawn_message opts))
              ∷ [])
          (started_as env spawn_failed id a opts (set id (exec a) r, w))
  unfolding started_as
  failed-Ends a opts r w absent here h =
      let (same, before, _) =
        close_new a opts "spawn_failed" r (emit (spawned opts) w) absent here in
      let (kept, after, ok) =
        reply_error-Ends OpenErrorCode.spawn_failed (env.spawn_message opts)
          (close_id env id "spawn_failed" (set id (exec a) r, emit (spawned opts) w)) h in
      (
        kept ∙ same,
        after
            ∙ ap
                (λ l.
                  l
                  ++ sent env
                      (channel_open_error id OpenErrorCode.spawn_failed (env.spawn_message opts))
                    ∷ [])
                before
            ∙ append_assoc w.out (spawned opts ∷ []) _,
        ok,
      )

  -- `bridge.start()` of a new bridge.
  start-failed :
      (opts : SpawnOptions)
      → env.platform.spawn opts ≡ none
      → Exec.start env.platform (Exec.make id opts) ≡ spawn_failed
  unfolding Exec.start Exec.make
  start-failed opts e = simp (e)

  start-started :
      (opts : SpawnOptions) (k : Child)
      → env.platform.spawn opts ≡ some k
      → Exec.start env.platform (Exec.make id opts)
        ≡ started (record (Exec.make id opts) { child = some k })
  unfolding Exec.start Exec.make
  start-started opts k e = simp (e)

  opened-Ends :
      (o : Option Child) (opts : SpawnOptions) (r : Registry Handler) (w : World)
      → env.platform.spawn opts ≡ o
      → get id r ≡ none
      → Fits env (first_of (spawn_refusal env id opts) (channel_open_ack id))
      → Ends
          (if any_of (spawn_refusal env id opts) then r else set id (exec w.next) r)
          (w.out
            ++ spawned opts
              ∷ sent env (first_of (spawn_refusal env id opts) (channel_open_ack id))
              ∷ [])
          (registered env (opened (set id (exec w.next) r)) id opts (r, w))
  unfolding registered
  opened-Ends none opts r w e absent =
      simp (e, start-failed opts e)
        (failed-Ends w.next opts r
          (put_bridge w.next (Exec.make id opts) (record w { next = w.next + 1 })) absent
          (ground arith))
  opened-Ends (some k) opts r w e absent =
      simp (e, start-started opts k e)
        (started-Ends _ w.next opts (set id (exec w.next) r)
          (put_bridge w.next (Exec.make id opts) (record w { next = w.next + 1 })))

has-get : {A : Type 0} (id : ℕ) (r : Registry A) → has id r ≡ false → get id r ≡ none
unfolding has
has-get id r e = elim (Option-cases (get id r)) [ inl n ↦ n | inr (x, f) ↦ absurd (ground arith) ]

module _ (env : Env) (id : ℕ) (opts : SpawnOptions) where
  -- What the handler does, by the registry's two tests.
  abbrev Answered : Conn → Conn × Option (Unit {0}) → Type 0
  Answered c m =
      Ends (registry_after env id opts c.0 c.1.next)
        (c.1.out ++ (spawns env id opts c.0 ++ sent env (reply_to env id opts c.0) ∷ [])) m

  registered-Answered :
      (name : String) (taken full : Bool) (c : Conn)
      → env.allow_exec ≡ true
      → check_argv_allowed (first opts.argv) ≡ some name
      → has id c.0 ≡ taken
      → leb 16 (length c.0) ≡ full
      → Fits env (reply_to env id opts c.0)
      → Answered c (register_bridge env id opts c)
  unfolding register_bridge open_channel registered
  registered-Answered name true full (r, w) on e here l =
      simp (on, e, here) (reply_error-Ends env id _ _ (r, w))
  registered-Answered name false true (r, w) on e here l =
      simp (on, e, here, l) (reply_error-Ends env id _ _ (r, w))
  registered-Answered name false false (r, w) on e here l =
      simp (on, e, here, l) (opened-Ends env id _ opts r w refl (has-get id r here))

  allowed-Answered :
      (o : Option String) (c : Conn)
      → env.allow_exec ≡ true
      → check_argv_allowed (first opts.argv) ≡ o
      → Fits env (reply_to env id opts c.0)
      → Answered c (open_allowed env o id opts c)
  unfolding open_allowed
  allowed-Answered none c on e = simp (on, e) (reply_error-Ends env id _ _ c)
  allowed-Answered (some name) c on e = registered-Answered name _ _ c on e refl refl

  if-true : (b : Bool) (m n : M (Unit {0})) (c : Conn) → b ≡ true → (if b then m else n) c ≡ m c
  if-true b m n c e = rw e

  enabled-Answered :
      (b : Bool) (c : Conn)
      → env.allow_exec ≡ b
      → Fits env (reply_to env id opts c.0)
      → Answered c (open_exec_channel env id opts c)
  unfolding open_exec_channel
  enabled-Answered true c on = λ h.
      subst (Answered c) (sym (if-true env.allow_exec _ _ c on)) (allowed-Answered _ c on refl h)
  enabled-Answered false c off = simp (off) (reply_error-Ends env id _ _ c)

-- A channel_open in exec mode gets exactly one reply, if the frame of that reply fits: the error of
-- the first test that holds, in the order of the code, else the ack; the process is spawned once
-- when the first four tests pass, and the channel is registered afterwards exactly when the reply
-- is the ack.
pub handle_control-open_exec :
    (env : Env) (id : ℕ) (argv : List String) (vars : Optional (List (String × String)))
    (cwd : Optional String) (c : Conn)
    → Fits env (reply_to env id (spawn_options argv vars cwd) c.0)
    → Ends
        (registry_after env id (spawn_options argv vars cwd) c.0 c.1.next)
        (c.1.out
          ++ (spawns env id (spawn_options argv vars cwd) c.0
              ++ sent env (reply_to env id (spawn_options argv vars cwd) c.0) ∷ []))
        (handle_control env (channel_open_exec id argv vars cwd) c)
unfolding handle_control
handle_control-open_exec env id argv vars cwd c h = enabled-Answered env id _ _ c refl h
