-- ===== src/Channel/OpenHandler/Gate.antt =====
-- An invariant of a connection: its registry, and what the daemon spawned.
pub mod Run
use pty_relay.Base.{
  ℕ, suc, ◌+◌, String, Bool, true, false, Option, none, some, List, [], ◌∷◌, ◌++◌, ◌≡◌, refl, subst,
  sym, inl, inr, Bytes, All, All-append, Bool-cases, Option-cases, length, arith, ◌≤◌,
  if◌then◌else◌,
}
use pty_relay.Base.Assoc.{get, set, delete, keys, IsMap, delete-IsMap, length-delete-le}
use pty_relay.Js.{Fields}
use pty_relay.Channel.Framing.{EncodeResult, bytes, throws, default_pty_channel_id}
use pty_relay.Channel.AllowList.{check_argv_allowed, exec_allow_list}
use pty_relay.Channel.AllowList.Basename.{IsBasename, Listed, check_argv_allowed_iff}
use pty_relay.Channel.Registry.{
  Registry, OpenResult, open_channel, opened, refused, close_channel, close_found, close_ids,
  close_all,
}
use pty_relay.Channel.Registry.Laws.{IsValid, open_channel-IsValid}
use pty_relay.Channel.Exec.{
  Action, send_data, send_exit, send_close, stdin_write, stdin_end, kill, Bridge, SpawnOptions,
}
use pty_relay.Channel.Connection.{
  Handler, exec, pty, Env, and_then, is_pty, ship_app, ship_data, data_for, bridge_for, pty_opened,
  attach_over, detach_bridge, on_child_event, Output, sent_app, sent_data, spawned, child_stdin,
  child_stdin_end, child_kill, pty_frame, pty_close, app_message, fatal_error, World, Conn, M,
  output, emit, put_bridge, send_app, send_channel_data, perform, perform_all, on_bridge,
  handler_frame, handler_close, close_id, close_everything, open_pty, attach_bridge,
}
use pty_relay.Channel.OpenHandler.{
  first, reply_error, started_as, registered, to_handler, register_bridge, open_allowed,
  open_exec_channel, handle_control, follow, handle_plaintext, Event, plaintext, child_event,
  attach, detach, ended, step, run, fresh,
}

-- A spawn that the daemon's flag and the allow-list permit.
abbrev pub IsPermitted : Env → Output → Type 0
IsPermitted env (spawned opts) =
    (env.allow_exec ≡ true)
    × ((name : String) × IsBasename name (first opts.argv) × Listed name exec_allow_list)
IsPermitted env _ = Unit

abbrev IsOther : Output → Type 0
IsOther (spawned opts) = ⊥
IsOther _ = Unit

pub record Inv (env : Env) (c : Conn) : Type 0 where
  pub valid : IsValid c.0
  pub permitted : All (IsPermitted env) c.1.out

module _ (env : Env) where
  IsOther-IsPermitted : (o : Output) → IsOther o → IsPermitted env o
  IsOther-IsPermitted (spawned opts) h = absurd h
  IsOther-IsPermitted _ h = tt

  pub emit-Inv : (o : Output) (c : Conn) → IsPermitted env o → Inv env c → Inv env (c.0, emit o c.1)
  emit-Inv o c h v = record {
    valid = v.valid;
    permitted = All-append (IsPermitted env) c.1.out (o ∷ []) v.permitted (h, tt);
  }

  pub put_bridge-Inv :
      (a : ℕ) (b : Bridge) (r : Registry Handler) (w : World)
      → Inv env (r, w)
      → Inv env (r, put_bridge a b w)
  put_bridge-Inv a b r w v = record { valid = v.valid; permitted = v.permitted }

  ship_app-Inv : (o : Fields) (e : EncodeResult) (c : Conn) → Inv env c → Inv env (ship_app o e c).0
  unfolding ship_app
  ship_app-Inv o (bytes frame) c v = emit-Inv (sent_app o frame) c tt v
  ship_app-Inv o (throws e) c v = v

  pub send_app-Inv : (o : Fields) (c : Conn) → Inv env c → Inv env (send_app env o c).0
  unfolding send_app
  send_app-Inv o c v = ship_app-Inv o _ c v

  ship_data-Inv : (e : EncodeResult) (c : Conn) → Inv env c → Inv env (ship_data e c).0
  unfolding ship_data
  ship_data-Inv (bytes frame) c v = emit-Inv (sent_data frame) c tt v
  ship_data-Inv (throws e) c v = v

  data_for-Inv :
      (o : Option Bridge) (payload : Bytes) (c : Conn)
      → Inv env c
      → Inv env (data_for env o payload c).0
  unfolding data_for send_channel_data
  data_for-Inv none payload c v = v
  data_for-Inv (some b) payload c v = ship_data-Inv _ c v

  perform-Inv : (a : ℕ) (x : Action) (c : Conn) → Inv env c → Inv env (perform env a x c).0
  unfolding perform
  perform-Inv a (send_data payload) c v = data_for-Inv (c.1.bridges a) payload c v
  perform-Inv a (send_exit id code signal) c v = send_app-Inv _ c v
  perform-Inv a (send_close id reason) c v = send_app-Inv _ c v
  perform-Inv a (stdin_write p) c v = emit-Inv (child_stdin a p) c tt v
  perform-Inv a stdin_end c v = emit-Inv (child_stdin_end a) c tt v
  perform-Inv a (kill signal) c v = emit-Inv (child_kill a signal) c tt v

  and_then-Inv :
      {A B : Type 0} (m : Conn × Option A) (f : A → M B)
      → Inv env m.0
      → ((x : A) (c : Conn) → Inv env c → Inv env (f x c).0)
      → Inv env (and_then m f).0
  and_then-Inv (c, none) f v h = v
  and_then-Inv (c, some x) f v h = h x c v

  perform_all-Inv :
      (a : ℕ) (xs : List Action) (c : Conn) → Inv env c → Inv env (perform_all env a xs c).0
  unfolding perform_all
  perform_all-Inv a [] c v = v
  perform_all-Inv a (x ∷ xs) c v =
      and_then-Inv (perform env a x c) (λ _. perform_all env a xs) (perform-Inv a x c v)
        (λ _ c' v'. perform_all-Inv a xs c' v')

  bridge_for-Inv :
      (o : Option Bridge) (a : ℕ) (handler : Bridge → Bridge × List Action) (c : Conn)
      → Inv env c
      → Inv env (bridge_for env o a handler c).0
  unfolding bridge_for
  bridge_for-Inv none a handler c v = v
  bridge_for-Inv (some b) a handler (r, w) v =
      perform_all-Inv a (handler b).1 _ (put_bridge-Inv a (handler b).0 r w v)

  pub on_bridge-Inv :
      (a : ℕ) (handler : Bridge → Bridge × List Action) (c : Conn)
      → Inv env c
      → Inv env (on_bridge env a handler c).0
  unfolding on_bridge
  on_bridge-Inv a handler c v = bridge_for-Inv (c.1.bridges a) a handler c v

  pub handler_frame-Inv :
      (h : Handler) (type : ℕ) (payload : Bytes) (c : Conn)
      → Inv env c
      → Inv env (handler_frame env h type payload c).0
  unfolding handler_frame
  handler_frame-Inv (exec a) type payload c v = on_bridge-Inv a _ c v
  handler_frame-Inv (pty a) type payload c v = emit-Inv (pty_frame a payload) c tt v

  handler_close-Inv :
      (h : Handler) (reason : String) (c : Conn)
      → Inv env c
      → Inv env (handler_close env h reason c)
  unfolding handler_close
  handler_close-Inv (exec a) reason c v = on_bridge-Inv a _ c v
  handler_close-Inv (pty a) reason c v = emit-Inv (pty_close a reason) c tt v

  delete-Inv :
      (id : ℕ) (r : Registry Handler) (w : World) → Inv env (r, w) → Inv env (delete id r, w)
  delete-Inv id r w v = record {
    valid = record {
      distinct = delete-IsMap id r v.valid.distinct;
      bounded = omega (arith, length-delete-le id r, v.valid.bounded);
    };
    permitted = v.permitted;
  }

  close_found-Inv :
      (o : Option Handler) (id : ℕ) (reason : String) (c : Conn)
      → Inv env c
      → Inv env (close_found (handler_close env) o id reason c).0
  unfolding close_found
  close_found-Inv none id reason c v = v
  close_found-Inv (some h) id reason (r, w) v = handler_close-Inv h reason _ (delete-Inv id r w v)

  pub close_id-Inv :
      (id : ℕ) (reason : String) (c : Conn) → Inv env c → Inv env (close_id env id reason c)
  unfolding close_id close_channel
  close_id-Inv id reason c v = close_found-Inv (get id c.0) id reason c v

  close_ids-Inv :
      (ids : List ℕ) (reason : String) (c : Conn)
      → Inv env c
      → Inv env (close_ids (handler_close env) ids reason c)
  unfolding close_ids
  close_ids-Inv [] reason c v = v
  close_ids-Inv (id ∷ ids) reason c v =
      close_ids-Inv ids reason _ (unfold close_id in close_id-Inv id reason c v)

  pub close_everything-Inv :
      (reason : String) (c : Conn) → Inv env c → Inv env (close_everything env reason c)
  unfolding close_everything close_all
  close_everything-Inv reason (r, w) v = close_ids-Inv (keys r) reason (r, w) v

  pub open-Inv :
      (id : ℕ) (h : Handler) (r r' : Registry Handler) (w : World)
      → open_channel id h r ≡ opened r'
      → Inv env (r, w)
      → Inv env (r', w)
  open-Inv id h r r' w e v = record {
    valid = open_channel-IsValid id h r r' v.valid e;
    permitted = v.permitted;
  }

  pty_opened-Inv :
      (o : OpenResult Handler) (a : ℕ) (c : Conn)
      → open_channel default_pty_channel_id (pty a) c.0 ≡ o
      → Inv env c
      → Inv env (pty_opened o c).0
  unfolding pty_opened
  pty_opened-Inv (opened r') a (r, w) e v = open-Inv default_pty_channel_id (pty a) r r' w e v
  pty_opened-Inv (refused x) a c e v = v

  open_pty-Inv : (a : ℕ) (c : Conn) → Inv env c → Inv env (open_pty a c).0
  unfolding open_pty
  open_pty-Inv a c v = pty_opened-Inv _ a c refl v

  pub attach_over-Inv :
      (o : Option Handler) (a : ℕ) (c : Conn) → Inv env c → Inv env (attach_over env o a c).0
  unfolding attach_over
  attach_over-Inv none a c v = open_pty-Inv a c v
  attach_over-Inv (some h) a c v = elim (Bool-cases (is_pty a h)) [
    | inl same ↦ rw same v
    | inr other ↦
        rw other (open_pty-Inv a _ (close_id-Inv default_pty_channel_id "client_detach" c v))
  ]
