-- ===== src/Channel/OpenHandler/Ending.antt =====
-- The end of a connection.
use pty_relay.Base.{ℕ, String, Option, none, some, List, [], ◌∷◌, ◌≡◌, refl, sym, ◌∙◌, ap, Bytes}
use pty_relay.Base.Assoc.{values}
use pty_relay.Js.{Fields}
use pty_relay.Channel.Framing.{EncodeResult, bytes, throws}
use pty_relay.Channel.Registry.{Registry}
use pty_relay.Channel.Registry.Laws.{close_each, close_all_lem}
use pty_relay.Channel.Exec.{
  Action, Bridge, send_data, send_exit, send_close, stdin_write, stdin_end, kill,
}
use pty_relay.Channel.Connection.{
  Handler, exec, pty, Env, World, Conn, M, and_then, ship_app, ship_data, send_app,
  send_channel_data, data_for, perform, perform_all, bridge_for, on_bridge, handler_close,
  close_everything,
}

-- A code that leaves the registry alone, and does the same to the world over every registry.
abbrev Quiet : M (Unit {0}) → Type 0
Quiet m = (r : Registry Handler) (w : World) → m (r, w) ≡ ((r, (m ([], w)).0.1), (m ([], w)).1)

module _ (env : Env) where
  ship_app-Quiet : (o : Fields) (e : EncodeResult) → Quiet (ship_app o e)
  unfolding ship_app
  ship_app-Quiet o (bytes f) r w = refl
  ship_app-Quiet o (throws x) r w = refl

  ship_data-Quiet : (e : EncodeResult) → Quiet (ship_data e)
  unfolding ship_data
  ship_data-Quiet (bytes f) r w = refl
  ship_data-Quiet (throws x) r w = refl

  data_for-Quiet : (o : Option Bridge) (payload : Bytes) → Quiet (data_for env o payload)
  unfolding data_for send_channel_data
  data_for-Quiet none payload r w = refl
  data_for-Quiet (some b) payload r w = ship_data-Quiet _ r w

  perform-Quiet : (a : ℕ) (x : Action) → Quiet (perform env a x)
  unfolding perform send_app
  perform-Quiet a (send_data payload) r w = data_for-Quiet (w.bridges a) payload r w
  perform-Quiet a (send_exit id code signal) r w = ship_app-Quiet _ _ r w
  perform-Quiet a (send_close id reason) r w = ship_app-Quiet _ _ r w
  perform-Quiet a (stdin_write p) r w = refl
  perform-Quiet a stdin_end r w = refl
  perform-Quiet a (kill signal) r w = refl

  and_then-Quiet :
      (m : Conn × Option (Unit {0})) (f : M (Unit {0})) (r : Registry Handler)
      → Quiet f
      → and_then ((r, m.0.1), m.1) (λ _. f) ≡ (
        (r, (and_then (([], m.0.1), m.1) (λ _. f)).0.1),
        (and_then (([], m.0.1), m.1) (λ _. f)).1,
      )
  and_then-Quiet (c, none) f r h = refl
  and_then-Quiet (c, some x) f r h = h r c.1

  perform_all-Quiet : (a : ℕ) (xs : List Action) → Quiet (perform_all env a xs)
  unfolding perform_all
  perform_all-Quiet a [] r w = refl
  perform_all-Quiet a (x ∷ xs) r w =
      ap (λ m. and_then m (λ _. perform_all env a xs)) (perform-Quiet a x r w)
      ∙ and_then-Quiet (perform env a x ([], w)) (perform_all env a xs) r (perform_all-Quiet a xs)
      ∙ sym (
          ap
            (λ m. (
              (r, (and_then m (λ _. perform_all env a xs)).0.1),
              (and_then m (λ _. perform_all env a xs)).1,
            ))
            (perform-Quiet a x [] w))

  bridge_for-Quiet :
      (o : Option Bridge) (a : ℕ) (handler : Bridge → Bridge × List Action)
      → Quiet (bridge_for env o a handler)
  unfolding bridge_for
  bridge_for-Quiet none a handler r w = refl
  bridge_for-Quiet (some b) a handler r w = perform_all-Quiet a (handler b).1 r _

  abbrev pub closed_world : Handler → String → World → World
  closed_world h reason w = (handler_close env h reason ([], w)).1

  pub handler_close-quiet :
      (h : Handler) (reason : String) (r : Registry Handler) (w : World)
      → handler_close env h reason (r, w) ≡ (r, closed_world h reason w)
  unfolding handler_close on_bridge
  handler_close-quiet (exec a) reason r w = ap (λ m. m.0) (bridge_for-Quiet (w.bridges a) a _ r w)
  handler_close-quiet (pty a) reason r w = refl

  -- At the end of a connection the registry is emptied, and each handler in it is closed exactly
  -- once, in the order of the registry.
  pub close_everything_lem :
      (reason : String) (r : Registry Handler) (w : World)
      → close_everything env reason (r, w)
        ≡ ([], close_each (handler_close env) closed_world handler_close-quiet reason w (values r))
  unfolding close_everything
  close_everything_lem reason r w =
      close_all_lem (handler_close env) closed_world handler_close-quiet reason r w
