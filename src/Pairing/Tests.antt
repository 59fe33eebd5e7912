-- ===== src/Pairing/Tests.antt =====
-- The pairing registry at concrete inputs.
use pty_relay.Base.{
  String, true, false, none, some, List, [], ◌∷◌, ◌++◌, ◌≡◌, refl, Occurs, All, Option,
}
use pty_relay.Js.{Json, field, end, str, obj, prop, truthy}
use pty_relay.Pairing.{
  World, Event, daemon_came, client_came, daemon_for, message, socket_closed, closing, text, binary,
  forwarded, sent, closed, typed, paired, waiting, fresh, run, step, on_close, primary_close,
  register_daemon, register_client, register_daemon_for_client, add_primary, add_client, add_daemon,
  find_client, reject, primary_object, primary_text, on_message, leave_daemon, client_gone,
  client_left, each_listener, client_at,
}
use pty_relay.Base.Dict.{get, set, delete}
use pty_relay.Pairing.Isolation.{CameIn, AnsweredIn, IsPermitted, run-IsIsolated}
use pty_relay.Pairing.Link.{run-forwards}
use pty_relay.Pairing.Ending.{IsEnded, on_close_primary}

-- A `JSON.parse` that knows one text.
abbrev parse : String → Option Json
parse t = some (
    obj (
      field "type" (str "reject_client")
        (field "client_id" (str t) (field "reason" (str "no") end))))

-- Socket 1 is a primary, 2 and 3 its clients, and 4 the daemon's answer to 2.
abbrev came : List Event
came =
    daemon_came "h" 1 none
    ∷ client_came "h" 2 none none "a"
    ∷ client_came "h" 3 (some "t") none "b"
    ∷ []

abbrev session : List Event
session =
    came
    ++ (daemon_for "h" "a" 4
        ∷ message 2 (binary (7 ∷ []))
        ∷ message 4 (binary (8 ∷ []))
        ∷ message 1 (text "b")
        ∷ socket_closed 2
        ∷ [])

session_out : (run parse session fresh).out ≡ (
    sent 1 (waiting "a" none none)
    ∷ sent 1 (waiting "b" (some "t") none)
    ∷ sent 2 (paired false)
    ∷ sent 4 (paired false)
    ∷ forwarded 2 4 (7 ∷ [])
    ∷ forwarded 4 2 (8 ∷ [])
    ∷ sent 3 (field "type" (str "error") (field "message" (str "no") end))
    ∷ closed 3
    ∷ sent 4 (typed "peer_disconnected")
    ∷ closed 4
    ∷ sent 1 (field "type" (str "client_disconnected") (field "client_id" (str "a") end))
    ∷ [])
unfolding run step register_daemon register_client register_daemon_for_client add_primary add_client
    add_daemon find_client reject primary_object primary_text on_message leave_daemon client_gone
    client_left on_close each_listener get set delete client_at prop truthy
session_out = refl

-- A host whose client 2 waits.
abbrev one_waits : World
one_waits = record {
  entries = ("h", 0) ∷ [];
  objects = λ a. record {
    primary = 1;
    clients = ("a", record { client = 2; daemon = none; psk_required = true }) ∷ [];
    label = none;
  };
  next = 1;
  listeners = [];
  is_open = λ s. true;
  out = [];
}

-- The same host after the daemon's answer, without the listeners.
abbrev one_paired : World
one_paired = record one_waits {
  objects = λ a. record {
    primary = 1;
    clients =
        ("a", record { client = 2; daemon = some 4; psk_required = true })
        ∷ ("b", record { client = 3; daemon = none; psk_required = false })
        ∷ [];
    label = none;
  };
}

run-IsIsolated_example :
    All (IsPermitted (CameIn session) (AnsweredIn session)) (run parse session fresh).out
run-IsIsolated_example = run-IsIsolated parse session

run-forwards_example :
    Occurs
      (forwarded 2 4 (7 ∷ []))
      (step parse
        (message 2 (binary (7 ∷ [])))
        (run parse (daemon_for "h" "a" 4 ∷ closing 9 ∷ []) one_waits)).out
    × Occurs
        (forwarded 4 2 (7 ∷ []))
        (step parse
          (message 4 (binary (7 ∷ [])))
          (run parse (daemon_for "h" "a" 4 ∷ closing 9 ∷ []) one_waits)).out
unfolding run step register_daemon_for_client find_client add_daemon get
run-forwards_example =
    run-forwards parse "h" "a" 0 (record { client = 2; daemon = none; psk_required = true }) 4
      (closing 9 ∷ []) (7 ∷ []) one_waits refl refl refl refl

on_close_primary_example :
    IsEnded "h"
      (one_paired.objects 0).clients
      one_paired
      (on_close 1 (primary_close "h") one_paired)
unfolding get
on_close_primary_example = on_close_primary "h" 0 one_paired refl (tt, tt)
