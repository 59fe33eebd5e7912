-- ===== src/Relay/Tests.antt =====
-- The connections of a daemon at concrete inputs, over the toy cryptography.
use pty_relay.Base.{true, false, none, some, [], ◌∷◌, ◌++◌, ◌≡◌, refl, str_eq, if◌then◌else◌}
use pty_relay.Js.{null, str, obj, field, end, prop, string_at}
use pty_relay.Crypto.Primitives.{ok}
use pty_relay.Crypto.Pattern.{kk}
use pty_relay.Crypto.Handshake.{Handshake, read_message}
use pty_relay.Crypto.Tests.{
  toy, IsToyPair, client_hs, daemon_hs, after_first, gen, static, toy-Opens, toy-DhLaws,
  gen-IsToyPair, start-Mirror, first_message,
}
use pty_relay.Pairing.{Meta, waiting as waiting_message}
use pty_relay.Relay.Primary
use pty_relay.Relay.Agreement.{token_json, meta_json, on_text-waiting}
use pty_relay.Relay.Connection.{
  waiting, handshaking, Env, Conn, text, binary, call_close, choose, choose_by, choose_kk, chosen,
  uncaught, step, run, fresh, on_text, on_type, close,
}
use pty_relay.Relay.Connection.Order.{Inv, run_in_order}
use pty_relay.Relay.Connection.Hello.{reply, IsAnswered, step-hello}

-- A daemon with a pre-shared key.
abbrev env : Env
env = record {
  crypto = toy;
  key_pair = static;
  pre_shared_key = some (5 ∷ []);
  fingerprint = λ k. "5";
  client_key = λ s. some (9 ∷ []);
  draw = λ n. gen;
  parse = λ t. if str_eq t "null" then some null else some (obj (field "type" (str t) end));
}

abbrev conn : Conn
conn = record fresh { state = handshaking; has_socket = true; handshake = some daemon_hs }

step-hello_example :
    (h' : Handshake) × (read_message toy ((gen 0).public_key ++ 42 ∷ []) daemon_hs
      ≡ (h', ok (42 ∷ [])))
    × IsAnswered env after_first
        (reply env 0 h')
        (step env (binary ((gen 0).public_key ++ 42 ∷ [])) conn)
step-hello_example =
    step-hello env IsToyPair toy-Opens toy-DhLaws gen gen-IsToyPair (λ n. gen-IsToyPair) conn
      daemon_hs client_hs after_first (42 ∷ []) ((gen 0).public_key ++ 42 ∷ []) refl refl
      start-Mirror first_message

run_in_order_example : Inv env (run env (text "peer_disconnected" ∷ binary [] ∷ []) fresh)
run_in_order_example = run_in_order env (text "peer_disconnected" ∷ binary [] ∷ []) fresh (tt, tt)

-- A frame with a client's key selects KK, whatever pre-shared key the daemon has.
kk_of_key :
    choose env
      (record { pairing_hash_id = none; client_public_key = some "key"; wants_psk = false })
    ≡ chosen kk (some (9 ∷ [])) none
unfolding choose choose_by choose_kk
kk_of_key = refl

-- The text `null` throws out of the listener.
null_text : (step env (text "null") fresh).out ≡ (uncaught ∷ [])
unfolding step on_text
null_text = refl

-- A closed connection takes up the text that comes before the close of its socket.
taken_up : (run env (call_close ∷ text "peer_disconnected" ∷ []) conn).state ≡ waiting
unfolding run step on_text on_type close string_at prop
taken_up = refl

-- What the relay says of a waiting client, whose user agent is not known.
abbrev peer : Meta
peer = record {
  remote_addr = some "10.0.0.1";
  user_agent = none;
  origin = some "http://a";
  psk_required = true;
}

on_text-waiting_example :
    Primary.on_text (some (obj (waiting_message "c1" (some "t") (some peer)))) (Primary.fresh true)
    ≡ Primary.emit
        (Primary.on_client_waiting (str "c1") (token_json (some "t")) (meta_json (some peer)))
        (Primary.fresh true)
on_text-waiting_example = on_text-waiting "c1" (some "t") (some peer) (Primary.fresh true) refl

-- The close of a socket that was drained is reported a second time after a reconnect.
closed_twice :
    (Primary.run
      (Primary.call_connect
        ∷ Primary.text (some (obj (field "type" (str "draining") end)))
        ∷ Primary.call_connect
        ∷ Primary.socket_close false (some 1005)
        ∷ [])
      (Primary.fresh true)).out
    ≡ (Primary.closed_socket ∷ Primary.on_close (some 1012) ∷ Primary.on_close (some 1005) ∷ [])
unfolding Primary.run Primary.step Primary.on_text Primary.on_type Primary.close string_at prop
closed_twice = refl
