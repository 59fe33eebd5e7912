-- ===== src/Relay/Primary.antt =====
-- src/relay/primary-connection.ts: the daemon's control WebSocket. The listeners of a socket act on
-- the connection, whichever of its sockets they belong to.
use pty_relay.Base.{
  ℕ, String, Bool, true, false, not, ◌&&◌, Option, none, some, List, [], ◌∷◌, ◌++◌, str_eq,
  if◌then◌else◌,
}
use pty_relay.Js.{
  Json, null, str, num, obj, Number, Fields, end, field, prop, truthy, string_at, nat,
}

-- `RelayEvent`
pub record RelayEvent : Type 0 where
  pub seq : Number
  pub event_type : Option Json
  pub sender_key_id : Option Json
  pub payloads : Option Json

pub data Output : Type 0 where
  sent_text : Fields → Output
  closed_socket : Output
  on_connected : Output
  on_client_waiting : Json → Option Json → Option Json → Output
  on_client_disconnected : Json → Output
  on_event : RelayEvent → Output
  on_error : Json → Output
  on_close : Option ℕ → Output
  on_revoked : Output

-- `this.ws` is there, and `this.ws.readyState === OPEN`; the optional callback onEvent is given.
pub record Conn : Type 0 where
  pub has_socket : Bool
  pub is_open : Bool
  pub closed : Bool
  pub wants_events : Bool
  pub out : List Output

abbrev pub emit : Output → Conn → Conn
emit o c = record c { out = c.out ++ (o ∷ []) }

-- `connect()`
abbrev pub connect : Conn → Conn
connect c = record c { has_socket = true; is_open = false; closed = false }

-- `close()`
unfoldable pub close : Conn → Conn
close c =
    let c' = record c { closed = true; has_socket = false; is_open = false } in
    if c.has_socket then emit closed_socket c' else c'

-- `sendText(text)`, `sendSync(cursor)` and `sendEvent(type, payload)`
unfoldable pub send_text : Fields → Conn → Conn
send_text o c = if c.has_socket && c.is_open then emit (sent_text o) c else c

abbrev pub send_sync : ℕ → Conn → Conn
send_sync cursor c = send_text (field "type" (str "sync") (field "cursor" (num (nat cursor)) end)) c

abbrev pub send_event : String → Fields → Conn → Conn
send_event type payload c =
    send_text
      (field "type" (str "emit_event")
        (field "event_type" (str type) (field "payload" (obj payload) end)))
      c

abbrev pub is_connected : Conn → Bool
is_connected c = c.has_socket && c.is_open

abbrev pub value_of : Option Json → Json
value_of none = null
value_of (some j) = j

-- `msg.message || "Relay error"`
abbrev pub message_or_default : Option Json → Json
message_or_default o = if truthy o then value_of o else str "Relay error"

unfoldable pub relay_event : Option Json → Fields → Conn → Conn
relay_event (some (num seq)) o c =
    if c.wants_events
    then emit
        (on_event (record {
          seq = seq;
          event_type = prop "event_type" o;
          sender_key_id = prop "sender_key_id" o;
          payloads = prop "payloads" o;
        }))
        c
    else c
relay_event _ o c = c

unfoldable pub on_type : Option String → Fields → Conn → Conn
on_type none o c = c
on_type (some type) o c =
    if str_eq type "client_waiting"
    then (if truthy (prop "client_id" o)
        then emit
            (on_client_waiting (value_of (prop "client_id" o)) (prop "client_token" o)
              (prop "meta" o))
            c
        else c)
    else (if str_eq type "client_disconnected"
        then (if truthy (prop "client_id" o)
            then emit (on_client_disconnected (value_of (prop "client_id" o))) c
            else c)
        else (if str_eq type "error"
            then emit (on_error (message_or_default (prop "message" o))) c
            else (if str_eq type "event"
                then relay_event (prop "seq" o) o c
                else (if str_eq type "draining"
                    then emit (on_close (some 1012)) (close c)
                    else (if str_eq type "revoked" then emit on_revoked c else c)))))

-- `handleTextMessage`, by the result of `JSON.parse`; an exception is swallowed.
unfoldable pub on_text : Option Json → Conn → Conn
on_text (some (obj o)) c = on_type (string_at "type" o) o c
on_text _ c = c

-- The calls of the daemon, and the events of a socket; a close says whether it is `this.ws` that closed.
pub data Event : Type 0 where
  call_connect : Event
  call_close : Event
  call_send : Fields → Event
  socket_open : Event
  text : Option Json → Event
  socket_close : Bool → Option ℕ → Event
  socket_failed : Json → Event

unfoldable pub step : Event → Conn → Conn
step call_connect c = connect c
step call_close c = close c
step (call_send o) c = send_text o c
step socket_open c = emit on_connected (record c { is_open = true })
step (text t) c = on_text t c
step (socket_close current code) c =
    let c' = record c { is_open = c.is_open && not current } in
    if c.closed then c' else emit (on_close code) c'
step (socket_failed message) c = emit (on_error message) c

unfoldable pub run : List Event → Conn → Conn
run [] c = c
run (e ∷ es) c = run es (step e c)

-- A connection when it is made.
abbrev pub fresh : Bool → Conn
fresh events = record {
  has_socket = false;
  is_open = false;
  closed = false;
  wants_events = events;
  out = [];
}
