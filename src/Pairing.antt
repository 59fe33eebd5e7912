-- ===== src/Pairing.antt =====
-- src/serve/pairing.ts: the pairing registry of the self-hosted relay. Sockets are numbers. An entry
-- is an object at a reference, since the listener for the primary's messages keeps the entry that it
-- was made with; the listeners on a socket are data, in the order of their registration.
pub mod Isolation
pub mod Link
pub mod Ending
mod Tests
use pty_relay.Base.{
  ℕ, ◌+◌, String, Bool, true, false, ◌&&◌, ◌||◌, not, Option, none, some, List, [], ◌∷◌, ◌++◌,
  Bytes, ◌==◌, str_eq, if◌then◌else◌,
}
use pty_relay.Base.Dict.{get, set, delete}
use pty_relay.Js.{Json, null, bool, str, obj, Fields, end, field, prop, truthy}

-- `ClientEntry`
pub record ClientEntry : Type 0 where
  pub client : ℕ
  pub daemon : Option ℕ
  pub psk_required : Bool

-- `PrimaryEntry`
pub record PrimaryEntry : Type 0 where
  pub primary : ℕ
  pub clients : List (String × ClientEntry)
  pub label : Option String

-- The `meta` of a client; `none` is null or undefined.
pub record Meta : Type 0 where
  pub remote_addr : Option String
  pub user_agent : Option String
  pub origin : Option String
  pub psk_required : Bool

-- The closures that the registry hangs on a socket. The socket itself is the `ws` that they capture.
pub data Listener : Type 0 where
  primary_message : ℕ → Listener
  primary_close : String → Listener
  client_close : String → String → Listener
  forward_to : ℕ → Listener
  daemon_close : String → String → Listener

-- The calls on the sockets, in order. A forwarded frame has the socket that it came from.
pub data Call : Type 0 where
  sent : ℕ → Fields → Call
  forwarded : ℕ → ℕ → Bytes → Call
  closed : ℕ → Call

pub record World : Type 0 where
  -- `this.entries`, by the reference of the entry
  pub entries : List (String × ℕ)
  pub objects : ℕ → PrimaryEntry
  pub next : ℕ
  pub listeners : List (ℕ × Listener)
  -- `readyState === 1`
  pub is_open : ℕ → Bool
  pub out : List Call

-- `socket.send(JSON.stringify(o))`; what it throws is swallowed.
abbrev pub send : ℕ → Fields → World → World
send s o w = record w { out = w.out ++ (sent s o ∷ []) }

abbrev pub leave : ℕ → World → World
leave s w = record w { is_open = λ i. if i == s then false else w.is_open i }

-- `socket.close()`
abbrev pub close : ℕ → World → World
close s w = leave s (record w { out = w.out ++ (closed s ∷ []) })

abbrev pub put_object : ℕ → PrimaryEntry → World → World
put_object a e w = record w { objects = λ i. if i == a then e else w.objects i }

abbrev pub put_clients : ℕ → List (String × ClientEntry) → World → World
put_clients a cs w = put_object a (record (w.objects a) { clients = cs }) w

abbrev pub listen : ℕ → Listener → World → World
listen s l w = record w { listeners = w.listeners ++ ((s, l) ∷ []) }

-- `registerDaemon`
unfoldable pub add_primary : Option ℕ → String → ℕ → Option String → World → World × Bool
add_primary (some a) h ws label w = (w, false)
add_primary none h ws label w = (
  listen ws (primary_close h) (
      listen ws (primary_message w.next) (
        put_object w.next (record { primary = ws; clients = []; label = label })
          (record w { entries = set h w.next w.entries; next = w.next + 1 }))),
  true,
)

unfoldable pub register_daemon : String → ℕ → Option String → World → World × Bool
register_daemon h ws label w = add_primary (get h w.entries) h ws label w

-- The truth value of a text that may be missing.
unfoldable pub has_text : Option String → Bool
has_text none = false
has_text (some s) = not (str_eq s "")

abbrev pub text_or_null : Option String → Json
text_or_null none = null
text_or_null (some s) = str s

abbrev pub flag : Option Meta → Bool
flag none = false
flag (some m) = m.psk_required

-- The `client_waiting` message, from its last property.
unfoldable pub meta_field : Option Meta → Fields
meta_field none = end
meta_field (some m) =
    if has_text m.remote_addr || (has_text m.user_agent || has_text m.origin)
    then field "meta"
        (obj (
          field "remote_addr" (text_or_null m.remote_addr) (
            field "user_agent" (text_or_null m.user_agent)
              (field "origin" (text_or_null m.origin) end))))
        end
    else end

unfoldable pub psk_field : Bool → Fields → Fields
psk_field psk fs = if psk then field "psk_required" (bool true) fs else fs

unfoldable pub token_field : Option String → Fields → Fields
token_field none fs = fs
token_field (some t) fs = if str_eq t "" then fs else field "client_token" (str t) fs

abbrev pub waiting : String → Option String → Option Meta → Fields
waiting id token meta =
    field "type" (str "client_waiting")
      (field "client_id" (str id) (token_field token (psk_field (flag meta) (meta_field meta))))

-- `registerClient`, where `id` is the random client id
unfoldable pub add_client :
    Option ℕ → String → ℕ → Option String → Option Meta → String → World → World × Option String
add_client none h ws token meta id w = (w, none)
add_client (some a) h ws token meta id w = (
  listen ws (client_close h id) (
      send (w.objects a).primary (waiting id token meta) (
        put_clients a
          (set id (record { client = ws; daemon = none; psk_required = flag meta })
            (w.objects a).clients)
          w)),
  some id,
)

unfoldable pub register_client :
    String → ℕ → Option String → Option Meta → String → World → World × Option String
register_client h ws token meta id w = add_client (get h w.entries) h ws token meta id w

-- `pairedPayload`
abbrev pub paired : Bool → Fields
paired psk =
    field "type" (str "paired") (if psk then field "noise_pattern" (str "NKpsk2") end else end)

-- `registerDaemonForClient`
unfoldable pub add_daemon : Option ClientEntry → ℕ → String → String → ℕ → World → World × Bool
add_daemon none a h id ws w = (w, false)
add_daemon (some ce) a h id ws w = (
  listen ws (daemon_close h id) (
      listen ce.client (forward_to ws) (
        listen ws (forward_to ce.client) (
          send ws (paired ce.psk_required) (
            send ce.client (paired ce.psk_required)
              (put_clients a (set id (record ce { daemon = some ws }) (w.objects a).clients) w))))),
  true,
)

unfoldable pub find_client : Option ℕ → String → String → ℕ → World → World × Bool
find_client none h id ws w = (w, false)
find_client (some a) h id ws w = add_daemon (get id (w.objects a).clients) a h id ws w

unfoldable pub register_daemon_for_client : String → String → ℕ → World → World × Bool
register_daemon_for_client h id ws w = find_client (get h w.entries) h id ws w

abbrev pub typed : String → Fields
typed type = field "type" (str type) end

-- `entry.clients.get(msg.client_id)`: the keys are strings.
unfoldable pub client_at : Option Json → List (String × ClientEntry) → Option (String × ClientEntry)
client_at (some (str id)) cs = elim (get id cs) [ none ↦ none | some ce ↦ some (id, ce) ]
client_at _ cs = none

abbrev pub reason_json : Option Json → Json
reason_json none = null
reason_json (some j) = j

unfoldable pub reject : Option (String × ClientEntry) → Option Json → ℕ → World → World
reject none reason a w = w
reject (some (id, ce)) reason a w = put_clients a (delete id (w.objects a).clients) (
    close ce.client
      (send ce.client (field "type" (str "error") (field "message" (reason_json reason) end)) w))

unfoldable pub hold : Option (String × ClientEntry) → World → World
hold none w = w
hold (some (id, ce)) w = send ce.client (typed "waiting_for_approval") w

abbrev pub is_type : String → Option Json → Bool
is_type type (some (str s)) = str_eq s type
is_type type _ = false

-- A parsed text of the primary: `msg.type` of what is no object is undefined, or throws.
unfoldable pub primary_object : Fields → ℕ → World → World
primary_object o a w =
    if is_type "reject_client" (prop "type" o)
      && (truthy (prop "client_id" o) && truthy (prop "reason" o))
    then reject (client_at (prop "client_id" o) (w.objects a).clients) (prop "reason" o) a w
    else (if is_type "hold_client" (prop "type" o) && truthy (prop "client_id" o)
        then hold (client_at (prop "client_id" o) (w.objects a).clients) w
        else w)

unfoldable pub primary_text : Option Json → ℕ → World → World
primary_text (some (obj o)) a w = primary_object o a w
primary_text _ a w = w

-- What `message` carries.
pub data Data : Type 0 where
  text : String → Data
  binary : Bytes → Data

-- A listener on `message` at socket `s`; `parse` is `JSON.parse`.
unfoldable pub on_message : (String → Option Json) → ℕ → Data → Listener → World → World
on_message parse s (text t) (primary_message a) w = primary_text (parse t) a w
on_message parse s (binary b) (forward_to t) w =
    if w.is_open t then record w { out = w.out ++ (forwarded s t b ∷ []) } else w
on_message parse s d _ w = w

-- The daemon socket of a client is told, if it asks for that, and closed.
unfoldable pub close_daemon : Option ℕ → World → World
close_daemon none w = w
close_daemon (some d) w = close d w

unfoldable pub leave_daemon : Option ℕ → World → World
leave_daemon none w = w
leave_daemon (some d) w = close d (send d (typed "peer_disconnected") w)

-- The close of the primary.
unfoldable pub disconnect_each : List (String × ClientEntry) → World → World
disconnect_each [] w = w
disconnect_each ((id, ce) ∷ cs) w =
    disconnect_each cs
      (close_daemon ce.daemon (close ce.client (send ce.client (typed "peer_disconnected") w)))

unfoldable pub tear_down : Option ℕ → String → ℕ → World → World
tear_down none h s w = w
tear_down (some a) h s w =
    if (w.objects a).primary == s
    then (let v = disconnect_each (w.objects a).clients w in
        record v { entries = delete h v.entries })
    else w

-- The close of a client.
unfoldable pub client_gone : Option ClientEntry → ℕ → String → ℕ → World → World
client_gone none a id s w = w
client_gone (some ce) a id s w =
    if ce.client == s
    then (let v = leave_daemon ce.daemon w in
        send (v.objects a).primary
          (field "type" (str "client_disconnected") (field "client_id" (str id) end))
          (put_clients a (delete id (v.objects a).clients) v))
    else w

unfoldable pub client_left : Option ℕ → String → ℕ → World → World
client_left none id s w = w
client_left (some a) id s w = client_gone (get id (w.objects a).clients) a id s w

abbrev pub is_socket : ℕ → Option ℕ → Bool
is_socket s none = false
is_socket s (some d) = d == s

-- The close of the daemon socket of a client.
unfoldable pub daemon_gone : Option ClientEntry → ℕ → String → ℕ → World → World
daemon_gone none a id s w = w
daemon_gone (some ce) a id s w =
    if is_socket s ce.daemon
    then put_clients a (set id (record ce { daemon = none }) (w.objects a).clients)
        (send ce.client (typed "peer_disconnected") w)
    else w

unfoldable pub daemon_left : Option ℕ → String → ℕ → World → World
daemon_left none id s w = w
daemon_left (some a) id s w = daemon_gone (get id (w.objects a).clients) a id s w

-- A listener on `close` at socket `s`.
unfoldable pub on_close : ℕ → Listener → World → World
on_close s (primary_close h) w = tear_down (get h w.entries) h s w
on_close s (client_close h id) w = client_left (get h w.entries) id s w
on_close s (daemon_close h id) w = daemon_left (get h w.entries) id s w
on_close s _ w = w

-- An event runs the listeners of its socket in the order of their registration.
unfoldable pub each_listener : (Listener → World → World) → ℕ → List (ℕ × Listener) → World → World
each_listener f s [] w = w
each_listener f s ((i, l) ∷ ls) w = each_listener f s ls (if i == s then f l w else w)

-- The calls of the registry, the events of its sockets, and a socket that begins to close.
pub data Event : Type 0 where
  daemon_came : String → ℕ → Option String → Event
  client_came : String → ℕ → Option String → Option Meta → String → Event
  daemon_for : String → String → ℕ → Event
  message : ℕ → Data → Event
  closing : ℕ → Event
  socket_closed : ℕ → Event

module _ (parse : String → Option Json) where
  unfoldable pub step : Event → World → World
  step (daemon_came h ws label) w = (register_daemon h ws label w).0
  step (client_came h ws token meta id) w = (register_client h ws token meta id w).0
  step (daemon_for h id ws) w = (register_daemon_for_client h id ws w).0
  step (message s d) w = each_listener (on_message parse s d) s w.listeners w
  step (closing s) w = leave s w
  step (socket_closed s) w = each_listener (on_close s) s w.listeners (leave s w)

  unfoldable pub run : List Event → World → World
  run [] w = w
  run (e ∷ es) w = run es (step e w)

-- The registry when it is made; every socket is open until it closes.
abbrev pub fresh : World
fresh = record {
  entries = [];
  objects = λ a. record { primary = 0; clients = []; label = none };
  next = 0;
  listeners = [];
  is_open = λ s. true;
  out = [];
}
