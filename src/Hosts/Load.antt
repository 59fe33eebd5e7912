-- ===== src/Hosts/Load.antt =====
-- Reading and writing the stored hosts: parseHost, the loop of loadKnownHosts, and what persist writes.
use pty_relay.Base.{
  String, Bool, true, false, not, ◌&&◌, ◌||◌, Option, none, some, List, [], ◌∷◌, All, str_eq, ◌≡◌,
  refl, ◌∙◌, ap, if◌then◌else◌,
}
use pty_relay.Js.{Json, str, obj, arr, Items, nil, item, Fields, end, field, prop}
use pty_relay.Channel.Control.Parse.{as_string}
use pty_relay.Hosts.{KnownHost}

-- A text is truthy when it is not empty.
abbrev pub truthy : Option String → Bool
truthy none = false
truthy (some s) = not (str_eq s "")

unfoldable pub has_transport : KnownHost → Bool
has_transport h = truthy h.url || (truthy h.relay_url && truthy h.public_key) || truthy h.ssh_url

abbrev pub role_of : Option String → Option String
role_of none = none
role_of (some r) = if str_eq r "daemon" || str_eq r "client" then some r else none

-- `typeof o[key] === "string"`
unfoldable pub read : String → Fields → Option String
read key o = as_string (prop key o)

abbrev pub if_transport : Bool → KnownHost → Option KnownHost
if_transport true h = some h
if_transport false h = none

unfoldable pub with_label : Option String → Fields → Option KnownHost
with_label none o = none
with_label (some label) o =
    let h : KnownHost = record {
      label = label;
      url = read "url" o;
      relay_url = read "relayUrl" o;
      public_key = read "publicKey" o;
      role = role_of (read "role" o);
      ssh_url = read "sshUrl" o;
    } in
    if_transport (has_transport h) h

-- `parseHost(item)`: an array has no label.
unfoldable pub parse_host : Json → Option KnownHost
parse_host (obj o) = with_label (read "label" o) o
parse_host _ = none

abbrev pub push_if : Option KnownHost → List KnownHost → List KnownHost
push_if none hs = hs
push_if (some h) hs = h ∷ hs

-- The loop of `loadKnownHosts`, and what is not an array.
unfoldable pub parse_items : Items → List KnownHost
parse_items nil = []
parse_items (item v vs) = push_if (parse_host v) (parse_items vs)

unfoldable pub parse_hosts : Json → List KnownHost
parse_hosts (arr vs) = parse_items vs
parse_hosts _ = []

-- What `JSON.stringify` is handed: a property that is undefined is left out.
abbrev pub text_prop : String → Option String → Fields → Fields
text_prop key none rest = rest
text_prop key (some s) rest = field key (str s) rest

unfoldable pub host_json : KnownHost → Json
host_json h = obj (
    field "label" (str h.label) (
      text_prop "url" h.url (
        text_prop "relayUrl" h.relay_url (
          text_prop "publicKey" h.public_key
            (text_prop "role" h.role (text_prop "sshUrl" h.ssh_url end))))))

unfoldable pub host_items : List KnownHost → Items
host_items [] = nil
host_items (h ∷ hs) = item (host_json h) (host_items hs)

read-other :
    (k key : String) (o : Option String) (rest : Fields)
    → str_eq k key ≡ false
    → read key (text_prop k o rest) ≡ read key rest
unfolding read prop
read-other k key none rest h = refl
read-other k key (some s) rest h = rw h refl

read-same :
    (k : String) (o : Option String) (rest : Fields)
    → str_eq k k ≡ true
    → read k rest ≡ none
    → read k (text_prop k o rest) ≡ o
unfolding read prop as_string
read-same k none rest h e = e
read-same k (some s) rest h e = rw h refl

nothing : (key : String) → read key end ≡ none
unfolding read prop as_string
nothing key = refl

-- A host that the saves make: it has a transport, and its role is one of the two.
pub record IsStorable (h : KnownHost) : Type 0 where
  pub transport : has_transport h ≡ true
  pub role : role_of h.role ≡ h.role

module _ (url relay_url public_key role ssh_url : Option String) where
  abbrev tail : Fields
  tail = text_prop "url" url (
      text_prop "relayUrl" relay_url
        (text_prop "publicKey" public_key (text_prop "role" role (text_prop "sshUrl" ssh_url end))))

  read-tail :
      (read "url" tail ≡ url)
      × (read "relayUrl" tail ≡ relay_url)
      × (read "publicKey" tail ≡ public_key)
      × (read "role" tail ≡ role)
      × (read "sshUrl" tail ≡ ssh_url)
  read-tail = (
    read-same "url" url _ refl (
        read-other "relayUrl" "url" relay_url _ refl
        ∙ read-other "publicKey" "url" public_key _ refl
        ∙ read-other "role" "url" role _ refl
        ∙ read-other "sshUrl" "url" ssh_url _ refl
        ∙ nothing "url"),
    read-other "url" "relayUrl" url _ refl
        ∙ read-same "relayUrl" relay_url _ refl (
            read-other "publicKey" "relayUrl" public_key _ refl
            ∙ read-other "role" "relayUrl" role _ refl
            ∙ read-other "sshUrl" "relayUrl" ssh_url _ refl
            ∙ nothing "relayUrl"),
    read-other "url" "publicKey" url _ refl
        ∙ read-other "relayUrl" "publicKey" relay_url _ refl
        ∙ read-same "publicKey" public_key _ refl (
            read-other "role" "publicKey" role _ refl
            ∙ read-other "sshUrl" "publicKey" ssh_url _ refl
            ∙ nothing "publicKey"),
    read-other "url" "role" url _ refl
        ∙ read-other "relayUrl" "role" relay_url _ refl
        ∙ read-other "publicKey" "role" public_key _ refl
        ∙ read-same "role" role _ refl (read-other "sshUrl" "role" ssh_url _ refl ∙ nothing "role"),
    read-other "url" "sshUrl" url _ refl
        ∙ read-other "relayUrl" "sshUrl" relay_url _ refl
        ∙ read-other "publicKey" "sshUrl" public_key _ refl
        ∙ read-other "role" "sshUrl" role _ refl
        ∙ read-same "sshUrl" ssh_url _ refl (nothing "sshUrl"),
  )

-- The value of a record of what was read.
rebuilt :
    (o : Fields) (h : KnownHost)
    → (read "url" o ≡ h.url)
      × (read "relayUrl" o ≡ h.relay_url)
      × (read "publicKey" o ≡ h.public_key)
      × (read "role" o ≡ h.role)
      × (read "sshUrl" o ≡ h.ssh_url)
    → IsStorable h
    → with_label (some h.label) o ≡ some h
unfolding with_label has_transport
rebuilt o h (a, b, c, d, f) v = simp (a, b, c, d, f, v.role, v.transport)

parse_host-host_json : (h : KnownHost) → IsStorable h → parse_host (host_json h) ≡ some h
unfolding parse_host host_json read prop as_string
parse_host-host_json h v = rebuilt _ h (read-tail h.url h.relay_url h.public_key h.role h.ssh_url) v

-- Loading the JSON of hosts that have a transport and a known role gives these hosts, in order.
pub parse_hosts-host_items :
    (hs : List KnownHost) → All IsStorable hs → parse_hosts (arr (host_items hs)) ≡ hs
unfolding parse_hosts parse_items host_items
parse_hosts-host_items [] v = refl
parse_hosts-host_items (h ∷ hs) v =
    ap (λ o. push_if o (parse_items (host_items hs))) (parse_host-host_json h v.0)
    ∙ ap (λ l. h ∷ l) (parse_hosts-host_items hs v.1)
