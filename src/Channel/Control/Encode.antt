-- ===== src/Channel/Control/Encode.antt =====
-- `encodeControlMessage`: the object that `JSON.stringify` is handed, its keys in order.
use pty_relay.Base.{ℕ, String, Option, none, some, List, [], ◌∷◌}
use pty_relay.Js.{Number, nat, Json, null, num, str, arr, obj, Items, nil, item, Fields, end, field}
use pty_relay.Channel.Control.{
  Optional, absent, given, code_name, reason_name, ControlMessage, channel_open_pty,
  channel_open_exec, channel_open_ack, channel_open_error, channel_close, channel_exit, keepalive,
}

-- A property that is left out when it is `undefined`.
abbrev pub maybe : String → Option Number → Fields → Fields
maybe key none rest = rest
maybe key (some n) rest = field key (num n) rest

unfoldable pub items : List String → Items
items [] = nil
items (s ∷ ss) = item (str s) (items ss)

unfoldable pub env_fields : List (String × String) → Fields
env_fields [] = end
env_fields ((k, v) ∷ es) = field k (str v) (env_fields es)

abbrev pub env_prop : Optional (List (String × String)) → Fields → Fields
env_prop absent rest = rest
env_prop Optional.null rest = field "env" null rest
env_prop (given es) rest = field "env" (obj (env_fields es)) rest

abbrev pub cwd_prop : Optional String → Fields → Fields
cwd_prop absent rest = rest
cwd_prop Optional.null rest = field "cwd" null rest
cwd_prop (given s) rest = field "cwd" (str s) rest

abbrev pub number_json : Option Number → Json
number_json none = null
number_json (some n) = num n

abbrev pub string_json : Option String → Json
string_json none = null
string_json (some s) = str s

abbrev pub typed : String → ℕ → Fields → Fields
typed type id rest = field "type" (str type) (field "id" (num (nat id)) rest)

unfoldable pub to_fields : ControlMessage → Fields
to_fields (channel_open_pty id session cols rows) = typed "channel_open" id (
    field "mode" (str "pty")
      (field "session" (str session) (maybe "cols" cols (maybe "rows" rows end))))
to_fields (channel_open_exec id argv env cwd) =
    typed "channel_open" id (
      field "mode" (str "exec") (field "argv" (arr (items argv)) (env_prop env (cwd_prop cwd end))))
to_fields (channel_open_ack id) = typed "channel_open_ack" id end
to_fields (channel_open_error id code message) =
    typed "channel_open_error" id
      (field "code" (str (code_name code)) (field "message" (str message) end))
to_fields (channel_close id reason) =
    typed "channel_close" id (field "reason" (str (reason_name reason)) end)
to_fields (channel_exit id code signal) =
    typed "channel_exit" id
      (field "exit_code" (number_json code) (field "signal" (string_json signal) end))
to_fields keepalive = field "type" (str "keepalive") end
