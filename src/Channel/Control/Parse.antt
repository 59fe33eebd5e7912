-- ===== src/Channel/Control/Parse.antt =====
-- `parseControlMessage` and its helpers.
use pty_relay.Base.{ℕ, String, Option, none, some, List, [], ◌∷◌, str_eq, Bytes, if◌then◌else◌}
use pty_relay.Js.{
  Number, nat, Json, null, num, str, arr, obj, Items, nil, item, Fields, end, field, prop,
  int_between,
}
use pty_relay.Channel.Control.{
  Optional, OpenErrorCode, mode_not_enabled, argv_not_allowed, session_not_found, spawn_failed,
  id_collision, channel_limit, CloseReason, client_detach, operator_close, peer_lost,
  protocol_error, exit, ControlMessage, channel_open_pty, channel_open_exec, channel_open_ack,
  channel_open_error, channel_close, channel_exit, keepalive,
}

-- `ParseError`; `unknown_control_type` is never produced.
pub data ParseError : Type 0 where
  control_frame_decode control_frame_json control_frame_shape : ParseError

-- `InnerResult`: a message, or the detail of a `control_frame_shape`.
pub data InnerResult : Type 0 where
  ok : ControlMessage → InnerResult
  shape : String → InnerResult

-- `ParseResult`
pub data ParseResult : Type 0 where
  control : ControlMessage → ParseResult
  app : String → Fields → ParseResult
  failed : ParseError → String → ParseResult

-- `need o detail k`: go on with the value, or answer `shape(detail)`.
unfoldable pub need : {A : Type 0} → Option A → String → (A → InnerResult) → InnerResult
need none detail k = shape detail
need (some a) detail k = k a

-- `isValidId`
unfoldable pub valid_id : Option Json → Option ℕ
valid_id (some (num (nat n))) = if int_between 1 0xffffffff (nat n) then some n else none
valid_id _ = none

-- `typeof v === "string"`
unfoldable pub as_string : Option Json → Option String
as_string (some (str s)) = some s
as_string _ = none

-- `typeof v === "number"`
unfoldable pub as_number : Option Json → Option Number
as_number (some (num n)) = some n
as_number _ = none

-- A string that is not empty.
unfoldable pub nonempty : Option String → Option String
nonempty none = none
nonempty (some s) = if str_eq s "" then none else some s

-- The elements of an array, if each is a string.
unfoldable pub strings : Items → Option (List String)
strings nil = some []
strings (item (str s) xs) = elim (strings xs) [ none ↦ none | some ss ↦ some (s ∷ ss) ]
strings (item _ xs) = none

-- The properties of an object, if each is a string; `env["__proto__"] = v` sets none.
unfoldable pub entries : Fields → Option (List (String × String))
entries end = some []
entries (field k (str s) fs) = elim (entries fs) [
  | none ↦ none
  | some es ↦ some (if str_eq k "__proto__" then es else (k, s) ∷ es)
]
entries (field k _ fs) = none

-- `argv`: the detail says whether the array or an element is wrong.
unfoldable pub parse_argv : Option Json → (List String → InnerResult) → InnerResult
parse_argv (some (arr (item x xs))) k =
    need (strings (item x xs)) "channel_open.argv (non-string)" k
parse_argv _ k = shape "channel_open.argv"

unfoldable pub parse_env :
    Option Json → (Optional (List (String × String)) → InnerResult) → InnerResult
parse_env none k = k Optional.absent
parse_env (some null) k = k Optional.null
parse_env (some (obj fs)) k =
    need (entries fs) "channel_open.env value" (λ es. k (Optional.given es))
parse_env (some _) k = shape "channel_open.env"

unfoldable pub parse_cwd : Option Json → (Optional String → InnerResult) → InnerResult
parse_cwd none k = k Optional.absent
parse_cwd (some null) k = k Optional.null
parse_cwd (some (str s)) k = k (Optional.given s)
parse_cwd (some _) k = shape "channel_open.cwd"

unfoldable pub parse_pty : ℕ → Fields → InnerResult
parse_pty id o = need (nonempty (as_string (prop "session" o))) "channel_open.session" λ session.
    ok (channel_open_pty id session (as_number (prop "cols" o)) (as_number (prop "rows" o)))

unfoldable pub parse_exec : ℕ → Fields → InnerResult
parse_exec id o = parse_argv (prop "argv" o) λ argv.
    parse_env (prop "env" o)
      λ env. parse_cwd (prop "cwd" o) λ cwd. ok (channel_open_exec id argv env cwd)

-- The `mode` property; another value than the two strings is `shape("channel_open.mode")`.
unfoldable pub parse_mode : Option String → ℕ → Fields → InnerResult
parse_mode none id o = shape "channel_open.mode"
parse_mode (some mode) id o =
    if str_eq mode "pty"
    then parse_pty id o
    else (if str_eq mode "exec" then parse_exec id o else shape "channel_open.mode")

unfoldable pub parse_channel_open : Fields → InnerResult
parse_channel_open o =
    need (valid_id (prop "id" o)) "channel_open.id"
      λ id. parse_mode (as_string (prop "mode" o)) id o

unfoldable pub parse_channel_open_ack : Fields → InnerResult
parse_channel_open_ack o =
    need (valid_id (prop "id" o)) "channel_open_ack.id" λ id. ok (channel_open_ack id)

unfoldable pub open_error_code : Option String → Option OpenErrorCode
open_error_code none = none
open_error_code (some s) =
    if str_eq s "mode_not_enabled"
    then some mode_not_enabled
    else (if str_eq s "argv_not_allowed"
        then some argv_not_allowed
        else (if str_eq s "session_not_found"
            then some session_not_found
            else (if str_eq s "spawn_failed"
                then some spawn_failed
                else (if str_eq s "id_collision"
                    then some id_collision
                    else (if str_eq s "channel_limit" then some channel_limit else none)))))

-- A text, or "" for anything else.
unfoldable pub string_or_empty : Option String → String
string_or_empty none = ""
string_or_empty (some s) = s

unfoldable pub parse_channel_open_error : Fields → InnerResult
parse_channel_open_error o = need (valid_id (prop "id" o)) "channel_open_error.id" λ id.
    need (open_error_code (as_string (prop "code" o))) "channel_open_error.code"
      λ code. ok (channel_open_error id code (string_or_empty (as_string (prop "message" o))))

unfoldable pub close_reason : Option String → Option CloseReason
close_reason none = none
close_reason (some s) =
    if str_eq s "client_detach"
    then some client_detach
    else (if str_eq s "operator_close"
        then some operator_close
        else (if str_eq s "peer_lost"
            then some peer_lost
            else (if str_eq s "protocol_error"
                then some protocol_error
                else (if str_eq s "exit" then some exit else none))))

unfoldable pub parse_channel_close : Fields → InnerResult
parse_channel_close o = need (valid_id (prop "id" o)) "channel_close.id" λ id.
    need (close_reason (as_string (prop "reason" o))) "channel_close.reason"
      λ reason. ok (channel_close id reason)

-- A number or null, and a text or null; anything else is `undefined`.
unfoldable pub number_or_null : Option Json → Option (Option Number)
number_or_null (some (num n)) = some (some n)
number_or_null (some null) = some none
number_or_null _ = none

unfoldable pub string_or_null : Option Json → Option (Option String)
string_or_null (some (str s)) = some (some s)
string_or_null (some null) = some none
string_or_null _ = none

-- Exactly one of the two must be set.
unfoldable pub one_of : ℕ → Option Number → Option String → InnerResult
one_of id none none = shape "channel_exit must set exactly one of exit_code/signal"
one_of id (some c) (some s) = shape "channel_exit must set exactly one of exit_code/signal"
one_of id (some c) none = ok (channel_exit id (some c) none)
one_of id none (some s) = ok (channel_exit id none (some s))

unfoldable pub parse_channel_exit : Fields → InnerResult
parse_channel_exit o = need (valid_id (prop "id" o)) "channel_exit.id" λ id.
    need (number_or_null (prop "exit_code" o)) "channel_exit.exit_code/signal" λ code.
      need (string_or_null (prop "signal" o)) "channel_exit.exit_code/signal"
        λ signal. one_of id code signal

-- `wrapControl`
unfoldable pub wrap_control : InnerResult → ParseResult
wrap_control (ok msg) = control msg
wrap_control (shape detail) = failed control_frame_shape detail

-- The `switch (o.type)`.
unfoldable pub parse_typed : String → Fields → ParseResult
parse_typed type o =
    if str_eq type "channel_open"
    then wrap_control (parse_channel_open o)
    else (if str_eq type "channel_open_ack"
        then wrap_control (parse_channel_open_ack o)
        else (if str_eq type "channel_open_error"
            then wrap_control (parse_channel_open_error o)
            else (if str_eq type "channel_close"
                then wrap_control (parse_channel_close o)
                else (if str_eq type "channel_exit"
                    then wrap_control (parse_channel_exit o)
                    else (if str_eq type "keepalive" then control keepalive else app type o)))))

unfoldable pub parse_object : Fields → ParseResult
parse_object o = elim (as_string (prop "type" o)) [
  | none ↦ failed control_frame_shape "missing type"
  | some type ↦ parse_typed type o
]

unfoldable pub parse_json : Json → ParseResult
parse_json (obj o) = parse_object o
parse_json _ = failed control_frame_shape "not an object"

-- The platform: the fatal UTF-8 `TextDecoder` and `JSON.parse`, `none` when they throw.
pub record Decoders : Type 0 where
  pub utf8_decode : Bytes → Option String
  pub json_parse : String → Option Json

unfoldable pub parse_control_message : Decoders → Bytes → ParseResult
parse_control_message d payload = elim (d.utf8_decode payload) [
  | none ↦ failed control_frame_decode ""
  | some text ↦ elim (d.json_parse text) [
    | none ↦ failed control_frame_json ""
    | some json ↦ parse_json json
  ]
]
