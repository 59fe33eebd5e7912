-- ===== src/Channel/Control/RoundTrip.antt =====
-- Messages of src/relay/channel-control.ts that are encoded and parsed again.
use pty_relay.Base.{
  ℕ, ◌≤◌, String, Option, none, some, List, [], ◌∷◌, ◌≡◌, refl, ap, ◌≢◌, eq_iff, arith, All,
}
use pty_relay.Js.{Number, nat, num, str, arr, item, Fields, end, prop, int_between}
use pty_relay.Channel.Control.{
  Optional, absent, given, OpenErrorCode, CloseReason, ControlMessage, channel_open_pty,
  channel_open_exec, channel_open_ack, channel_open_error, channel_close, channel_exit, keepalive,
  code_name, reason_name,
}
use pty_relay.Channel.Control.Parse.{
  control, InnerResult, ok, need, valid_id, as_string, as_number, nonempty, strings, entries,
  parse_argv, parse_env, parse_cwd, parse_pty, parse_exec, parse_mode, parse_channel_open,
  parse_channel_open_ack, open_error_code, string_or_empty, parse_channel_open_error, close_reason,
  parse_channel_close, number_or_null, string_or_null, one_of, parse_channel_exit, wrap_control,
  parse_typed, parse_object,
}
use pty_relay.Channel.Control.Encode.{items, env_fields, to_fields, env_prop, cwd_prop}

abbrev pub IsId : ℕ → Type 0
IsId id = (1 ≤ id) × (id ≤ 4294967295)

abbrev pub ExactlyOne : Option Number → Option String → Type 0
ExactlyOne none none = ⊥
ExactlyOne (some c) (some s) = ⊥
ExactlyOne _ _ = Unit

-- The names of an environment are those of a plain object, which has no own property `__proto__`.
abbrev pub IsPlainEnv : Optional (List (String × String)) → Type 0
IsPlainEnv (given es) = All (λ (e : String × String). e.0 ≢ "__proto__") es
IsPlainEnv _ = Unit

-- What the types of the messages promise beyond their fields.
abbrev pub IsWellFormed : ControlMessage → Type 0
IsWellFormed (channel_open_pty id session cols rows) = IsId id × (session ≢ "")
IsWellFormed (channel_open_exec id argv env cwd) = IsId id × (argv ≢ []) × IsPlainEnv env
IsWellFormed (channel_open_ack id) = IsId id
IsWellFormed (channel_open_error id code message) = IsId id
IsWellFormed (channel_close id reason) = IsId id
IsWellFormed (channel_exit id code signal) = IsId id × ExactlyOne code signal
IsWellFormed keepalive = Unit

valid_id-IsId : (id : ℕ) → IsId id → valid_id (some (num (nat id))) ≡ some id
unfolding valid_id int_between
valid_id-IsId id h = ground arith

strings-items : (ss : List String) → strings (items ss) ≡ some ss
unfolding strings items
strings-items [] = refl
strings-items (s ∷ ss) = rw (strings-items ss)

entries-env_fields :
    (es : List (String × String)) → IsPlainEnv (given es) → entries (env_fields es) ≡ some es
unfolding entries env_fields
entries-env_fields [] h = refl
entries-env_fields ((k, v) ∷ es) h =
    rw (entries-env_fields es h.1) (ground (arith, h.0, eq_iff k "__proto__"))

nonempty-some : (s : String) → s ≢ "" → nonempty (some s) ≡ some s
unfolding nonempty
nonempty-some s h = ground (arith, eq_iff s "")

open_error_code-code_name : (c : OpenErrorCode) → open_error_code (some (code_name c)) ≡ some c
unfolding open_error_code
open_error_code-code_name OpenErrorCode.mode_not_enabled = refl
open_error_code-code_name _ = refl

close_reason-reason_name : (r : CloseReason) → close_reason (some (reason_name r)) ≡ some r
unfolding close_reason
close_reason-reason_name CloseReason.client_detach = refl
close_reason-reason_name _ = refl

parse_open_pty :
    (id : ℕ) (session : String) (cols rows : Option Number)
    → IsId id
    → session ≢ ""
    → parse_channel_open (to_fields (channel_open_pty id session cols rows))
      ≡ ok (channel_open_pty id session cols rows)
unfolding need parse_channel_open to_fields prop as_string parse_mode parse_pty as_number
parse_open_pty id session none none h k = rw (valid_id-IsId id h, nonempty-some session k)
parse_open_pty id session none (some r) h k = rw (valid_id-IsId id h, nonempty-some session k)
parse_open_pty id session (some c) none h k = rw (valid_id-IsId id h, nonempty-some session k)
parse_open_pty id session (some c) (some r) h k = rw (valid_id-IsId id h, nonempty-some session k)

prop-env_prop :
    (env : Optional (List (String × String))) (rest : Fields)
    → prop "cwd" (env_prop env rest) ≡ prop "cwd" rest
unfolding prop
prop-env_prop absent rest = refl
prop-env_prop _ rest = refl

parse_cwd-cwd_prop :
    (cwd : Optional String) (k : Optional String → InnerResult)
    → parse_cwd (prop "cwd" (cwd_prop cwd end)) k ≡ k cwd
unfolding parse_cwd prop
parse_cwd-cwd_prop absent k = refl
parse_cwd-cwd_prop _ k = refl

parse_env-env_prop :
    (env : Optional (List (String × String))) (cwd : Optional String)
    (k : Optional (List (String × String)) → InnerResult)
    → IsPlainEnv env
    → parse_env (prop "env" (env_prop env (cwd_prop cwd end))) k ≡ k env
unfolding need parse_env prop
parse_env-env_prop absent absent k h = refl
parse_env-env_prop absent _ k h = refl
parse_env-env_prop Optional.null cwd k h = refl
parse_env-env_prop (given es) cwd k h = rw (entries-env_fields es h)

strings-items_cons :
    (s : String) (ss : List String) → strings (item (str s) (items ss)) ≡ some (s ∷ ss)
unfolding items
strings-items_cons s ss = strings-items (s ∷ ss)

parse_argv-items :
    (argv : List String) (k : List String → InnerResult)
    → argv ≢ []
    → parse_argv (some (arr (items argv))) k ≡ k argv
parse_argv-items [] k h = absurd (h refl)
parse_argv-items (s ∷ ss) k h = unfold need parse_argv items in rw (strings-items_cons s ss)

parse_exec-fields :
    (id : ℕ) (argv : List String) (env : Optional (List (String × String))) (cwd : Optional String)
    (o : Fields)
    → argv ≢ []
    → IsPlainEnv env
    → prop "argv" o ≡ some (arr (items argv))
    → prop "env" o ≡ prop "env" (env_prop env (cwd_prop cwd end))
    → prop "cwd" o ≡ prop "cwd" (env_prop env (cwd_prop cwd end))
    → parse_exec id o ≡ ok (channel_open_exec id argv env cwd)
unfolding parse_exec
parse_exec-fields id argv env cwd o k plain e f g = rw (
  e,
  f,
  g,
  parse_argv-items argv _ k,
  parse_env-env_prop env cwd _ plain,
  prop-env_prop,
  parse_cwd-cwd_prop cwd,
)

parse_open_exec :
    (id : ℕ) (argv : List String) (env : Optional (List (String × String))) (cwd : Optional String)
    → IsId id
    → argv ≢ []
    → IsPlainEnv env
    → parse_channel_open (to_fields (channel_open_exec id argv env cwd))
      ≡ ok (channel_open_exec id argv env cwd)
unfolding need parse_channel_open to_fields prop as_string parse_mode
parse_open_exec id argv env cwd h k plain =
    rw (valid_id-IsId id h) (parse_exec-fields id argv env cwd _ k plain refl refl refl)

parse_exit :
    (id : ℕ) (code : Option Number) (signal : Option String)
    → IsId id
    → ExactlyOne code signal
    → parse_channel_exit (to_fields (channel_exit id code signal))
      ≡ ok (channel_exit id code signal)
unfolding need parse_channel_exit to_fields prop number_or_null string_or_null one_of
parse_exit id none none h k = absurd k
parse_exit id none (some s) h k = rw (valid_id-IsId id h)
parse_exit id (some c) none h k = rw (valid_id-IsId id h)
parse_exit id (some c) (some s) h k = absurd k

-- Parsing the object of a well-formed control message gives that message.
pub parse_object-to_fields :
    (m : ControlMessage) → IsWellFormed m → parse_object (to_fields m) ≡ control m
unfolding parse_object to_fields prop as_string parse_typed
parse_object-to_fields (channel_open_pty id session cols rows) (h, k) =
    unfold wrap_control in ap wrap_control (parse_open_pty id session cols rows h k)
parse_object-to_fields (channel_open_exec id argv env cwd) (h, k, plain) =
    unfold wrap_control in ap wrap_control (parse_open_exec id argv env cwd h k plain)
parse_object-to_fields (channel_open_ack id) h =
    unfold need parse_channel_open_ack wrap_control in rw (valid_id-IsId id h)
parse_object-to_fields (channel_open_error id code message) h =
    unfold need parse_channel_open_error wrap_control string_or_empty in
    rw (valid_id-IsId id h, open_error_code-code_name code)
parse_object-to_fields (channel_close id reason) h =
    unfold need parse_channel_close wrap_control in
    rw (valid_id-IsId id h, close_reason-reason_name reason)
parse_object-to_fields (channel_exit id code signal) (h, k) =
    unfold wrap_control in ap wrap_control (parse_exit id code signal h k)
parse_object-to_fields keepalive h = refl
