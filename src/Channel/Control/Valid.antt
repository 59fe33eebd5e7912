-- ===== src/Channel/Control/Valid.antt =====
-- What the parser of src/relay/channel-control.ts accepts.
use pty_relay.Base.{
  ℕ, String, Option, none, some, List, [], ◌≡◌, refl, subst, ◌≢◌, inl, inr, str_eq, eq_iff,
  Bool-cases, Option-cases, arith, ◌∷◌, if◌then◌else◌,
}
use pty_relay.Js.{
  Number, nat, Json, null, num, str, arr, obj, Items, item, Fields, end, field, prop, int_between,
}
use pty_relay.Channel.Control.{
  Optional, absent, given, ControlMessage, channel_open_pty, channel_open_exec, channel_open_ack,
  channel_open_error, channel_close, keepalive,
}
use pty_relay.Channel.Control.Parse.{
  control, app, InnerResult, ok, shape, need, valid_id, entries, as_string, nonempty, strings,
  parse_argv, parse_env, parse_cwd, parse_pty, parse_exec, parse_mode, parse_channel_open,
  parse_channel_open_ack, string_or_empty, parse_channel_open_error, parse_channel_close, one_of,
  parse_channel_exit, wrap_control, parse_typed, parse_object,
}
use pty_relay.Channel.Control.RoundTrip.{IsId, IsWellFormed, IsPlainEnv}

need-ok :
    {A : Type 0} (o : Option A) (detail : String) (k : A → InnerResult) (m : ControlMessage)
    → need o detail k ≡ ok m
    → (a : A) × (o ≡ some a) × (k a ≡ ok m)
unfolding need
need-ok none detail k m e = cc
need-ok (some a) detail k m e = (a, refl, e)

IsId-valid_id : (v : Option Json) (id : ℕ) → valid_id v ≡ some id → IsId id
unfolding valid_id int_between
IsId-valid_id (some (num (nat n))) id e = ground arith
IsId-valid_id _ id e = cc

wrap_control-control :
    (r : InnerResult) (m : ControlMessage) → wrap_control r ≡ control m → r ≡ ok m
unfolding wrap_control
wrap_control-control (ok m') m e = cc
wrap_control-control (shape detail) m e = cc

ok-injective : (m n : ControlMessage) → ok m ≡ ok n → m ≡ n
ok-injective m n e = cc

-- A message is well formed if it is equal to one that is.
IsWellFormed-as : (m n : ControlMessage) → ok m ≡ ok n → IsWellFormed m → IsWellFormed n
IsWellFormed-as m n e h = subst IsWellFormed (ok-injective m n e) h

one_of-IsWellFormed :
    (id : ℕ) (c : Option Number) (s : Option String) (m : ControlMessage)
    → IsId id
    → one_of id c s ≡ ok m
    → IsWellFormed m
unfolding one_of
one_of-IsWellFormed id none none m h e = cc
one_of-IsWellFormed id none (some s) m h e = IsWellFormed-as _ m e (h, tt)
one_of-IsWellFormed id (some c) none m h e = IsWellFormed-as _ m e (h, tt)
one_of-IsWellFormed id (some c) (some s) m h e = cc

exit-IsWellFormed : (o : Fields) (m : ControlMessage) → parse_channel_exit o ≡ ok m → IsWellFormed m
unfolding parse_channel_exit
exit-IsWellFormed o m e =
    let (id, found, e1) = need-ok _ _ _ m e in
    let (code, _, e2) = need-ok _ _ _ m e1 in
    let (signal, _, e3) = need-ok _ _ _ m e2 in
    one_of-IsWellFormed id code signal m (IsId-valid_id _ id found) e3

close-IsWellFormed :
    (o : Fields) (m : ControlMessage) → parse_channel_close o ≡ ok m → IsWellFormed m
unfolding parse_channel_close
close-IsWellFormed o m e =
    let (id, found, e1) = need-ok _ _ _ m e in
    let (reason, _, e2) = need-ok _ _ _ m e1 in
    IsWellFormed-as (channel_close id reason) m e2 (IsId-valid_id _ id found)

open_error-IsWellFormed :
    (o : Fields) (m : ControlMessage) → parse_channel_open_error o ≡ ok m → IsWellFormed m
unfolding parse_channel_open_error
open_error-IsWellFormed o m e =
    let (id, found, e1) = need-ok _ _ _ m e in
    let (code, _, e2) = need-ok _ _ _ m e1 in
    IsWellFormed-as (channel_open_error id code (string_or_empty (as_string (prop "message" o)))) m
      e2 (IsId-valid_id _ id found)

open_ack-IsWellFormed :
    (o : Fields) (m : ControlMessage) → parse_channel_open_ack o ≡ ok m → IsWellFormed m
unfolding parse_channel_open_ack
open_ack-IsWellFormed o m e =
    let (id, found, e1) = need-ok _ _ _ m e in
    IsWellFormed-as (channel_open_ack id) m e1 (IsId-valid_id _ id found)

nonempty-ne : (o : Option String) (s : String) → nonempty o ≡ some s → s ≢ ""
unfolding nonempty
nonempty-ne none s e = cc
nonempty-ne (some t) s e = ground (arith, eq_iff t "", eq_iff s "")

pty-IsWellFormed :
    (id : ℕ) (o : Fields) (m : ControlMessage) → IsId id → parse_pty id o ≡ ok m → IsWellFormed m
unfolding parse_pty
pty-IsWellFormed id o m h e =
    let (session, found, e1) = need-ok _ _ _ m e in
    IsWellFormed-as (channel_open_pty id session _ _) m e1 (h, nonempty-ne _ session found)

strings-cons : (x : Json) (xs : Items) (ss : List String) → strings (item x xs) ≡ some ss → ss ≢ []
unfolding strings
strings-cons (str s) xs ss e = λ n. ground arith
strings-cons _ xs ss e = cc

parse_argv-ok :
    (v : Option Json) (k : List String → InnerResult) (m : ControlMessage)
    → parse_argv v k ≡ ok m
    → (argv : List String) × (argv ≢ []) × (k argv ≡ ok m)
unfolding parse_argv
parse_argv-ok (some (arr (item x xs))) k m e =
    let (argv, found, e1) = need-ok _ _ _ m e in (argv, strings-cons x xs argv found, e1)
parse_argv-ok _ k m e = cc

kept-IsPlainEnv :
    (k v : String) (es : List (String × String))
    → IsPlainEnv (given es)
    → IsPlainEnv (given (if str_eq k "__proto__" then es else (k, v) ∷ es))
kept-IsPlainEnv k v es h = elim (Bool-cases (str_eq k "__proto__")) [
  | inl same ↦ rw same h
  | inr other ↦ rw other (λ e. ground (arith, e, eq_iff k "__proto__"), h)
]

entries-IsPlainEnv :
    (fs : Fields) (es : List (String × String)) → entries fs ≡ some es → IsPlainEnv (given es)
unfolding entries
entries-IsPlainEnv end es e =
    let same : [] ≡ es = ground (arith, e) in subst (λ l. IsPlainEnv (given l)) same tt
entries-IsPlainEnv (field k (str v) fs) es e = by (entries fs) e (entries-IsPlainEnv fs)
  where
    by :
        (o : Option (List (String × String)))
        → elim o [
          | none ↦ none
          | some rest ↦ some (if str_eq k "__proto__" then rest else (k, v) ∷ rest)
        ]
          ≡ some es
        → ((rest : List (String × String)) → o ≡ some rest → IsPlainEnv (given rest))
        → IsPlainEnv (given es)
    by none e later = absurd (ground arith)
    by (some rest) e later =
        let same : (if str_eq k "__proto__" then rest else (k, v) ∷ rest) ≡ es =
          ground (arith, e) in
        subst (λ l. IsPlainEnv (given l)) same (kept-IsPlainEnv k v rest (later rest refl))
entries-IsPlainEnv (field k _ fs) es e = cc

parse_env-ok :
    (v : Option Json) (k : Optional (List (String × String)) → InnerResult) (m : ControlMessage)
    → parse_env v k ≡ ok m
    → (env : Optional (List (String × String))) × (k env ≡ ok m) × IsPlainEnv env
unfolding parse_env
parse_env-ok none k m e = (absent, e, tt)
parse_env-ok (some null) k m e = (Optional.null, e, tt)
parse_env-ok (some (obj fs)) k m e =
    let (es, found, e1) = need-ok _ _ _ m e in (given es, e1, entries-IsPlainEnv fs es found)
parse_env-ok _ k m e = cc

parse_cwd-ok :
    (v : Option Json) (k : Optional String → InnerResult) (m : ControlMessage)
    → parse_cwd v k ≡ ok m
    → (cwd : Optional String) × (k cwd ≡ ok m)
unfolding parse_cwd
parse_cwd-ok none k m e = (absent, e)
parse_cwd-ok (some null) k m e = (Optional.null, e)
parse_cwd-ok (some (str s)) k m e = (given s, e)
parse_cwd-ok _ k m e = cc

exec-IsWellFormed :
    (id : ℕ) (o : Fields) (m : ControlMessage) → IsId id → parse_exec id o ≡ ok m → IsWellFormed m
unfolding parse_exec
exec-IsWellFormed id o m h e =
    let (argv, nonempty, e1) = parse_argv-ok _ _ m e in
    let (env, e2, plain) = parse_env-ok _ _ m e1 in
    let (cwd, e3) = parse_cwd-ok _ _ m e2 in
    IsWellFormed-as (channel_open_exec id argv env cwd) m e3 (h, nonempty, plain)

mode-IsWellFormed :
    (mode : Option String) (id : ℕ) (o : Fields) (m : ControlMessage)
    → IsId id
    → parse_mode mode id o ≡ ok m
    → IsWellFormed m
unfolding parse_mode
mode-IsWellFormed none id o m h e = cc
mode-IsWellFormed (some mode) id o m h e = elim (Bool-cases (str_eq mode "pty")) [
  | inl pty ↦ pty-IsWellFormed id o m h (rw pty at e)
  | inr other ↦ elim (Bool-cases (str_eq mode "exec")) [
    | inl exec ↦ exec-IsWellFormed id o m h (rw (other, exec) at e)
    | inr odd ↦ cc
  ]
]

open-IsWellFormed : (o : Fields) (m : ControlMessage) → parse_channel_open o ≡ ok m → IsWellFormed m
unfolding parse_channel_open
open-IsWellFormed o m e =
    let (id, found, e1) = need-ok _ _ _ m e in
    mode-IsWellFormed _ id o m (IsId-valid_id _ id found) e1

IsWellFormed-control :
    (m n : ControlMessage) → control m ≡ control n → IsWellFormed m → IsWellFormed n
IsWellFormed-control m n e = IsWellFormed-as m n (cc)

app-ne-control : (type : String) (o : Fields) (m : ControlMessage) → ¬ (app type o ≡ control m)
app-ne-control type o m e = cc

typed-IsWellFormed :
    (type : String) (o : Fields) (m : ControlMessage)
    → parse_typed type o ≡ control m
    → IsWellFormed m
unfolding parse_typed
typed-IsWellFormed type o m e = elim (Bool-cases (str_eq type "channel_open")) [
  | inl h0 ↦ open-IsWellFormed o m (wrap_control-control _ m (rw (h0, parse_typed) at e))
  | inr h0 ↦ elim (Bool-cases (str_eq type "channel_open_ack")) [
    | inl h1 ↦ open_ack-IsWellFormed o m (wrap_control-control _ m (rw (h0, h1, parse_typed) at e))
    | inr h1 ↦ elim (Bool-cases (str_eq type "channel_open_error")) [
      | inl h2 ↦
          open_error-IsWellFormed o m (wrap_control-control _ m (rw (h0, h1, h2, parse_typed) at e))
      | inr h2 ↦ elim (Bool-cases (str_eq type "channel_close")) [
        | inl h3 ↦
            close-IsWellFormed o m
              (wrap_control-control _ m (rw (h0, h1, h2, h3, parse_typed) at e))
        | inr h3 ↦ elim (Bool-cases (str_eq type "channel_exit")) [
          | inl h4 ↦
              exit-IsWellFormed o m
                (wrap_control-control _ m (rw (h0, h1, h2, h3, h4, parse_typed) at e))
          | inr h4 ↦ elim (Bool-cases (str_eq type "keepalive")) [
            | inl h5 ↦
                IsWellFormed-control keepalive m (rw (h0, h1, h2, h3, h4, h5, parse_typed) at e) tt
            | inr h5 ↦
                absurd (app-ne-control type o m (rw (h0, h1, h2, h3, h4, h5, parse_typed) at e))
          ]
        ]
      ]
    ]
  ]
]

-- A control message that the parser accepts is well-formed: its id is from 1 to 2^32 - 1, a session
-- or argv is not empty, no name of an environment is __proto__, and a channel_exit has exactly one
-- of code and signal.
pub parse_object-IsWellFormed :
    (o : Fields) (m : ControlMessage) → parse_object o ≡ control m → IsWellFormed m
unfolding parse_object
parse_object-IsWellFormed o m e = elim (Option-cases (as_string (prop "type" o))) [
  | inl missing ↦ let failed' = rw (missing, parse_object) at e in cc
  | inr (type, found) ↦ typed-IsWellFormed type o m (rw (found, parse_object) at e)
]
