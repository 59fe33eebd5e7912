-- ===== src/Approval/Daemon.antt =====
-- src/commands/start.ts: whom the daemon lets in. What follows an `await` is a task of its own, and
-- the tasks go on in any order; other processes may write the stored tokens in between.
pub mod Authorized
pub mod Signal
pub mod Bounded
pub mod Keeping
use pty_relay.Base.{
  ℕ, zero, suc, ◌+◌, String, Bool, false, not, ◌&&◌, Option, none, some, List, [], ◌∷◌, ◌++◌, leb,
  length, str_eq, if◌then◌else◌,
}
use pty_relay.Base.Dict.{get, set, delete}
use pty_relay.Sanitize.{sanitize_remote_string}
use pty_relay.Approval.Tokens.{
  Status, active, revoked, pending, PendingMeta, ClientToken, is_pending, is_active, is_revoked,
  find_token_by_exact_id, change, revoked_now,
}

abbrev pub max_clients : ℕ
max_clients = 10

abbrev pub max_pending_clients : ℕ
max_pending_clients = 20

-- The rest of a call behind its `await`: a load of the tokens and what follows it, or a change of them
-- and what follows that.
pub data Task : Type 0 where
  load_for : String → String → Option PendingMeta → Task
  loaded_for : String → String → Option PendingMeta → List ClientToken → Task
  store_pending : String → String → Option PendingMeta → Task
  hold : String → String → Task
  expire : String → Task
  load_signal : Task
  loaded_signal : List ClientToken → Task
  set_label : String → String → Task

-- What the daemon sends to the relay, and the sessions that it opens and tears down.
pub data Output : Type 0 where
  reject_client : String → String → Output
  hold_client : String → Output
  opened : String → Option String → Output
  torn_down : String → Output

pub record State : Type 0 where
  -- the stored tokens, and every list of them that the daemon has read
  pub tokens : List ClientToken
  pub seen : List (List ClientToken)
  -- the token of a client's session, the token of a pending client, and the client of a token's timer
  pub sessions : List (String × Option String)
  pub waiting : List (String × String)
  pub timers : List (String × String)
  pub tasks : List Task
  pub drawn : ℕ
  pub out : List Output

abbrev pub emit : Output → State → State
emit o s = record s { out = s.out ++ (o ∷ []) }

abbrev pub defer : Task → State → State
defer t s = record s { tasks = s.tasks ++ (t ∷ []) }

-- `openClientConnection(clientId, tokenId)`
abbrev pub open_client_connection : String → Option String → State → State
open_client_connection id token s =
    emit (opened id token) (record s { sessions = set id token s.sessions })

-- `teardownClient(clientId)`
unfoldable pub tear_down_by : Option (Option String) → String → State → State
tear_down_by none id s = s
tear_down_by (some token) id s = emit (torn_down id) (record s { sessions = delete id s.sessions })

unfoldable pub teardown_client : String → State → State
teardown_client id s = tear_down_by (get id s.sessions) id s

unfoldable pub teardown_each : List String → State → State
teardown_each [] s = s
teardown_each (id ∷ ids) s = teardown_each ids (teardown_client id s)

-- The key of the first entry with that token.
unfoldable pub client_of : String → List (String × String) → Option String
client_of token [] = none
client_of token ((id, t) ∷ ps) = if str_eq t token then some id else client_of token ps

-- `approveClient(tokenId)`
unfoldable pub approve_by : Option String → String → State → State
approve_by none token s = s
approve_by (some id) token s =
    open_client_connection id (some token)
      (record s { timers = delete token s.timers; waiting = delete id s.waiting })

unfoldable pub approve_client : String → State → State
approve_client token s = approve_by (client_of token s.waiting) token s

unfoldable pub approve_each : List String → State → State
approve_each [] s = s
approve_each (t ∷ ts) s = approve_each ts (approve_client t s)

abbrev pub has_status : (Status → Bool) → Option ClientToken → Bool
has_status p none = false
has_status p (some t) = p t.status

-- `toApprove` and `toRevoke`
unfoldable pub to_approve : List ClientToken → List (String × String) → List String
to_approve ts [] = []
to_approve ts ((id, token) ∷ ps) =
    let rest = to_approve ts ps in
    (if has_status is_active (find_token_by_exact_id token ts) then token ∷ rest else rest)

abbrev pub is_session_revoked : List ClientToken → Option String → Bool
is_session_revoked ts none = false
is_session_revoked ts (some token) =
    not (str_eq token "") && has_status is_revoked (find_token_by_exact_id token ts)

unfoldable pub to_revoke : List ClientToken → List (String × Option String) → List String
to_revoke ts [] = []
to_revoke ts ((id, token) ∷ ss) =
    let rest = to_revoke ts ss in (if is_session_revoked ts token then id ∷ rest else rest)

-- The SIGUSR1 handler behind its load.
unfoldable pub act_on : List ClientToken → State → State
act_on ts s =
    let s' = approve_each (to_approve ts s.waiting) s in teardown_each (to_revoke ts s'.sessions) s'

-- `token ? sanitizeRemoteString(…) : null`
abbrev pub sanitized : ℕ → Option String → Option String
sanitized max none = none
sanitized max (some s) = if str_eq s "" then none else some (sanitize_remote_string s max)

abbrev pub sanitized_meta : Option PendingMeta → Option PendingMeta
sanitized_meta none = none
sanitized_meta (some m) = some (record {
  remote_addr = sanitized 64 m.remote_addr;
  user_agent = sanitized 256 m.user_agent;
  origin = sanitized 128 m.origin;
})

abbrev pub new_pending : String → String → String → Option PendingMeta → ClientToken
new_pending id token now meta = record {
  id = token;
  label = none;
  status = pending;
  client_id = some id;
  created = now;
  revoked_at = none;
  pending_meta = sanitized_meta meta;
}

abbrev pub expired : String → ClientToken → ClientToken
expired now t = if is_pending t.status then revoked_now now t else t

abbrev pub label_over : Option String → String → ClientToken → ClientToken
label_over none text t = record t { label = some text }
label_over (some l) text t = t

abbrev pub labelled : String → ClientToken → ClientToken
labelled text t = label_over t.label text t

-- The change at startup: pending tokens of old connections.
unfoldable pub clear_stale : String → List ClientToken → List ClientToken
clear_stale now [] = []
clear_stale now (t ∷ ts) = expired now t ∷ clear_stale now ts

-- `${sanitizeRemoteString(label, 64) || "unknown"} (${sanitizeRemoteString(client, 32) || "client"})`
abbrev pub or_text : String → String → String
or_text s t = if str_eq s "" then t else s

abbrev pub join : String → String → String
join s t = Prim.Native.String.◌++◌ s t

abbrev pub hello_label : String → String → String
hello_label label client =
    join (or_text (sanitize_remote_string label 64) "unknown")
      (join " (" (join (or_text (sanitize_remote_string client 32) "client") ")"))

-- The task at index `i` and the others.
unfoldable pub take_task : ℕ → List Task → Option (Task × List Task)
take_task i [] = none
take_task zero (t ∷ ts) = some (t, ts)
take_task (suc i) (t ∷ ts) = elim (take_task i ts) [ none ↦ none | some p ↦ some (p.0, t ∷ p.1) ]

-- The timer of a pending client.
unfoldable pub timed_out : Option String → String → State → State
timed_out none token s = s
timed_out (some id) token s = defer (expire token) (
    emit (reject_client id "approval timed out")
      (record s { timers = delete token s.timers; waiting = delete id s.waiting }))

unfoldable pub forget_pending : Option String → String → State → State
forget_pending none id s = s
forget_pending (some token) id s = record s {
  timers = delete token s.timers;
  waiting = delete id s.waiting;
}

unfoldable pub clear_timers :
    List (String × String) → List (String × String) → List (String × String)
clear_timers [] ts = ts
clear_timers ((id, token) ∷ ps) ts = clear_timers ps (delete token ts)

unfoldable pub labelled_by : Option (Option String) → String → State → State
labelled_by none text s = s
labelled_by (some none) text s = s
labelled_by (some (some token)) text s =
    if str_eq token "" then s else defer (set_label token text) s

-- `draw` are the random token ids.
module _ (auto_approve : Bool) (draw : ℕ → String) where
  -- The end of `onClientWaiting`.
  unfoldable pub queue_approval : String → Option PendingMeta → State → State
  queue_approval id meta s =
      defer (store_pending id (draw s.drawn) meta) (record s { drawn = s.drawn + 1 })

  unfoldable pub look_token : String → Option String → Option PendingMeta → State → State
  look_token id none meta s = queue_approval id meta s
  look_token id (some token) meta s =
      if str_eq token "" then queue_approval id meta s else defer (load_for id token meta) s

  -- `onClientWaiting` up to its first `await`
  unfoldable pub on_client_waiting : String → Option String → Option PendingMeta → State → State
  on_client_waiting id token meta s =
      if leb max_clients (length s.sessions)
      then emit (reject_client id "max clients reached") s
      else (if not auto_approve && leb max_pending_clients (length s.waiting)
          then emit (reject_client id "too many pending approvals") s
          else (if auto_approve
              then open_client_connection id none s
              else look_token id token meta s))

  unfoldable pub by_status : Status → String → String → Option PendingMeta → State → State
  by_status active id token meta s = open_client_connection id (some token) s
  by_status revoked id token meta s = emit (reject_client id "token revoked") s
  by_status pending id token meta s = queue_approval id meta s

  unfoldable pub with_token : Option ClientToken → String → Option PendingMeta → State → State
  with_token none id meta s = queue_approval id meta s
  with_token (some t) id meta s = by_status t.status id t.id meta s

  -- A task goes on, at the time `now`.
  unfoldable pub resume : Task → String → State → State
  resume (load_for id token meta) now s =
      defer (loaded_for id token meta s.tokens) (record s { seen = s.seen ++ (s.tokens ∷ []) })
  resume (loaded_for id token meta ts) now s =
      with_token (find_token_by_exact_id token ts) id meta s
  resume (store_pending id token meta) now s =
      defer (hold id token) (record s { tokens = s.tokens ++ (new_pending id token now meta ∷ []) })
  resume (hold id token) now s =
      emit (hold_client id)
        (record s { timers = set token id s.timers; waiting = set id token s.waiting })
  resume (expire token) now s = record s { tokens = change token (expired now) s.tokens }
  resume load_signal now s =
      defer (loaded_signal s.tokens) (record s { seen = s.seen ++ (s.tokens ∷ []) })
  resume (loaded_signal ts) now s = act_on ts s
  resume (set_label token text) now s = record s { tokens = change token (labelled text) s.tokens }

  unfoldable pub resume_taken : Option (Task × List Task) → String → State → State
  resume_taken none now s = s
  resume_taken (some (t, ts)) now s = resume t now (record s { tasks = ts })

abbrev pub keys : List (String × Option String) → List String
keys [] = []
keys ((id, t) ∷ ps) = id ∷ keys ps

-- What happens to the daemon. `written` is another process that saves its tokens.
pub data Event : Type 0 where
  client_waiting : String → Option String → Option PendingMeta → Event
  resumed : ℕ → String → Event
  timeout : String → Event
  client_disconnected : String → Event
  session_ended : String → Event
  hello : String → String → String → Event
  primary_closed : Event
  signal : Event
  written : List ClientToken → Event

module _ (auto_approve : Bool) (draw : ℕ → String) where
  unfoldable pub step : Event → State → State
  step (client_waiting id token meta) s = on_client_waiting auto_approve draw id token meta s
  step (resumed i now) s = resume_taken auto_approve draw (take_task i s.tasks) now s
  step (timeout token) s = timed_out (get token s.timers) token s
  step (client_disconnected id) s = teardown_client id (forget_pending (get id s.waiting) id s)
  step (session_ended id) s = teardown_client id s
  step (hello id label client) s = labelled_by (get id s.sessions) (hello_label label client) s
  step primary_closed s =
      let s' = teardown_each (keys s.sessions) s in
      record s' { timers = clear_timers s'.waiting s'.timers; waiting = [] }
  step signal s = if auto_approve then s else defer load_signal s
  step (written ts) s = record s { tokens = ts }

  unfoldable pub run : List Event → State → State
  run [] s = s
  run (e ∷ es) s = run es (step e s)

  -- The daemon when it starts with these stored tokens.
  abbrev pub start : String → List ClientToken → State
  start now ts = record {
    tokens = if auto_approve then ts else clear_stale now ts;
    seen = [];
    sessions = [];
    waiting = [];
    timers = [];
    tasks = [];
    drawn = 0;
    out = [];
  }
