-- ===== src/Approval/Daemon/Authorized.antt =====
-- Whom a daemon with approval lets in.
use pty_relay.Base.{
  ℕ, zero, suc, leb, length, String, Bool, true, false, Option, none, some, List, [], ◌∷◌, ◌++◌,
  ◌≡◌, refl, sym, subst, ap, ◌∙◌, inl, All, All-append, All-map, Occurs, Occurs-append_left,
  Occurs-append_right, arith, str_eq, eq_iff, if◌then◌else◌, if-holds,
}
use pty_relay.Base.Dict.{set, delete, All-set, All-delete}
use pty_relay.Approval.Tokens.{
  Status, active, revoked, pending, PendingMeta, ClientToken, is_active, find,
  find_token_by_exact_id,
}
use pty_relay.Approval.Daemon.{
  max_clients, max_pending_clients, Task, load_for, loaded_for, store_pending, hold, expire,
  load_signal, loaded_signal, set_label, Output, reject_client, hold_client, opened, torn_down,
  State, emit, defer, open_client_connection, tear_down_by, teardown_client, teardown_each,
  client_of, approve_by, approve_client, approve_each, has_status, to_approve, act_on, take_task,
  timed_out, forget_pending, labelled_by, queue_approval, look_token, on_client_waiting, by_status,
  with_token, resume, resume_taken, keys, Event, client_waiting, resumed, timeout,
  client_disconnected, session_ended, hello, primary_closed, signal, written, step, run, start,
}

-- The token is active in the list.
abbrev pub IsActiveIn : List ClientToken → String → Type 0
IsActiveIn ts token = has_status is_active (find_token_by_exact_id token ts) ≡ true

-- A session needs a token that was active when the daemon read the stored tokens.
abbrev pub IsAuthorized : List (List ClientToken) → Option String → Type 0
IsAuthorized seen none = ⊥
IsAuthorized seen (some token) = (ts : List ClientToken) × (Occurs ts seen × IsActiveIn ts token)

abbrev pub Allows : List (List ClientToken) → Output → Type 0
Allows seen (opened id token) = IsAuthorized seen token
Allows seen _ = Unit

-- What a task still holds was read.
abbrev pub IsRead : List (List ClientToken) → Task → Type 0
IsRead seen (loaded_for id token meta ts) = Occurs ts seen
IsRead seen (loaded_signal ts) = Occurs ts seen
IsRead seen _ = Unit

abbrev pub IsSession : List (List ClientToken) → String × Option String → Type 0
IsSession seen p = IsAuthorized seen p.1

pub record Inv (s : State) : Type 0 where
  pub read : All (IsRead s.seen) s.tasks
  pub allowed : All (Allows s.seen) s.out
  pub held : All (IsSession s.seen) s.sessions

-- More reads.
IsAuthorized-later :
    (seen more : List (List ClientToken)) (token : Option String)
    → IsAuthorized seen token
    → IsAuthorized (seen ++ more) token
IsAuthorized-later seen more none a = a
IsAuthorized-later seen more (some t) (ts, (o, a)) = (ts, (Occurs-append_left ts seen more o, a))

Allows-later :
    (seen more : List (List ClientToken)) (o : Output) → Allows seen o → Allows (seen ++ more) o
Allows-later seen more (opened id token) a = IsAuthorized-later seen more token a
Allows-later seen more (reject_client id r) a = tt
Allows-later seen more (hold_client id) a = tt
Allows-later seen more (torn_down id) a = tt

IsRead-later :
    (seen more : List (List ClientToken)) (t : Task) → IsRead seen t → IsRead (seen ++ more) t
IsRead-later seen more (loaded_for id token meta ts) o = Occurs-append_left ts seen more o
IsRead-later seen more (loaded_signal ts) o = Occurs-append_left ts seen more o
IsRead-later seen more (load_for id token meta) o = tt
IsRead-later seen more (store_pending id token meta) o = tt
IsRead-later seen more (hold id token) o = tt
IsRead-later seen more (expire token) o = tt
IsRead-later seen more load_signal o = tt
IsRead-later seen more (set_label token t) o = tt

emit-Inv : (o : Output) (s : State) → Allows s.seen o → Inv s → Inv (emit o s)
emit-Inv o s a v = record {
  read = v.read;
  allowed = All-append (Allows s.seen) s.out _ v.allowed (a, tt);
  held = v.held;
}

defer-Inv : (t : Task) (s : State) → IsRead s.seen t → Inv s → Inv (defer t s)
defer-Inv t s r v = record {
  read = All-append (IsRead s.seen) s.tasks _ v.read (r, tt);
  allowed = v.allowed;
  held = v.held;
}

-- A read, and a task that holds what it gave.
defer_read-Inv :
    (t : Task) (s : State)
    → IsRead (s.seen ++ (s.tokens ∷ [])) t
    → Inv s
    → Inv (defer t (record s { seen = s.seen ++ (s.tokens ∷ []) }))
defer_read-Inv t s r v =
    let more : List (List ClientToken) = s.tokens ∷ [] in
    record {
      read =
          All-append (IsRead (s.seen ++ more)) s.tasks _
            (All-map (IsRead s.seen) (IsRead (s.seen ++ more)) s.tasks (IsRead-later s.seen more)
              v.read)
            (r, tt);
      allowed =
          All-map (Allows s.seen) (Allows (s.seen ++ more)) s.out (Allows-later s.seen more)
            v.allowed;
      held =
          All-map (IsSession s.seen) (IsSession (s.seen ++ more)) s.sessions
            (λ p. IsAuthorized-later s.seen more p.1) v.held;
    }

open-Inv :
    (id : String) (token : Option String) (s : State)
    → IsAuthorized s.seen token
    → Inv s
    → Inv (open_client_connection id token s)
open-Inv id token s a v =
    emit-Inv (opened id token) (record s { sessions = set id token s.sessions }) a
      (record {
        read = v.read;
        allowed = v.allowed;
        held = All-set (IsSession s.seen) id token s.sessions a v.held;
      })

tear_down_by-Inv :
    (o : Option (Option String)) (id : String) (s : State) → Inv s → Inv (tear_down_by o id s)
unfolding tear_down_by
tear_down_by-Inv none id s v = v
tear_down_by-Inv (some token) id s v =
    emit-Inv (torn_down id) (record s { sessions = delete id s.sessions }) tt
      (record {
        read = v.read;
        allowed = v.allowed;
        held = All-delete (IsSession s.seen) id s.sessions v.held;
      })

teardown_client-Inv : (id : String) (s : State) → Inv s → Inv (teardown_client id s)
unfolding teardown_client
teardown_client-Inv id s v = tear_down_by-Inv _ id s v

teardown_each-Inv : (ids : List String) (s : State) → Inv s → Inv (teardown_each ids s)
unfolding teardown_each
teardown_each-Inv [] s v = v
teardown_each-Inv (id ∷ ids) s v = teardown_each-Inv ids _ (teardown_client-Inv id s v)

approve_by-Inv :
    (o : Option String) (token : String) (s : State)
    → IsAuthorized s.seen (some token)
    → Inv s
    → Inv (approve_by o token s)
unfolding approve_by
approve_by-Inv none token s a v = v
approve_by-Inv (some id) token s a v =
    open-Inv id (some token) _ a (record { read = v.read; allowed = v.allowed; held = v.held })

seen-approve_by :
    (o : Option String) (token : String) (s : State) → (approve_by o token s).seen ≡ s.seen
unfolding approve_by
seen-approve_by none token s = refl
seen-approve_by (some id) token s = refl

approve_each-Inv :
    (ts : List ClientToken) (tokens : List String) (s : State)
    → Occurs ts s.seen
    → All (IsActiveIn ts) tokens
    → Inv s
    → Inv (approve_each tokens s)
unfolding approve_each approve_client
approve_each-Inv ts [] s o a v = v
approve_each-Inv ts (t ∷ tokens) s o a v =
    approve_each-Inv ts tokens _
      (subst (Occurs ts) (sym (seen-approve_by (client_of t s.waiting) t s)) o) a.1
      (approve_by-Inv (client_of t s.waiting) t s (ts, (o, a.0)) v)

to_approve-IsActiveIn :
    (ts : List ClientToken) (ps : List (String × String)) → All (IsActiveIn ts) (to_approve ts ps)
unfolding to_approve
to_approve-IsActiveIn ts [] = tt
to_approve-IsActiveIn ts ((id, token) ∷ ps) = kept (to_approve-IsActiveIn ts ps) _ refl
  where
    kept :
        All (IsActiveIn ts) (to_approve ts ps)
        → (b : Bool) → has_status is_active (find_token_by_exact_id token ts) ≡ b
        → All (IsActiveIn ts) (if b then token ∷ to_approve ts ps else to_approve ts ps)
    kept rest true e = (e, rest)
    kept rest false e = rest

act_on-Inv : (ts : List ClientToken) (s : State) → Occurs ts s.seen → Inv s → Inv (act_on ts s)
unfolding act_on
act_on-Inv ts s o v =
    teardown_each-Inv _ _
      (approve_each-Inv ts (to_approve ts s.waiting) s o (to_approve-IsActiveIn ts s.waiting) v)

-- What is found by an id has that id.
find_token-id :
    (token : String) (ts : List ClientToken) (t : ClientToken)
    → find_token_by_exact_id token ts ≡ some t
    → t.id ≡ token
unfolding find_token_by_exact_id find
find_token-id token [] t e = absurd (ground arith)
find_token-id token (u ∷ ts) t e = ground (arith, eq_iff u.id token, find_token-id token ts t)

-- The parts of the state that the invariant does not read.
unread-Inv :
    (s s' : State)
    → s'.seen ≡ s.seen
    → s'.tasks ≡ s.tasks
    → s'.out ≡ s.out
    → s'.sessions ≡ s.sessions
    → Inv s
    → Inv s'
unread-Inv s s' a b c d v = record {
  read = subst (λ x. All (IsRead x) s'.tasks) (sym a) (subst (All (IsRead s.seen)) (sym b) v.read);
  allowed =
      subst (λ x. All (Allows x) s'.out) (sym a) (subst (All (Allows s.seen)) (sym c) v.allowed);
  held =
      subst (λ x. All (IsSession x) s'.sessions) (sym a)
        (subst (All (IsSession s.seen)) (sym d) v.held);
}

module _ (draw : ℕ → String) where
  queue-Inv :
      (id : String) (meta : Option PendingMeta) (s : State)
      → Inv s
      → Inv (queue_approval false draw id meta s)
  unfolding queue_approval
  queue-Inv id meta s v = defer-Inv _ _ tt (unread-Inv s _ refl refl refl refl v)

  by_status-Inv :
      (st : Status) (id token : String) (meta : Option PendingMeta) (s : State)
      → (st ≡ active → IsAuthorized s.seen (some token))
      → Inv s
      → Inv (by_status false draw st id token meta s)
  unfolding by_status
  by_status-Inv active id token meta s a v = open-Inv id (some token) s (a refl) v
  by_status-Inv revoked id token meta s a v = emit-Inv _ s tt v
  by_status-Inv pending id token meta s a v = queue-Inv id meta s v

  with_token-Inv :
      (o : Option ClientToken) (id token : String) (meta : Option PendingMeta)
      (ts : List ClientToken) (s : State)
      → find_token_by_exact_id token ts ≡ o
      → Occurs ts s.seen
      → Inv s
      → Inv (with_token false draw o id meta s)
  unfolding with_token
  with_token-Inv none id token meta ts s e o v = queue-Inv id meta s v
  with_token-Inv (some t) id token meta ts s e o v =
      by_status-Inv t.status id t.id meta s
        (λ st. (
          ts,
          (
            o,
            subst (IsActiveIn ts) (sym (find_token-id token ts t e))
                (ap (has_status is_active) e ∙ ap is_active st),
          ),
        ))
        v

  resume-Inv :
      (t : Task) (now : String) (s : State)
      → IsRead s.seen t
      → Inv s
      → Inv (resume false draw t now s)
  unfolding resume
  resume-Inv (load_for id token meta) now s r v =
      defer_read-Inv (loaded_for id token meta s.tokens) s
        (Occurs-append_right s.tokens s.seen (s.tokens ∷ []) (inl refl)) v
  resume-Inv (loaded_for id token meta ts) now s r v = with_token-Inv _ id token meta ts s refl r v
  resume-Inv (store_pending id token meta) now s r v =
      defer-Inv _ _ tt (unread-Inv s _ refl refl refl refl v)
  resume-Inv (hold id token) now s r v =
      emit-Inv (hold_client id) _ tt (unread-Inv s _ refl refl refl refl v)
  resume-Inv (expire token) now s r v = unread-Inv s _ refl refl refl refl v
  resume-Inv load_signal now s r v =
      defer_read-Inv (loaded_signal s.tokens) s
        (Occurs-append_right s.tokens s.seen (s.tokens ∷ []) (inl refl)) v
  resume-Inv (loaded_signal ts) now s r v = act_on-Inv ts s r v
  resume-Inv (set_label token t) now s r v = unread-Inv s _ refl refl refl refl v

  -- A taken task and the others.
  abbrev Taken : List (List ClientToken) → Option (Task × List Task) → Type 0
  Taken seen none = Unit
  Taken seen (some p) = IsRead seen p.0 × All (IsRead seen) p.1

  put_back :
      (seen : List (List ClientToken)) (t : Task) (o : Option (Task × List Task))
      → IsRead seen t
      → Taken seen o
      → Taken seen (elim o [ none ↦ none | some p ↦ some (p.0, t ∷ p.1) ])
  put_back seen t none r h = tt
  put_back seen t (some p) r h = (h.0, (r, h.1))

  take_task-Taken :
      (seen : List (List ClientToken)) (i : ℕ) (ts : List Task)
      → All (IsRead seen) ts
      → Taken seen (take_task i ts)
  unfolding take_task
  take_task-Taken seen i [] h = tt
  take_task-Taken seen zero (t ∷ ts) h = h
  take_task-Taken seen (suc i) (t ∷ ts) h =
      put_back seen t (take_task i ts) h.0 (take_task-Taken seen i ts h.1)

  resume_taken-Inv :
      (o : Option (Task × List Task)) (now : String) (s : State)
      → Taken s.seen o
      → Inv s
      → Inv (resume_taken false draw o now s)
  unfolding resume_taken
  resume_taken-Inv none now s h v = v
  resume_taken-Inv (some (t, ts)) now s h v =
      resume-Inv t now (record s { tasks = ts }) h.0
        (record { read = h.1; allowed = v.allowed; held = v.held })

  waiting-Inv :
      (id : String) (token : Option String) (meta : Option PendingMeta) (s : State)
      → Inv s
      → Inv (on_client_waiting false draw id token meta s)
  unfolding on_client_waiting look_token
  waiting-Inv id token meta s v =
      if-holds Inv (leb max_clients (length s.sessions)) (emit full s) _ (emit-Inv full s tt v) (
        if-holds Inv (leb max_pending_clients (length s.waiting)) (emit many s) _
          (emit-Inv many s tt v) (looked token))
    where
      full : Output
      full = reject_client id "max clients reached"

      many : Output
      many = reject_client id "too many pending approvals"

      looked : (token : Option String) → Inv (look_token false draw id token meta s)
      looked none = queue-Inv id meta s v
      looked (some t) = if-holds Inv (str_eq t "") _ _ (queue-Inv id meta s v) (defer-Inv _ s tt v)

  timed_out-Inv :
      (o : Option String) (token : String) (s : State) → Inv s → Inv (timed_out o token s)
  unfolding timed_out
  timed_out-Inv none token s v = v
  timed_out-Inv (some id) token s v =
      defer-Inv _ _ tt (emit-Inv _ _ tt (unread-Inv s _ refl refl refl refl v))

  forget-Inv : (o : Option String) (id : String) (s : State) → Inv s → Inv (forget_pending o id s)
  unfolding forget_pending
  forget-Inv none id s v = v
  forget-Inv (some token) id s v = unread-Inv s _ refl refl refl refl v

  labelled-Inv :
      (o : Option (Option String)) (t : String) (s : State) → Inv s → Inv (labelled_by o t s)
  unfolding labelled_by
  labelled-Inv none t s v = v
  labelled-Inv (some none) t s v = v
  labelled-Inv (some (some token)) t s v =
      if-holds Inv (str_eq token "") s _ v (defer-Inv (set_label token t) s tt v)

  step-Inv : (e : Event) (s : State) → Inv s → Inv (step false draw e s)
  unfolding step
  step-Inv (client_waiting id token meta) s v = waiting-Inv id token meta s v
  step-Inv (resumed i now) s v =
      resume_taken-Inv _ now s (take_task-Taken s.seen i s.tasks v.read) v
  step-Inv (timeout token) s v = timed_out-Inv _ token s v
  step-Inv (client_disconnected id) s v = teardown_client-Inv id _ (forget-Inv _ id s v)
  step-Inv (session_ended id) s v = teardown_client-Inv id s v
  step-Inv (hello id label client) s v = labelled-Inv _ _ s v
  step-Inv primary_closed s v =
      unread-Inv (teardown_each (keys s.sessions) s) _ refl refl refl refl (teardown_each-Inv _ s v)
  step-Inv signal s v = defer-Inv load_signal s tt v
  step-Inv (written ts) s v = unread-Inv s _ refl refl refl refl v

  run-Inv : (es : List Event) (s : State) → Inv s → Inv (run false draw es s)
  unfolding run
  run-Inv [] s v = v
  run-Inv (e ∷ es) s v = run-Inv es _ (step-Inv e s v)

  -- With approval on, every session that the daemon opens in any run has a token that was active in
  -- the stored tokens at some time that the daemon read them.
  pub run-Allows :
      (es : List Event) (now : String) (ts : List ClientToken)
      → All
          (Allows (run false draw es (start false draw now ts)).seen)
          (run false draw es (start false draw now ts)).out
  run-Allows es now ts =
      (run-Inv es (start false draw now ts) (record { read = tt; allowed = tt; held = tt })).allowed
