-- ===== src/Approval/Daemon/Keeping.antt =====
-- What the daemon itself does to the stored tokens in a run.
use pty_relay.Base.{
  ℕ, String, Bool, true, Option, none, some, List, [], ◌∷◌, ◌++◌, ◌≡◌, refl, sym, subst, ap, ◌∙◌,
  All, arith, leb, length, not, ◌&&◌, str_eq, eq_iff, if-holds,
}
use pty_relay.Base.Dict.{get}
use pty_relay.Approval.Tokens.{
  Status, active, revoked, pending, PendingMeta, ClientToken, is_active, is_pending, revoked_now,
  find, find_token_by_exact_id, change,
}
use pty_relay.Approval.Daemon.{
  max_clients, max_pending_clients, Task, load_for, loaded_for, store_pending, hold, expire,
  load_signal, loaded_signal, set_label, emit, reject_client, State, tear_down_by, teardown_client,
  teardown_each, client_of, approve_by, approve_client, approve_each, has_status, to_approve,
  act_on, new_pending, expired, label_over, labelled, queue_approval, look_token, on_client_waiting,
  open_client_connection, by_status, with_token, resume, take_task, resume_taken, timed_out,
  forget_pending, labelled_by, Event, client_waiting, resumed, timeout, client_disconnected,
  session_ended, hello, primary_closed, signal, written, step, run,
}

-- An event of the daemon and its clients, not another process that writes the tokens.
abbrev pub IsOwn : Event → Type 0
IsOwn (written ts) = ⊥
IsOwn _ = Unit

tokens-teardown_client : (id : String) (s : State) → (teardown_client id s).tokens ≡ s.tokens
unfolding teardown_client tear_down_by
tokens-teardown_client id s = by (get id s.sessions)
  where
    by : (o : Option (Option String)) → (tear_down_by o id s).tokens ≡ s.tokens
    by none = refl
    by (some t) = refl

tokens-teardown_each : (ids : List String) (s : State) → (teardown_each ids s).tokens ≡ s.tokens
unfolding teardown_each
tokens-teardown_each [] s = refl
tokens-teardown_each (id ∷ ids) s = tokens-teardown_each ids _ ∙ tokens-teardown_client id s

tokens-approve_each : (ts : List String) (s : State) → (approve_each ts s).tokens ≡ s.tokens
unfolding approve_each approve_client approve_by
tokens-approve_each [] s = refl
tokens-approve_each (t ∷ ts) s = tokens-approve_each ts _ ∙ by (client_of t s.waiting)
  where
    by : (o : Option String) → (approve_by o t s).tokens ≡ s.tokens
    by none = refl
    by (some id) = refl

-- A predicate of the stored tokens that the daemon's three changes keep.
module _ (P : List ClientToken → Type 0)
    (added : (id token now : String) (meta : Option PendingMeta) (ts : List ClientToken)
      → P ts
      → P (ts ++ (new_pending id token now meta ∷ [])))
    (expiry : (token now : String) (ts : List ClientToken)
      → P ts
      → P (change token (expired now) ts))
    (label : (token text : String) (ts : List ClientToken)
      → P ts
      → P (change token (labelled text) ts))
    (auto : Bool) (draw : ℕ → String) where
  with_token-keeps :
      (o : Option ClientToken) (id : String) (meta : Option PendingMeta) (s : State)
      → (with_token auto draw o id meta s).tokens ≡ s.tokens
  unfolding with_token queue_approval by_status
  with_token-keeps none id meta s = refl
  with_token-keeps (some t) id meta s = by t.status
    where
      by : (st : Status) → (by_status auto draw st id t.id meta s).tokens ≡ s.tokens
      by active = refl
      by revoked = refl
      by pending = refl

  resume-keeps :
      (t : Task) (now : String) (s : State) → P s.tokens → P (resume auto draw t now s).tokens
  unfolding resume act_on
  resume-keeps (load_for id token meta) now s p = p
  resume-keeps (loaded_for id token meta ts) now s p =
      subst P (sym (with_token-keeps (find_token_by_exact_id token ts) id meta s)) p
  resume-keeps (store_pending id token meta) now s p = added id token now meta s.tokens p
  resume-keeps (hold id token) now s p = p
  resume-keeps (expire token) now s p = expiry token now s.tokens p
  resume-keeps load_signal now s p = p
  resume-keeps (loaded_signal ts) now s p =
      subst P
        (sym (
          tokens-teardown_each _ (approve_each (to_approve ts s.waiting) s)
          ∙ tokens-approve_each (to_approve ts s.waiting) s))
        p
  resume-keeps (set_label token text) now s p = label token text s.tokens p

  taken-keeps :
      (o : Option (Task × List Task)) (now : String) (s : State)
      → P s.tokens
      → P (resume_taken auto draw o now s).tokens
  unfolding resume_taken
  taken-keeps none now s p = p
  taken-keeps (some (t, ts)) now s p = resume-keeps t now (record s { tasks = ts }) p

  waiting-keeps :
      (id : String) (token : Option String) (meta : Option PendingMeta) (s : State)
      → (on_client_waiting auto draw id token meta s).tokens ≡ s.tokens
  unfolding on_client_waiting look_token queue_approval
  waiting-keeps id token meta s =
      if-holds Same (leb max_clients (length s.sessions))
        (emit (reject_client id "max clients reached") s) _ refl
        (if-holds Same (not auto && leb max_pending_clients (length s.waiting))
          (emit (reject_client id "too many pending approvals") s) _ refl
          (if-holds Same auto (open_client_connection id none s)
            (look_token auto draw id token meta s) refl (by token)))
    where
      Same : State → Type 0
      Same u = u.tokens ≡ s.tokens

      by : (token : Option String) → (look_token auto draw id token meta s).tokens ≡ s.tokens
      by none = refl
      by (some t) =
          if-holds (λ (u : State). u.tokens ≡ s.tokens) (str_eq t "")
            (queue_approval auto draw id meta s) _ refl refl

  timed_out-keeps :
      (o : Option String) (token : String) (s : State) → (timed_out o token s).tokens ≡ s.tokens
  unfolding timed_out
  timed_out-keeps none token s = refl
  timed_out-keeps (some id) token s = refl

  forget-keeps :
      (o : Option String) (id : String) (s : State) → (forget_pending o id s).tokens ≡ s.tokens
  unfolding forget_pending
  forget-keeps none id s = refl
  forget-keeps (some token) id s = refl

  labelled-keeps :
      (o : Option (Option String)) (text : String) (s : State)
      → (labelled_by o text s).tokens ≡ s.tokens
  unfolding labelled_by
  labelled-keeps none text s = refl
  labelled-keeps (some none) text s = refl
  labelled-keeps (some (some t)) text s =
      if-holds (λ (u : State). u.tokens ≡ s.tokens) (str_eq t "") s _ refl refl

  step-keeps : (e : Event) (s : State) → IsOwn e → P s.tokens → P (step auto draw e s).tokens
  unfolding step
  step-keeps (client_waiting id token meta) s o p = subst P (sym (waiting-keeps id token meta s)) p
  step-keeps (resumed i now) s o p = taken-keeps (take_task i s.tasks) now s p
  step-keeps (timeout token) s o p = subst P (sym (timed_out-keeps _ token s)) p
  step-keeps (client_disconnected id) s o p =
      subst P (sym (tokens-teardown_client id _ ∙ forget-keeps (get id s.waiting) id s)) p
  step-keeps (session_ended id) s o p = subst P (sym (tokens-teardown_client id s)) p
  step-keeps (hello id l client) s o p = subst P (sym (labelled-keeps (get id s.sessions) _ s)) p
  step-keeps primary_closed s o p = subst P (sym (tokens-teardown_each _ s)) p
  step-keeps signal s o p = if-holds (λ (u : State). P u.tokens) auto s _ p p
  step-keeps (written ts) s o p = absurd o

  pub run-keeps :
      (es : List Event) (s : State) → All IsOwn es → P s.tokens → P (run auto draw es s).tokens
  unfolding run
  run-keeps [] s o p = p
  run-keeps (e ∷ es) s o p = run-keeps es (step auto draw e s) o.1 (step-keeps e s o.0 p)

-- What an id finds, after each change.
find-added :
    (k id token now : String) (meta : Option PendingMeta) (ts : List ClientToken)
    → has_status is_active (find_token_by_exact_id k (ts ++ (new_pending id token now meta ∷ [])))
      ≡ true
    → has_status is_active (find_token_by_exact_id k ts) ≡ true
unfolding find_token_by_exact_id find
find-added k id token now meta [] h = ground (arith, h)
find-added k id token now meta (t ∷ ts) h = ground (arith, h, find-added k id token now meta ts)

-- Over a change that keeps the ids.
module _ (p : Status → Bool) (f : ClientToken → ClientToken)
    (ids : (t : ClientToken) → (f t).id ≡ t.id) where
  status-change_back :
      (k token : String) (ts : List ClientToken)
      → ((t : ClientToken) → p (f t).status ≡ true → p t.status ≡ true)
      → has_status p (find_token_by_exact_id k (change token f ts)) ≡ true
      → has_status p (find_token_by_exact_id k ts) ≡ true
  unfolding find_token_by_exact_id find change
  status-change_back k token [] g h = h
  status-change_back k token (t ∷ ts) g h = ground (
    arith,
    h,
    ids t,
    g t,
    eq_iff t.id token,
    eq_iff t.id k,
    eq_iff (f t).id k,
    status-change_back k token ts g,
  )

id-expired : (now : String) (t : ClientToken) → (expired now t).id ≡ t.id
id-expired now t =
    if-holds (λ (u : ClientToken). u.id ≡ t.id) (is_pending t.status) (revoked_now now t) t refl
      refl

expired_active :
    (now : String) (t : ClientToken)
    → is_active (expired now t).status ≡ true
    → is_active t.status ≡ true
expired_active now t h = ground (arith, h)

-- A label changes neither the id nor the status.
same-labelled :
    (text : String) (t : ClientToken)
    → ((labelled text t).id ≡ t.id) × ((labelled text t).status ≡ t.status)
same-labelled text t = by t.label
  where
    by :
        (l : Option String)
        → ((label_over l text t).id ≡ t.id) × ((label_over l text t).status ≡ t.status)
    by none = (refl, refl)
    by (some l) = (refl, refl)

-- No token becomes active in a run of the daemon in which no other process writes the tokens.
pub run-active :
    (auto : Bool) (draw : ℕ → String) (k : String) (es : List Event) (s : State)
    → All IsOwn es
    → has_status is_active (find_token_by_exact_id k (run auto draw es s).tokens) ≡ true
    → has_status is_active (find_token_by_exact_id k s.tokens) ≡ true
run-active auto draw k es s own h =
    run-keeps
      (λ ts.
        has_status is_active (find_token_by_exact_id k ts) ≡ true
        → has_status is_active (find_token_by_exact_id k s.tokens) ≡ true)
      (λ id token now meta ts p a. p (find-added k id token now meta ts a))
      (λ token now ts p a. p (
        status-change_back is_active (expired now) (id-expired now) k token ts (expired_active now)
          a))
      (λ token text ts p a. p (
        status-change_back is_active (labelled text) (λ t. (same-labelled text t).0) k token ts
          (λ t e. sym (ap is_active (same-labelled text t).1) ∙ e) a))
      auto draw es s own (λ a. a) h
