-- ===== src/Pairing/Isolation.antt =====
-- Between which sockets the registry forwards, over any run.
use pty_relay.Base.{
  ℕ, ◌+◌, ◌<◌, String, Option, none, some, List, [], ◌∷◌, ◌≡◌, refl, sym, subst, ◌⊎◌, inl, inr, All,
  All-append, updated-All, updated_both-All, Occurs, All-Occurs, arith, ◌==◌, if◌then◌else◌,
  if-holds,
}
use pty_relay.Base.Dict.{get, delete, All-get, All-set, All-delete}
use pty_relay.Js.{Json, Fields, obj, prop}
use pty_relay.Pairing.{
  ClientEntry, Meta, Listener, primary_message, primary_close, client_close, forward_to,
  daemon_close, Call, forwarded, World, send, leave, close, put_clients, listen, add_primary,
  register_daemon, add_client, register_client, add_daemon, find_client, register_daemon_for_client,
  client_at, reject, hold, primary_object, primary_text, Data, text, binary, on_message,
  close_daemon, leave_daemon, disconnect_each, tear_down, client_gone, client_left, daemon_gone,
  daemon_left, on_close, each_listener, Event, daemon_came, client_came, daemon_for, message,
  closing, socket_closed, step, run, fresh,
}

-- Which client sockets came for a host and got an id there, and which daemon sockets answered.
module _ (Came Answered : String → String → ℕ → Type 0) where
  -- The two sockets are a client and a daemon's answer to it.
  abbrev pub Linked : ℕ → ℕ → Type 0
  Linked s t =
      (h : String) × (id : String) × ((Came h id s × Answered h id t)
        ⊎ (Came h id t × Answered h id s))

  abbrev pub Permits : ℕ × Listener → Type 0
  Permits (s, forward_to t) = Linked s t
  Permits (s, _) = Unit

  abbrev pub IsPermitted : Call → Type 0
  IsPermitted (forwarded s t b) = Linked s t
  IsPermitted _ = Unit

  abbrev pub IsClient : String → String × ClientEntry → Type 0
  IsClient h p = Came h p.0 p.1.client

  abbrev pub Owns : (ℕ → String) → ℕ → String × ℕ → Type 0
  Owns owner next p = (owner p.1 ≡ p.0) × (p.1 < next)

  pub record Inv (w : World) : Type 0 where
    pub owner : ℕ → String
    pub owned : All (Owns owner w.next) w.entries
    pub came : (a : ℕ) → All (IsClient (owner a)) (w.objects a).clients
    pub linked : All Permits w.listeners
    pub permitted : All IsPermitted w.out

  send-Inv : (s : ℕ) (o : Fields) (w : World) → Inv w → Inv (send s o w)
  send-Inv s o w v = record {
    owner = v.owner;
    owned = v.owned;
    came = v.came;
    linked = v.linked;
    permitted = All-append IsPermitted w.out _ v.permitted (tt, tt);
  }

  close-Inv : (s : ℕ) (w : World) → Inv w → Inv (close s w)
  close-Inv s w v = record {
    owner = v.owner;
    owned = v.owned;
    came = v.came;
    linked = v.linked;
    permitted = All-append IsPermitted w.out _ v.permitted (tt, tt);
  }

  leave-Inv : (s : ℕ) (w : World) → Inv w → Inv (leave s w)
  leave-Inv s w v = record {
    owner = v.owner;
    owned = v.owned;
    came = v.came;
    linked = v.linked;
    permitted = v.permitted;
  }

  listen-Inv : (s : ℕ) (l : Listener) (w : World) → Permits (s, l) → Inv w → Inv (listen s l w)
  listen-Inv s l w p v = record {
    owner = v.owner;
    owned = v.owned;
    came = v.came;
    linked = All-append Permits w.listeners _ v.linked (p, tt);
    permitted = v.permitted;
  }

  put_clients-Inv :
      (a : ℕ) (cs : List (String × ClientEntry)) (w : World) (v : Inv w)
      → All (IsClient (v.owner a)) cs
      → Inv (put_clients a cs w)
  put_clients-Inv a cs w v h = record {
    owner = v.owner;
    owned = v.owned;
    came =
        updated-All (λ i e. All (IsClient (v.owner i)) e.clients) a
          (record (w.objects a) { clients = cs }) w.objects h v.came;
    linked = v.linked;
    permitted = v.permitted;
  }

  -- A lookup gives the reference of an entry that the host owns.
  clients_at :
      (h : String) (a : ℕ) (w : World) (v : Inv w)
      → get h w.entries ≡ some a
      → (v.owner a ≡ h) × (a < w.next)
  clients_at h a w v found = All-get (Owns v.owner w.next) h a w.entries v.owned found

  abbrev CallOf : Event → Type 0
  CallOf (client_came h ws token meta id) = Came h id ws
  CallOf (daemon_for h id ws) = Answered h id ws
  CallOf _ = Unit

  owned_later :
      (owner : ℕ → String) (h : String) (n : ℕ) (m : List (String × ℕ))
      → All (Owns owner n) m
      → All (Owns (λ i. if i == n then h else owner i) (n + 1)) m
  owned_later owner h n [] v = tt
  owned_later owner h n ((k, a) ∷ m) v = (ground arith, owned_later owner h n m v.1)

  add_primary-Inv :
      (o : Option ℕ) (h : String) (ws : ℕ) (label : Option String) (w : World)
      → Inv w
      → Inv (add_primary o h ws label w).0
  unfolding add_primary
  add_primary-Inv (some a) h ws label w v = v
  add_primary-Inv none h ws label w v = listen-Inv ws (primary_close h) _ tt (
      listen-Inv ws (primary_message w.next) _ tt (record {
        owner = λ i. if i == w.next then h else v.owner i;
        owned =
            All-set (Owns (λ i. if i == w.next then h else v.owner i) (w.next + 1)) h w.next
              w.entries (ground arith) (owned_later v.owner h w.next w.entries v.owned);
        came =
            updated_both-All (λ k e. All (IsClient k) e.clients) w.next h
              (record { primary = ws; clients = []; label = label }) v.owner w.objects tt v.came;
        linked = v.linked;
        permitted = v.permitted;
      }))

  add_client-Inv :
      (o : Option ℕ) (h : String) (ws : ℕ) (token : Option String) (meta : Option Meta)
      (id : String) (w : World)
      → get h w.entries ≡ o
      → Came h id ws
      → Inv w
      → Inv (add_client o h ws token meta id w).0
  unfolding add_client
  add_client-Inv none h ws token meta id w found c v = v
  add_client-Inv (some a) h ws token meta id w found c v = listen-Inv ws (client_close h id) _ tt (
      send-Inv _ _ _ (
        put_clients-Inv a _ w v (
          All-set (IsClient (v.owner a)) id _ (w.objects a).clients
            (subst (λ k. Came k id ws) (sym (clients_at h a w v found).0) c) (v.came a))))

  add_daemon-Inv :
      (o : Option ClientEntry) (a : ℕ) (h id : String) (ws : ℕ) (w : World)
      → get h w.entries ≡ some a
      → get id (w.objects a).clients ≡ o
      → Answered h id ws
      → Inv w
      → Inv (add_daemon o a h id ws w).0
  unfolding add_daemon
  add_daemon-Inv none a h id ws w found at d v = v
  add_daemon-Inv (some ce) a h id ws w found at d v = listen-Inv ws (daemon_close h id) _ tt (
      listen-Inv ce.client (forward_to ws) _ (h, id, inl (c, d))
        (listen-Inv ws (forward_to ce.client) _ (h, id, inr (c, d))
          (send-Inv _ _ _ (
            send-Inv _ _ _ (
              put_clients-Inv a _ w v
                (All-set (IsClient (v.owner a)) id _ (w.objects a).clients here (v.came a)))))))
    where
      here : Came (v.owner a) id ce.client
      here = All-get (IsClient (v.owner a)) id ce (w.objects a).clients (v.came a) at

      c : Came h id ce.client
      c = subst (λ k. Came k id ce.client) (clients_at h a w v found).0 here

  find_client-Inv :
      (o : Option ℕ) (h id : String) (ws : ℕ) (w : World)
      → get h w.entries ≡ o
      → Answered h id ws
      → Inv w
      → Inv (find_client o h id ws w).0
  unfolding find_client
  find_client-Inv none h id ws w found d v = v
  find_client-Inv (some a) h id ws w found d v = add_daemon-Inv _ a h id ws w found refl d v

  -- The clients of an entry may be put before or after a message and a close.
  close_last-Inv :
      (s : ℕ) (o : Fields) (a : ℕ) (cs : List (String × ClientEntry)) (w : World)
      → Inv (put_clients a cs w)
      → Inv (put_clients a cs (close s (send s o w)))
  close_last-Inv s o a cs w v = close-Inv s _ (send-Inv s o _ v)

  reject-Inv :
      (o : Option (String × ClientEntry)) (reason : Option Json) (a : ℕ) (w : World)
      → Inv w
      → Inv (reject o reason a w)
  unfolding reject
  reject-Inv none reason a w v = v
  reject-Inv (some (id, ce)) reason a w v =
      close_last-Inv _ _ a (delete id (w.objects a).clients) w (
        put_clients-Inv a _ w v
          (All-delete (IsClient (v.owner a)) id (w.objects a).clients (v.came a)))

  hold-Inv : (o : Option (String × ClientEntry)) (w : World) → Inv w → Inv (hold o w)
  unfolding hold
  hold-Inv none w v = v
  hold-Inv (some (id, ce)) w v = send-Inv _ _ _ v

  primary_text-Inv : (o : Option Json) (a : ℕ) (w : World) → Inv w → Inv (primary_text o a w)
  unfolding primary_text primary_object
  primary_text-Inv (some (obj o)) a w v =
      if-holds Inv _ _ _ (reject-Inv (client_at (prop "client_id" o) (w.objects a).clients) _ a w v)
        (if-holds Inv _ _ _ (hold-Inv (client_at (prop "client_id" o) (w.objects a).clients) w v) v)
  primary_text-Inv _ a w v = v

  on_message-Inv :
      (parse : String → Option Json) (s : ℕ) (d : Data) (l : Listener) (w : World)
      → Permits (s, l)
      → Inv w
      → Inv (on_message parse s d l w)
  unfolding on_message
  on_message-Inv parse s (text t) (primary_message a) w p v = primary_text-Inv (parse t) a w v
  on_message-Inv parse s (binary b) (forward_to t) w p v =
      if-holds Inv (w.is_open t) _ w
        (record {
          owner = v.owner;
          owned = v.owned;
          came = v.came;
          linked = v.linked;
          permitted = All-append IsPermitted w.out _ v.permitted (p, tt);
        })
        v
  on_message-Inv parse s d _ w p v = v

  close_daemon-Inv : (o : Option ℕ) (w : World) → Inv w → Inv (close_daemon o w)
  unfolding close_daemon
  close_daemon-Inv none w v = v
  close_daemon-Inv (some d) w v = close-Inv d w v

  disconnect_each-Inv :
      (cs : List (String × ClientEntry)) (w : World) → Inv w → Inv (disconnect_each cs w)
  unfolding disconnect_each
  disconnect_each-Inv [] w v = v
  disconnect_each-Inv ((id, ce) ∷ cs) w v =
      disconnect_each-Inv cs _ (close_daemon-Inv ce.daemon _ (close-Inv _ _ (send-Inv _ _ _ v)))

  forget-Inv : (h : String) (w : World) → Inv w → Inv (record w { entries = delete h w.entries })
  forget-Inv h w v = record {
    owner = v.owner;
    owned = All-delete (Owns v.owner w.next) h w.entries v.owned;
    came = v.came;
    linked = v.linked;
    permitted = v.permitted;
  }

  tear_down-Inv : (o : Option ℕ) (h : String) (s : ℕ) (w : World) → Inv w → Inv (tear_down o h s w)
  unfolding tear_down
  tear_down-Inv none h s w v = v
  tear_down-Inv (some a) h s w v =
      if-holds Inv ((w.objects a).primary == s) _ w
        (forget-Inv h _ (disconnect_each-Inv (w.objects a).clients w v)) v

  leave_daemon-Inv :
      (o : Option ℕ) (a : ℕ) (cs : List (String × ClientEntry)) (w : World)
      → Inv (put_clients a cs w)
      → Inv (put_clients a cs (leave_daemon o w))
  unfolding leave_daemon
  leave_daemon-Inv none a cs w v = v
  leave_daemon-Inv (some d) a cs w v = close_last-Inv d _ a cs w v

  objects-leave_daemon : (o : Option ℕ) (w : World) → (leave_daemon o w).objects ≡ w.objects
  unfolding leave_daemon
  objects-leave_daemon none w = refl
  objects-leave_daemon (some d) w = refl

  client_gone-Inv :
      (o : Option ClientEntry) (a : ℕ) (id : String) (s : ℕ) (w : World)
      → Inv w
      → Inv (client_gone o a id s w)
  unfolding client_gone
  client_gone-Inv none a id s w v = v
  client_gone-Inv (some ce) a id s w v =
      if-holds Inv (ce.client == s) _ w
        (send-Inv _ _ _ (
          leave_daemon-Inv ce.daemon a _ w (
            put_clients-Inv a _ w v (
              subst (λ o. All (IsClient (v.owner a)) (delete id (o a).clients))
                (sym (objects-leave_daemon ce.daemon w))
                (All-delete (IsClient (v.owner a)) id (w.objects a).clients (v.came a))))))
        v

  client_left-Inv :
      (o : Option ℕ) (id : String) (s : ℕ) (w : World) → Inv w → Inv (client_left o id s w)
  unfolding client_left
  client_left-Inv none id s w v = v
  client_left-Inv (some a) id s w v = client_gone-Inv _ a id s w v

  daemon_gone-Inv :
      (o : Option ClientEntry) (a : ℕ) (id : String) (s : ℕ) (w : World)
      → get id (w.objects a).clients ≡ o
      → Inv w
      → Inv (daemon_gone o a id s w)
  unfolding daemon_gone
  daemon_gone-Inv none a id s w at v = v
  daemon_gone-Inv (some ce) a id s w at v =
      if-holds Inv _ _ w
        (send-Inv ce.client _ _ (
          put_clients-Inv a _ w v (
            All-set (IsClient (v.owner a)) id _ (w.objects a).clients
              (All-get (IsClient (v.owner a)) id ce (w.objects a).clients (v.came a) at)
              (v.came a))))
        v

  daemon_left-Inv :
      (o : Option ℕ) (id : String) (s : ℕ) (w : World) → Inv w → Inv (daemon_left o id s w)
  unfolding daemon_left
  daemon_left-Inv none id s w v = v
  daemon_left-Inv (some a) id s w v = daemon_gone-Inv _ a id s w refl v

  on_close-Inv : (s : ℕ) (l : Listener) (w : World) → Inv w → Inv (on_close s l w)
  unfolding on_close
  on_close-Inv s (primary_close h) w v = tear_down-Inv _ h s w v
  on_close-Inv s (client_close h id) w v = client_left-Inv _ id s w v
  on_close-Inv s (daemon_close h id) w v = daemon_left-Inv _ id s w v
  on_close-Inv s _ w v = v

  each_listener-Inv :
      (f : Listener → World → World) (s : ℕ) (ls : List (ℕ × Listener)) (w : World)
      → ((l : Listener) (u : World) → Permits (s, l) → Inv u → Inv (f l u))
      → All Permits ls
      → Inv w
      → Inv (each_listener f s ls w)
  unfolding each_listener
  each_listener-Inv f s [] w k p v = v
  each_listener-Inv f s ((i, l) ∷ ls) w k p v =
      each_listener-Inv f s ls _ k p.1 (ground (arith, k l w, p.0, v))

  step-Inv :
      (parse : String → Option Json) (e : Event) (w : World)
      → CallOf e
      → Inv w
      → Inv (step parse e w)
  unfolding step register_daemon register_client register_daemon_for_client
  step-Inv parse (daemon_came h ws label) w c v = add_primary-Inv _ h ws label w v
  step-Inv parse (client_came h ws token meta id) w c v =
      add_client-Inv _ h ws token meta id w refl c v
  step-Inv parse (daemon_for h id ws) w c v = find_client-Inv _ h id ws w refl c v
  step-Inv parse (message s d) w c v =
      each_listener-Inv (on_message parse s d) s w.listeners w (on_message-Inv parse s d) v.linked v
  step-Inv parse (closing s) w c v = leave-Inv s w v
  step-Inv parse (socket_closed s) w c v =
      each_listener-Inv (on_close s) s w.listeners _ (λ l u p. on_close-Inv s l u) v.linked
        (leave-Inv s w v)

  run-Inv :
      (parse : String → Option Json) (es : List Event) (w : World)
      → All CallOf es
      → Inv w
      → Inv (run parse es w)
  unfolding run
  run-Inv parse [] w c v = v
  run-Inv parse (e ∷ es) w c v = run-Inv parse es _ c.1 (step-Inv parse e w c.0 v)

  fresh-Inv : Inv fresh
  fresh-Inv = record { owner = λ a. ""; owned = tt; came = λ a. tt; linked = tt; permitted = tt }

-- The socket came as the client of that id for the host in these events.
abbrev pub CameIn : List Event → String → String → ℕ → Type 0
CameIn es h id s =
    (token : Option String) × (meta : Option Meta) × Occurs (client_came h s token meta id) es

-- The socket came as the daemon's answer to that client in these events.
abbrev pub AnsweredIn : List Event → String → String → ℕ → Type 0
AnsweredIn es h id s = Occurs (daemon_for h id s) es

own_calls : (es : List Event) (e : Event) → Occurs e es → CallOf (CameIn es) (AnsweredIn es) e
own_calls es (client_came h s token meta id) o = (token, meta, o)
own_calls es (daemon_for h id s) o = o
own_calls es (daemon_came h s label) o = tt
own_calls es (message s d) o = tt
own_calls es (closing s) o = tt
own_calls es (socket_closed s) o = tt

-- Over any events a frame is only ever forwarded between a client socket and a daemon socket that
-- came for the same secret hash and the same client id.
pub run-IsIsolated :
    (parse : String → Option Json) (es : List Event)
    → All (IsPermitted (CameIn es) (AnsweredIn es)) (run parse es fresh).out
run-IsIsolated parse es =
    (run-Inv (CameIn es) (AnsweredIn es) parse es fresh
      (All-Occurs (CallOf (CameIn es) (AnsweredIn es)) es (own_calls es))
      (fresh-Inv (CameIn es) (AnsweredIn es))).permitted
