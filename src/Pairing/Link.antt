-- ===== src/Pairing/Link.antt =====
-- A pairing lasts: the frames of a client and of its daemon reach each other while both are open.
use pty_relay.Base.{
  ℕ, String, true, Option, none, some, List, [], ◌∷◌, ◌++◌, ◌≡◌, refl, sym, subst, ◌∙◌, inl, inr,
  Occurs, Occurs-append_left, Occurs-append_right, Bytes, arith, ◌==◌, if◌then◌else◌, if-holds,
}
use pty_relay.Base.Dict.{get}
use pty_relay.Js.{Json, obj, prop}
use pty_relay.Pairing.{
  ClientEntry, Meta, Listener, primary_message, primary_close, client_close, forward_to,
  daemon_close, Call, forwarded, World, add_primary, register_daemon, add_client, register_client,
  add_daemon, find_client, register_daemon_for_client, client_at, reject, hold, primary_object,
  primary_text, Data, text, binary, on_message, close_daemon, leave_daemon, disconnect_each,
  tear_down, client_gone, client_left, daemon_gone, daemon_left, on_close, each_listener, Event,
  daemon_came, client_came, daemon_for, message, closing, socket_closed, step, run,
}

-- Codes that keep the listeners, and codes that may add some.
abbrev Keeps : (World → World) → Type 0
Keeps f = (w : World) → (f w).listeners ≡ w.listeners

abbrev Same : World → World → Type 0
Same w u = u.listeners ≡ w.listeners

abbrev Has : ℕ × Listener → World → Type 0
Has p w = Occurs p w.listeners

reject-Keeps :
    (o : Option (String × ClientEntry)) (reason : Option Json) (a : ℕ) → Keeps (reject o reason a)
unfolding reject
reject-Keeps none reason a w = refl
reject-Keeps (some (id, ce)) reason a w = refl

hold-Keeps : (o : Option (String × ClientEntry)) → Keeps (hold o)
unfolding hold
hold-Keeps none w = refl
hold-Keeps (some (id, ce)) w = refl

primary_text-Keeps : (o : Option Json) (a : ℕ) → Keeps (primary_text o a)
unfolding primary_text primary_object
primary_text-Keeps (some (obj o)) a w = ground (
  arith,
  reject-Keeps (client_at (prop "client_id" o) (w.objects a).clients) (prop "reason" o) a w,
  hold-Keeps (client_at (prop "client_id" o) (w.objects a).clients) w,
)
primary_text-Keeps _ a w = refl

on_message-Keeps :
    (parse : String → Option Json) (s : ℕ) (d : Data) (l : Listener)
    → Keeps (on_message parse s d l)
unfolding on_message
on_message-Keeps parse s (text t) (primary_message a) w = primary_text-Keeps (parse t) a w
on_message-Keeps parse s (binary b) (forward_to t) w = if-holds (Same w) (w.is_open t) _ w refl refl
on_message-Keeps parse s d _ w = refl

close_daemon-Keeps : (o : Option ℕ) → Keeps (close_daemon o)
unfolding close_daemon
close_daemon-Keeps none w = refl
close_daemon-Keeps (some d) w = refl

leave_daemon-Keeps : (o : Option ℕ) → Keeps (leave_daemon o)
unfolding leave_daemon
leave_daemon-Keeps none w = refl
leave_daemon-Keeps (some d) w = refl

disconnect_each-Keeps : (cs : List (String × ClientEntry)) → Keeps (disconnect_each cs)
unfolding disconnect_each
disconnect_each-Keeps [] w = refl
disconnect_each-Keeps ((id, ce) ∷ cs) w =
    disconnect_each-Keeps cs _ ∙ close_daemon-Keeps ce.daemon _

tear_down-Keeps : (o : Option ℕ) (h : String) (s : ℕ) → Keeps (tear_down o h s)
unfolding tear_down
tear_down-Keeps none h s w = refl
tear_down-Keeps (some a) h s w =
    if-holds (Same w) ((w.objects a).primary == s) _ w
      (disconnect_each-Keeps (w.objects a).clients w) refl

client_left-Keeps : (o : Option ℕ) (id : String) (s : ℕ) → Keeps (client_left o id s)
unfolding client_left client_gone
client_left-Keeps none id s w = refl
client_left-Keeps (some a) id s w = gone _ a
  where
    gone : (o : Option ClientEntry) (a : ℕ) → (client_gone o a id s w).listeners ≡ w.listeners
    gone none a = refl
    gone (some ce) a = if-holds (Same w) (ce.client == s) _ w (leave_daemon-Keeps ce.daemon w) refl

daemon_left-Keeps : (o : Option ℕ) (id : String) (s : ℕ) → Keeps (daemon_left o id s)
unfolding daemon_left daemon_gone
daemon_left-Keeps none id s w = refl
daemon_left-Keeps (some a) id s w = gone _ a
  where
    gone : (o : Option ClientEntry) (a : ℕ) → (daemon_gone o a id s w).listeners ≡ w.listeners
    gone none a = refl
    gone (some ce) a = if-holds (Same w) _ _ w refl refl

on_close-Keeps : (s : ℕ) (l : Listener) → Keeps (on_close s l)
unfolding on_close
on_close-Keeps s (primary_close h) w = tear_down-Keeps _ h s w
on_close-Keeps s (client_close h id) w = client_left-Keeps _ id s w
on_close-Keeps s (daemon_close h id) w = daemon_left-Keeps _ id s w
on_close-Keeps s _ w = refl

each_listener-Keeps :
    (f : Listener → World → World) (s : ℕ) (ls : List (ℕ × Listener))
    → ((l : Listener) → Keeps (f l))
    → Keeps (each_listener f s ls)
unfolding each_listener
each_listener-Keeps f s [] k w = refl
each_listener-Keeps f s ((i, l) ∷ ls) k w =
    each_listener-Keeps f s ls k _ ∙ if-holds (Same w) (i == s) (f l w) w (k l w) refl

add_primary-Has :
    (p : ℕ × Listener) (o : Option ℕ) (h : String) (ws : ℕ) (label : Option String) (w : World)
    → Has p w
    → Has p (add_primary o h ws label w).0
unfolding add_primary
add_primary-Has p (some a) h ws label w x = x
add_primary-Has p none h ws label w x =
    Occurs-append_left p _ _ (Occurs-append_left p w.listeners _ x)

add_client-Has :
    (p : ℕ × Listener) (o : Option ℕ) (h : String) (ws : ℕ) (token : Option String)
    (meta : Option Meta) (id : String) (w : World)
    → Has p w
    → Has p (add_client o h ws token meta id w).0
unfolding add_client
add_client-Has p none h ws token meta id w x = x
add_client-Has p (some a) h ws token meta id w x = Occurs-append_left p w.listeners _ x

find_client-Has :
    (p : ℕ × Listener) (o : Option ℕ) (h id : String) (ws : ℕ) (w : World)
    → Has p w
    → Has p (find_client o h id ws w).0
unfolding find_client add_daemon
find_client-Has p none h id ws w x = x
find_client-Has p (some a) h id ws w x = added _
  where
    added : (o : Option ClientEntry) → Has p (add_daemon o a h id ws w).0
    added none = x
    added (some ce) =
        Occurs-append_left p _ _ (Occurs-append_left p _ _ (Occurs-append_left p w.listeners _ x))

module _ (parse : String → Option Json) where
  step-Has : (p : ℕ × Listener) (e : Event) (w : World) → Has p w → Has p (step parse e w)
  unfolding step register_daemon register_client register_daemon_for_client
  step-Has p (daemon_came h ws label) w x = add_primary-Has p _ h ws label w x
  step-Has p (client_came h ws token meta id) w x = add_client-Has p _ h ws token meta id w x
  step-Has p (daemon_for h id ws) w x = find_client-Has p _ h id ws w x
  step-Has p (message s d) w x =
      subst (Occurs p)
        (sym
          (each_listener-Keeps (on_message parse s d) s w.listeners (on_message-Keeps parse s d) w))
        x
  step-Has p (closing s) w x = x
  step-Has p (socket_closed s) w x =
      subst (Occurs p) (sym (each_listener-Keeps (on_close s) s w.listeners (on_close-Keeps s) _)) x

  run-Has : (p : ℕ × Listener) (es : List Event) (w : World) → Has p w → Has p (run parse es w)
  unfolding run
  run-Has p [] w x = x
  run-Has p (e ∷ es) w x = run-Has p es _ (step-Has p e w x)

  -- A binary frame only makes the listeners forward it.
  frame_out :
      (s : ℕ) (b : Bytes) (l : Listener) (c : Call) (w : World)
      → Occurs c w.out
      → Occurs c (on_message parse s (binary b) l w).out
  unfolding on_message
  frame_out s b (forward_to t) c w x =
      ground (arith, x, Occurs-append_left c w.out (forwarded s t b ∷ []) x)
  frame_out s b (primary_message a) c w x = x
  frame_out s b (primary_close h) c w x = x
  frame_out s b (client_close h id) c w x = x
  frame_out s b (daemon_close h id) c w x = x

  frame_open :
      (s : ℕ) (b : Bytes) (l : Listener) (w : World)
      → (on_message parse s (binary b) l w).is_open ≡ w.is_open
  unfolding on_message
  frame_open s b (forward_to t) w = ground arith
  frame_open s b (primary_message a) w = refl
  frame_open s b (primary_close h) w = refl
  frame_open s b (client_close h id) w = refl
  frame_open s b (daemon_close h id) w = refl

  loop_keeps :
      (s : ℕ) (b : Bytes) (c : Call) (ls : List (ℕ × Listener)) (w : World)
      → Occurs c w.out
      → Occurs c (each_listener (on_message parse s (binary b)) s ls w).out
  unfolding each_listener
  loop_keeps s b c [] w x = x
  loop_keeps s b c ((i, l) ∷ ls) w x =
      loop_keeps s b c ls _ (ground (arith, x, frame_out s b l c w x))

  forwards_now :
      (s t : ℕ) (b : Bytes) (w : World)
      → w.is_open t ≡ true
      → Occurs
          (forwarded s t b)
          (if s == s then on_message parse s (binary b) (forward_to t) w else w).out
  unfolding on_message
  forwards_now s t b w o =
      ground
        (arith, o, Occurs-append_right (forwarded s t b) w.out (forwarded s t b ∷ []) (inl refl))

  loop_forwards :
      (s t : ℕ) (b : Bytes) (ls : List (ℕ × Listener)) (w : World)
      → Occurs (s, forward_to t) ls
      → w.is_open t ≡ true
      → Occurs (forwarded s t b) (each_listener (on_message parse s (binary b)) s ls w).out
  unfolding each_listener
  loop_forwards s t b [] w x o = absurd x
  loop_forwards s t b ((i, l) ∷ ls) w (inl e) o = loop_keeps s b (forwarded s t b) ls _ (
      subst
        (λ p.
          Occurs (forwarded s t b)
            (if p.0 == s then on_message parse s (binary b) p.1 w else w).out)
        e (forwards_now s t b w o))
  loop_forwards s t b ((i, l) ∷ ls) w (inr x) o =
      loop_forwards s t b ls _ x (ground (arith, o, frame_open s b l w))

  -- The two sockets as the registry pairs them.
  abbrev Links : ℕ → ClientEntry → World → Type 0
  Links d ce w = Has (d, forward_to ce.client) w × Has (ce.client, forward_to d) w

  linked_now :
      (h id : String) (a : ℕ) (ce : ClientEntry) (d : ℕ) (w : World)
      → Links d ce (add_daemon (some ce) a h id d w).0
  unfolding add_daemon
  linked_now h id a ce d w = (
    Occurs-append_left (d, forward_to ce.client) _ _
        (Occurs-append_left (d, forward_to ce.client) _ _
          (Occurs-append_right (d, forward_to ce.client) w.listeners _ (inl refl))),
    Occurs-append_left (ce.client, forward_to d) _ _
        (Occurs-append_right (ce.client, forward_to d)
          (w.listeners ++ ((d, forward_to ce.client) ∷ [])) _ (inl refl)),
  )

  linked_later :
      (h id : String) (a : ℕ) (ce : ClientEntry) (d : ℕ) (es : List Event) (w : World)
      → get h w.entries ≡ some a
      → get id (w.objects a).clients ≡ some ce
      → Links d ce (run parse (daemon_for h id d ∷ es) w)
  unfolding run step register_daemon_for_client find_client
  linked_later h id a ce d es w here there =
      (run-Has (d, forward_to ce.client) es _ now.0, run-Has (ce.client, forward_to d) es _ now.1)
    where
      now : Links d ce (find_client (get h w.entries) h id d w).0
      now =
          subst (λ o. Links d ce (find_client o h id d w).0) (sym here)
            (subst (λ o. Links d ce (add_daemon o a h id d w).0) (sym there)
              (linked_now h id a ce d w))

  -- After a daemon socket has answered a waiting client, and whatever happened since, a binary
  -- frame of either is forwarded to the other when both are still open.
  pub run-forwards :
      (h id : String) (a : ℕ) (ce : ClientEntry) (d : ℕ) (es : List Event) (b : Bytes) (w : World)
      → get h w.entries ≡ some a
      → get id (w.objects a).clients ≡ some ce
      → (run parse (daemon_for h id d ∷ es) w).is_open d ≡ true
      → (run parse (daemon_for h id d ∷ es) w).is_open ce.client ≡ true
      → Occurs
          (forwarded ce.client d b)
          (step parse (message ce.client (binary b)) (run parse (daemon_for h id d ∷ es) w)).out
        × Occurs
            (forwarded d ce.client b)
            (step parse (message d (binary b)) (run parse (daemon_for h id d ∷ es) w)).out
  unfolding step
  run-forwards h id a ce d es b w here there open_d open_c = (
    loop_forwards ce.client d b _ _ (linked_later h id a ce d es w here there).1 open_d,
    loop_forwards d ce.client b _ _ (linked_later h id a ce d es w here there).0 open_c,
  )
