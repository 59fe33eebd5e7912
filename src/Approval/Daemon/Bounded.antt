-- ===== src/Approval/Daemon/Bounded.antt =====
-- The number of sessions when every client is let in.
use pty_relay.Base.{
  ℕ, ◌≤◌, String, Bool, true, false, Option, none, some, List, [], ◌∷◌, ◌≡◌, refl, subst, sym, ap,
  ◌∙◌, All, arith, leb, length, if◌then◌else◌,
}
use pty_relay.Base.Dict.{get, delete, length-set-le, length-delete-le, All-get, All-set, All-delete}
use pty_relay.Approval.Tokens.{ClientToken, PendingMeta}
use pty_relay.Approval.Daemon.{
  max_clients, State, open_client_connection, tear_down_by, teardown_client, teardown_each, keys,
  resume_taken, take_task, timed_out, forget_pending, labelled_by, emit, reject_client,
  clear_timers, on_client_waiting, Event, client_waiting, resumed, timeout, client_disconnected,
  session_ended, hello, primary_closed, signal, written, step, run, start,
}

-- At most ten sessions, none with a token, nobody pending, and nothing to go on with.
pub record Inv (s : State) : Type 0 where
  pub few : length s.sessions ≤ max_clients
  pub open_to_all : All (λ (p : String × Option String). p.1 ≡ none) s.sessions
  pub no_timers : s.timers ≡ []
  pub no_tasks : s.tasks ≡ []

tear_down_by-Inv :
    (o : Option (Option String)) (id : String) (s : State) → Inv s → Inv (tear_down_by o id s)
unfolding tear_down_by
tear_down_by-Inv none id s v = v
tear_down_by-Inv (some token) id s v = record {
  few = omega (arith, v.few, length-delete-le id s.sessions);
  open_to_all = All-delete (λ (p : String × Option String). p.1 ≡ none) id s.sessions v.open_to_all;
  no_timers = v.no_timers;
  no_tasks = v.no_tasks;
}

teardown_each-Inv : (ids : List String) (s : State) → Inv s → Inv (teardown_each ids s)
unfolding teardown_each teardown_client
teardown_each-Inv [] s v = v
teardown_each-Inv (id ∷ ids) s v = teardown_each-Inv ids _ (tear_down_by-Inv _ id s v)

module _ (draw : ℕ → String) where
  waiting-Inv :
      (id : String) (token : Option String) (meta : Option PendingMeta) (s : State)
      → Inv s
      → Inv (on_client_waiting true draw id token meta s)
  unfolding on_client_waiting
  waiting-Inv id token meta s v = by _ refl
    where
      by :
          (full : Bool)
          → leb max_clients (length s.sessions) ≡ full
          → Inv (
              if full
              then emit (reject_client id "max clients reached") s
              else open_client_connection id none s)
      by true e = record {
        few = v.few;
        open_to_all = v.open_to_all;
        no_timers = v.no_timers;
        no_tasks = v.no_tasks;
      }
      by false e = record {
        few = ground (arith, e, length-set-le id none s.sessions);
        open_to_all =
            All-set (λ (p : String × Option String). p.1 ≡ none) id none s.sessions refl
              v.open_to_all;
        no_timers = v.no_timers;
        no_tasks = v.no_tasks;
      }

  resumed-Inv :
      (i : ℕ) (now : String) (s : State)
      → Inv s
      → Inv (resume_taken true draw (take_task i s.tasks) now s)
  unfolding resume_taken take_task
  resumed-Inv i now s v =
      subst (λ ts. Inv (resume_taken true draw (take_task i ts) now s)) (sym v.no_tasks) v

  timed_out-Inv :
      (token : String) (s : State) → Inv s → Inv (timed_out (get token s.timers) token s)
  unfolding timed_out get
  timed_out-Inv token s v = subst (λ ts. Inv (timed_out (get token ts) token s)) (sym v.no_timers) v

  forget-Inv : (o : Option String) (id : String) (s : State) → Inv s → Inv (forget_pending o id s)
  unfolding forget_pending delete
  forget-Inv none id s v = v
  forget-Inv (some token) id s v = record {
    few = v.few;
    open_to_all = v.open_to_all;
    no_timers = ap (delete token) v.no_timers;
    no_tasks = v.no_tasks;
  }

  labelled-Inv :
      (o : Option (Option String)) (id text : String) (s : State)
      → get id s.sessions ≡ o
      → Inv s
      → Inv (labelled_by o text s)
  unfolding labelled_by
  labelled-Inv none id text s e v = v
  labelled-Inv (some none) id text s e v = v
  labelled-Inv (some (some token)) id text s e v = absurd (
      ground (
        arith,
        All-get (λ (p : String × Option String). p.1 ≡ none) id (some token) s.sessions
            v.open_to_all e,
      ))

  clear_timers-nil : (ps : List (String × String)) → clear_timers ps [] ≡ []
  unfolding clear_timers delete
  clear_timers-nil [] = refl
  clear_timers-nil ((id, token) ∷ ps) = clear_timers-nil ps

  closed-Inv :
      (s : State)
      → Inv s
      → Inv (record s { timers = clear_timers s.waiting s.timers; waiting = [] })
  closed-Inv s v = record {
    few = v.few;
    open_to_all = v.open_to_all;
    no_timers = ap (clear_timers s.waiting) v.no_timers ∙ clear_timers-nil s.waiting;
    no_tasks = v.no_tasks;
  }

  step-Inv : (e : Event) (s : State) → Inv s → Inv (step true draw e s)
  unfolding step teardown_client
  step-Inv (client_waiting id token meta) s v = waiting-Inv id token meta s v
  step-Inv (resumed i now) s v = resumed-Inv i now s v
  step-Inv (timeout token) s v = timed_out-Inv token s v
  step-Inv (client_disconnected id) s v = tear_down_by-Inv _ id _ (forget-Inv _ id s v)
  step-Inv (session_ended id) s v = tear_down_by-Inv _ id s v
  step-Inv (hello id label client) s v = labelled-Inv _ id _ s refl v
  step-Inv primary_closed s v = closed-Inv _ (teardown_each-Inv (keys s.sessions) s v)
  step-Inv signal s v = v
  step-Inv (written ts) s v = record {
    few = v.few;
    open_to_all = v.open_to_all;
    no_timers = v.no_timers;
    no_tasks = v.no_tasks;
  }

  run-Inv : (es : List Event) (s : State) → Inv s → Inv (run true draw es s)
  unfolding run
  run-Inv [] s v = v
  run-Inv (e ∷ es) s v = run-Inv es _ (step-Inv e s v)

  -- With approval off there are never more than ten sessions.
  pub run-le :
      (es : List Event) (now : String) (ts : List ClientToken)
      → length (run true draw es (start true draw now ts)).sessions ≤ 10
  run-le es now ts =
      (run-Inv es (start true draw now ts)
        (record { few = ground arith; open_to_all = tt; no_timers = refl; no_tasks = refl })).few
