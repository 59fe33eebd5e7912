-- ===== src/Approval/Tests.antt =====
-- The daemon's approval of clients at concrete inputs.
use pty_relay.Base.{
  ℕ, ◌≤◌, String, true, false, none, some, List, [], ◌∷◌, ◌≡◌, ◌≢◌, refl, All, length, arith,
  eq_iff, not, ◌==◌,
}
use pty_relay.Base.Dict.{get, set, delete}
use pty_relay.Approval.Tokens.{
  Status, active, revoked, pending, ClientToken, find, find_token_by_exact_id, find_token_by_id,
  starts_with, filter, is_active, clients_revoke, revoke_found, change,
}
use pty_relay.Approval.Queue.{
  Mutator, Faults, loaded, Reach, start as started, later, call, load, mutate, save, resolved,
  empty_queue,
}
use pty_relay.Approval.Queue.Atomic.{AtomicReach, Reach-refines}
use pty_relay.Approval.Changes.{IsChanged, revoked_at_time, status_of, clients_revoke_lem}
use pty_relay.Approval.Daemon.{
  State, Event, client_waiting, resumed, signal, has_status, step, run, start, act_on, approve_each,
  to_approve, to_revoke, teardown_each, teardown_client, tear_down_by, on_client_waiting,
  look_token, resume_taken, take_task, resume, with_token, by_status,
}
use pty_relay.Approval.Daemon.Authorized.{Allows, run-Allows}
use pty_relay.Approval.Daemon.Signal.{act_on_lem}
use pty_relay.Approval.Daemon.Bounded.{run-le}
use pty_relay.Approval.Daemon.Keeping.{run-active}

abbrev token : String → Status → ClientToken
token id status = record {
  id = id;
  label = none;
  status = status;
  client_id = none;
  created = "t0";
  revoked_at = none;
  pending_meta = none;
}

abbrev stored : List ClientToken
stored = token "abc" active ∷ token "def" revoked ∷ token "xyz" pending ∷ []

abbrev draw : ℕ → String
draw n = "new"

abbrev events : List Event
events =
    client_waiting "c1" (some "abc") none
    ∷ client_waiting "c2" none none
    ∷ resumed 0 "t1"
    ∷ resumed 1 "t1"
    ∷ signal
    ∷ []

run-Allows_example :
    All
      (Allows (run false draw events (start false draw "t" stored)).seen)
      (run false draw events (start false draw "t" stored)).out
run-Allows_example = run-Allows draw events "t" stored

run-le_example : length (run true draw events (start true draw "t" stored)).sessions ≤ 10
run-le_example = run-le draw events "t" stored

-- A daemon with one session of a revoked token.
abbrev one : State
one = record (start true draw "t" stored) {
  sessions = ("c1", some "abc") ∷ ("c2", some "def") ∷ [];
}

one_after : get "c1" (act_on stored one).sessions ≡ some (some "abc")
unfolding act_on to_approve to_revoke approve_each teardown_each teardown_client tear_down_by get
    delete find find_token_by_exact_id
one_after = refl

act_on_lem_example : status_of "abc" stored ≢ some revoked
act_on_lem_example =
    act_on_lem stored "c1" "abc" one (ground (arith, eq_iff "abc" ""))
      ((ground (arith, eq_iff "c2" "c1"), tt), (tt, tt)) one_after

run-active_example : has_status is_active (find_token_by_exact_id "abc" stored) ≡ true
unfolding run step on_client_waiting look_token find find_token_by_exact_id
run-active_example =
    run-active false draw "abc" (client_waiting "c1" (some "abc") none ∷ [])
      (record one { tokens = stored }) (tt, tt) refl

clients_revoke_lem_example : IsChanged (revoked_at_time "t2") (find_token_by_id "a" stored) stored (
    record (token "abc" revoked) { revoked_at = some "t2" }
    ∷ token "def" revoked
    ∷ token "xyz" pending
    ∷ [])
unfolding clients_revoke revoke_found find_token_by_id find_token_by_exact_id find filter
    starts_with change
clients_revoke_lem_example = clients_revoke_lem "a" "t2" stored _ refl

-- Two clients that wait while nine are let in are both let in, behind their loads.
abbrev nine : State
nine = record one {
  sessions =
      ("1", none)
      ∷ ("2", none)
      ∷ ("3", none)
      ∷ ("4", none)
      ∷ ("5", none)
      ∷ ("6", none)
      ∷ ("7", none)
      ∷ ("8", none)
      ∷ ("9", none)
      ∷ [];
  tokens = stored;
}

eleven :
    length
      (run false draw
        (client_waiting "a" (some "abc") none
          ∷ client_waiting "b" (some "abc") none
          ∷ resumed 0 "t"
          ∷ resumed 0 "t"
          ∷ resumed 0 "t"
          ∷ resumed 0 "t"
          ∷ [])
        nine).sessions
    ≡ 11
unfolding run step on_client_waiting look_token resume_taken take_task resume with_token by_status
    find find_token_by_exact_id set
eleven = refl

-- Two changes that are called together, with the second called while the first runs.
abbrev drop_all : Mutator
drop_all ts = some []

abbrev fail : Mutator
fail ts = none

-- The second load fails, and the third save.
abbrev faults : Faults
faults = record { loads = λ n. not (n == 1); saves = λ n. not (n == 2) }

interleaved :
    Reach faults stored (record {
      stored = [];
      phase = loaded fail [];
      jobs = [];
      turn = 1;
      outcomes = resolved ∷ [];
    })
interleaved =
    later
      (later
        (later
          (later
            (later (later started (call (empty_queue stored) drop_all))
              (load stored [] drop_all 0 []))
            (call _ fail))
          (mutate stored stored [] (fail ∷ []) drop_all 0 [] refl))
        (save stored [] (fail ∷ []) drop_all 0 [] refl))
      (load [] [] fail 1 (resolved ∷ []))

Reach-refines_example :
    AtomicReach faults stored
      (1, record { stored = []; jobs = fail ∷ []; outcomes = resolved ∷ [] })
Reach-refines_example = Reach-refines faults interleaved
