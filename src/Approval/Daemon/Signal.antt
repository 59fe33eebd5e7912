-- ===== src/Approval/Daemon/Signal.antt =====
-- What the SIGUSR1 handler leaves of the sessions.
use pty_relay.Base.{
  String, Bool, true, false, ◌||◌, Option, none, some, List, [], ◌∷◌, ◌≡◌, ◌≢◌, refl, arith, str_eq,
  eq_iff, if◌then◌else◌,
}
use pty_relay.Base.Dict.{get, IsMap, get-delete, delete-IsMap, set-IsMap}
use pty_relay.Approval.Tokens.{
  Status, active, revoked, pending, ClientToken, find_token_by_exact_id, is_revoked,
}
use pty_relay.Approval.Changes.{status_of}
use pty_relay.Approval.Daemon.{
  State, tear_down_by, teardown_client, teardown_each, approve_by, approve_client, approve_each,
  is_session_revoked, has_status, to_approve, to_revoke, act_on,
}

abbrev is_one_of : String → List String → Bool
is_one_of id [] = false
is_one_of id (x ∷ xs) = str_eq x id || is_one_of id xs

get-teardown_client :
    (id k : String) (s : State)
    → IsMap s.sessions
    → get k (teardown_client id s).sessions ≡ (if str_eq id k then none else get k s.sessions)
unfolding teardown_client tear_down_by
get-teardown_client id k s m = by _ refl
  where
    by :
        (o : Option (Option String))
        → get id s.sessions ≡ o
        → get k (tear_down_by o id s).sessions ≡ (if str_eq id k then none else get k s.sessions)
    by none e = ground (arith, eq_iff id k, e)
    by (some token) e = get-delete id k s.sessions m

teardown_client-IsMap :
    (id : String) (s : State) → IsMap s.sessions → IsMap (teardown_client id s).sessions
unfolding teardown_client tear_down_by
teardown_client-IsMap id s m = by (get id s.sessions)
  where
    by : (o : Option (Option String)) → IsMap (tear_down_by o id s).sessions
    by none = m
    by (some token) = delete-IsMap id s.sessions m

get-teardown_each :
    (ids : List String) (k : String) (s : State)
    → IsMap s.sessions
    → get k (teardown_each ids s).sessions ≡ (if is_one_of k ids then none else get k s.sessions)
unfolding teardown_each
get-teardown_each [] k s m = refl
get-teardown_each (id ∷ ids) k s m = ground (
  arith,
  get-teardown_each ids k (teardown_client id s) (teardown_client-IsMap id s m),
  get-teardown_client id k s m,
)

to_revoke-has :
    (ts : List ClientToken) (k : String) (token : Option String)
    (ss : List (String × Option String))
    → get k ss ≡ some token
    → is_session_revoked ts token ≡ true
    → is_one_of k (to_revoke ts ss) ≡ true
unfolding to_revoke get
to_revoke-has ts k token [] e r = absurd (ground arith)
to_revoke-has ts k token ((id, t) ∷ ss) e r =
    ground (arith, eq_iff id k, e, r, to_revoke-has ts k token ss)

approve_each-IsMap :
    (tokens : List String) (s : State) → IsMap s.sessions → IsMap (approve_each tokens s).sessions
unfolding approve_each approve_client approve_by
approve_each-IsMap [] s m = m
approve_each-IsMap (t ∷ tokens) s m = approve_each-IsMap tokens _ (by _)
  where
    by : (o : Option String) → IsMap (approve_by o t s).sessions
    by none = m
    by (some id) = set-IsMap id (some t) s.sessions m

kept_session :
    (ts : List ClientToken) (id : String) (token : Option String) (s : State)
    → IsMap s.sessions
    → get id (act_on ts s).sessions ≡ some token
    → is_session_revoked ts token ≡ false
unfolding act_on
kept_session ts id token s m e =
    let s' : State = approve_each (to_approve ts s.waiting) s in
    ground (
      arith,
      e,
      get-teardown_each (to_revoke ts s'.sessions) id s'
          (approve_each-IsMap (to_approve ts s.waiting) s m),
      to_revoke-has ts id token s'.sessions,
    )

has_status-revoked :
    (o : Option ClientToken)
    → has_status is_revoked o ≡ false
    → elim o [ none ↦ none | some t ↦ some t.status ] ≢ some revoked
has_status-revoked none h e = ground arith
has_status-revoked (some t) h e = by t.status h (ground (arith, e))
  where
    by : (x : Status) → is_revoked x ≡ false → x ≢ revoked
    by active h e = ground arith
    by revoked h e = ground arith
    by pending h e = ground arith

-- After the SIGUSR1 handler has acted on the tokens that it loaded, a session with a token that is
-- not empty is of no token that is stored as revoked, when no client had two sessions.
pub act_on_lem :
    (ts : List ClientToken) (id token : String) (s : State)
    → token ≢ ""
    → IsMap s.sessions
    → get id (act_on ts s).sessions ≡ some (some token)
    → status_of token ts ≢ some revoked
act_on_lem ts id token s named m e =
    let kept = kept_session ts id (some token) s m e in
    has_status-revoked (find_token_by_exact_id token ts)
      (ground (arith, kept, eq_iff token "", named))
