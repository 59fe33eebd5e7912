-- ===== src/Approval/Changes.antt =====
-- What the daemon and the commands do to the stored tokens.
use pty_relay.Base.{
  String, Option, none, some, List, [], ◌∷◌, ◌≡◌, refl, arith, str_eq, eq_iff, if◌then◌else◌,
}
use pty_relay.Approval.Tokens.{
  Status, active, revoked, ClientToken, find, find_token_by_exact_id, find_token_by_id, change,
  approved, revoked_now, saved, approve_found, clients_approve, revoke_found, clients_revoke,
}

-- The status that an id has.
abbrev pub status_of : String → List ClientToken → Option Status
status_of id ts = elim (find_token_by_exact_id id ts) [ none ↦ none | some t ↦ some t.status ]

find-change :
    (id k : String) (f : ClientToken → ClientToken) (ts : List ClientToken)
    → ((t : ClientToken) → (f t).id ≡ t.id)
    → find_token_by_exact_id k (change id f ts) ≡ (
        if str_eq id k
        then elim (find_token_by_exact_id k ts) [ none ↦ none | some t ↦ some (f t) ]
        else find_token_by_exact_id k ts)
unfolding find_token_by_exact_id find change
find-change id k f [] h = ground (arith, eq_iff id k)
find-change id k f (t ∷ ts) h = ground (
  arith,
  h t,
  eq_iff t.id id,
  eq_iff t.id k,
  eq_iff id k,
  eq_iff (f t).id k,
  find-change id k f ts h,
)

-- What a token is after its approval, and after its revocation at the time `now`.
abbrev pub made_active : ClientToken → ClientToken
made_active t = record {
  id = t.id;
  label = t.label;
  status = active;
  client_id = none;
  created = t.created;
  revoked_at = t.revoked_at;
  pending_meta = t.pending_meta;
}

abbrev pub revoked_at_time : String → ClientToken → ClientToken
revoked_at_time now t = record {
  id = t.id;
  label = t.label;
  status = revoked;
  client_id = none;
  created = t.created;
  revoked_at = some now;
  pending_meta = t.pending_meta;
}

-- A command that changed one token, by `f`.
abbrev pub IsChanged :
    (ClientToken → ClientToken) → Option ClientToken → List ClientToken → List ClientToken → Type 0
IsChanged f none ts ts' = ⊥
IsChanged f (some t) ts ts' =
    (k : String)
    → find_token_by_exact_id k ts' ≡ (
        if str_eq t.id k
        then elim (find_token_by_exact_id k ts) [ none ↦ none | some u ↦ some (f u) ]
        else find_token_by_exact_id k ts)

approve_found-IsChanged :
    (o : Option ClientToken) (ts ts' : List ClientToken)
    → approve_found o ts ≡ saved ts'
    → IsChanged made_active o ts ts'
unfolding approve_found
approve_found-IsChanged none ts ts' e = absurd (ground arith)
approve_found-IsChanged (some t) ts ts' e =
    λ k. ground (arith, e, find-change t.id k approved ts (λ u. refl))

revoke_found-IsChanged :
    (o : Option ClientToken) (now : String) (ts ts' : List ClientToken)
    → revoke_found o now ts ≡ saved ts'
    → IsChanged (revoked_at_time now) o ts ts'
unfolding revoke_found
revoke_found-IsChanged none now ts ts' e = absurd (ground arith)
revoke_found-IsChanged (some t) now ts ts' e =
    λ k. ground (arith, e, find-change t.id k (revoked_now now) ts (λ u. refl))

-- A revocation that is saved found a token by the id or the prefix, and afterwards the first token
-- with its id has the status revoked, that time and no client id, and is the same in all else, and
-- every other id finds what it found.
pub clients_revoke_lem :
    (id now : String) (ts ts' : List ClientToken)
    → clients_revoke id now ts ≡ saved ts'
    → IsChanged (revoked_at_time now) (find_token_by_id id ts) ts ts'
unfolding clients_revoke
clients_revoke_lem id now ts ts' e = revoke_found-IsChanged (find_token_by_id id ts) now ts ts' e

-- An approval that is saved found a token by the id or the prefix, and afterwards the first token
-- with its id is active, without a client id, and every other id finds what it found.
clients_approve_lem :
    (id : String) (ts ts' : List ClientToken)
    → clients_approve id ts ≡ saved ts'
    → IsChanged made_active (find_token_by_id id ts) ts ts'
unfolding clients_approve
clients_approve_lem id ts ts' e = approve_found-IsChanged (find_token_by_id id ts) ts ts' e
