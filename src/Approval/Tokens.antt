-- ===== src/Approval/Tokens.antt =====
-- src/relay/clients.ts and src/commands/clients.ts: the stored tokens, their lookup, and the commands
-- that change them.
use Prim.Native.Char.{code}
use pty_relay.Base.{
  String, Bool, true, false, ◌&&◌, Option, none, some, List, [], ◌∷◌, ◌++◌, ◌==◌, str_eq,
  if◌then◌else◌,
}

pub data Status : Type 0 where
  active revoked pending : Status

pub record PendingMeta : Type 0 where
  pub remote_addr : Option String
  pub user_agent : Option String
  pub origin : Option String

-- `ClientToken`
pub record ClientToken : Type 0 where
  pub id : String
  pub label : Option String
  pub status : Status
  pub client_id : Option String
  pub created : String
  pub revoked_at : Option String
  pub pending_meta : Option PendingMeta

abbrev pub is_pending : Status → Bool
is_pending pending = true
is_pending _ = false

abbrev pub is_active : Status → Bool
is_active active = true
is_active _ = false

abbrev pub is_revoked : Status → Bool
is_revoked revoked = true
is_revoked _ = false

-- `data.tokens.find(…)`
unfoldable pub find : (ClientToken → Bool) → List ClientToken → Option ClientToken
find p [] = none
find p (t ∷ ts) = if p t then some t else find p ts

-- `findTokenByExactId(data, id)`
unfoldable pub find_token_by_exact_id : String → List ClientToken → Option ClientToken
find_token_by_exact_id id ts = find (λ t. str_eq t.id id) ts

-- `s.startsWith(prefix)`
unfoldable pub starts_with : String → String → Bool
starts_with String.[] s = true
starts_with (String.◌∷◌ a p) String.[] = false
starts_with (String.◌∷◌ a p) (String.◌∷◌ b s) = (code a == code b) && starts_with p s

unfoldable pub filter : (ClientToken → Bool) → List ClientToken → List ClientToken
filter p [] = []
filter p (t ∷ ts) = let rest = filter p ts in (if p t then t ∷ rest else rest)

-- `if (matches.length === 1) return matches[0]`
abbrev pub only : List ClientToken → Option ClientToken
only (t ∷ []) = some t
only _ = none

abbrev pub or_else : Option ClientToken → Option ClientToken → Option ClientToken
or_else (some t) o = some t
or_else none o = o

-- `findTokenById(data, id)`
unfoldable pub find_token_by_id : String → List ClientToken → Option ClientToken
find_token_by_id id ts =
    or_else (find_token_by_exact_id id ts) (only (filter (λ t. starts_with id t.id) ts))

-- `findPendingByClientId(data, clientId)`
abbrev pub is_client : String → Option String → Bool
is_client id none = false
is_client id (some c) = str_eq c id

unfoldable pub find_pending_by_client_id : String → List ClientToken → Option ClientToken
find_pending_by_client_id id ts = find (λ t. is_pending t.status && is_client id t.client_id) ts

-- A change of the first token with an id, in place.
unfoldable pub change : String → (ClientToken → ClientToken) → List ClientToken → List ClientToken
change id f [] = []
change id f (t ∷ ts) = if str_eq t.id id then f t ∷ ts else t ∷ change id f ts

abbrev pub approved : ClientToken → ClientToken
approved t = record t { status = active; client_id = none }

abbrev pub revoked_now : String → ClientToken → ClientToken
revoked_now now t = record t { status = revoked; revoked_at = some now; client_id = none }

-- What a command does: it finds no token, or one in a state that it refuses, or it saves.
pub data CommandResult : Type 0 where
  no_token : CommandResult
  refused : Status → CommandResult
  saved : List ClientToken → CommandResult

-- `clientsApprove(idOrPrefix)`
unfoldable pub approve_found : Option ClientToken → List ClientToken → CommandResult
approve_found none ts = no_token
approve_found (some t) ts =
    if is_pending t.status then saved (change t.id approved ts) else refused t.status

unfoldable pub clients_approve : String → List ClientToken → CommandResult
clients_approve id ts = approve_found (find_token_by_id id ts) ts

-- `clientsRevoke(idOrPrefix)` when the operator agrees, at the time `now`
unfoldable pub revoke_found : Option ClientToken → String → List ClientToken → CommandResult
revoke_found none now ts = no_token
revoke_found (some t) now ts =
    if is_revoked t.status then refused t.status else saved (change t.id (revoked_now now) ts)

unfoldable pub clients_revoke : String → String → List ClientToken → CommandResult
clients_revoke id now ts = revoke_found (find_token_by_id id ts) now ts

-- `label || null`
abbrev pub label_or_null : Option String → Option String
label_or_null none = none
label_or_null (some s) = if str_eq s "" then none else some s

-- `clientsInvite(label)` with the new token id
unfoldable pub clients_invite :
    Option String → String → String → List ClientToken → List ClientToken
clients_invite label id now ts =
    ts
    ++ (record {
      id = id;
      label = label_or_null label;
      status = active;
      client_id = none;
      created = now;
      revoked_at = none;
      pending_meta = none;
    }
        ∷ [])
