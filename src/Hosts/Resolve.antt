-- ===== src/Hosts/Resolve.antt =====
-- src/relay/host-resolve.ts: what a label on the command line stands for.
pub mod Reached
use pty_relay.Base.{
  String, Bool, true, false, not, ◌&&◌, Option, none, some, List, [], ◌∷◌, Bytes, str_eq,
  if◌then◌else◌,
}
use pty_relay.Hosts.{KnownHost}

-- `PublicTarget`, and `ResolvedHost`.
pub record PublicTarget : Type 0 where
  pub relay_url : String
  pub target_public_key : String
  pub public_bytes : Bytes
  pub secret_bytes : Bytes

pub data ResolvedHost : Type 0 where
  self : String → Option String → ResolvedHost
  public : String → PublicTarget → Option String → ResolvedHost
  ssh : String → String → ResolvedHost

-- The errors of `resolveHost`; the last is an exception of libsodium.
pub data ResolveError : Type 0 where
  no_known_peer not_enrolled no_client_key bad_key : ResolveError
  other_relay : String → String → ResolveError

pub data Resolution : Type 0 where
  resolved : ResolvedHost → Resolution
  failed : ResolveError → Resolution

-- The relay of the account on this device, and the texts of the keys of its client key.
pub record PublicAccount : Type 0 where
  pub relay_url : String
  pub client_key : Option (String × String)

-- `hosts.find((h) => h.label === label)`
unfoldable pub find_host : String → List KnownHost → Option KnownHost
find_host label [] = none
find_host label (h ∷ hs) = if str_eq h.label label then some h else find_host label hs

-- `from_base64` is that of libsodium; `none` is an exception.
module _ (from_base64 : String → Option Bytes) where
  unfoldable pub with_keys :
      Option Bytes → Option Bytes → String → String → String → Option String → Resolution
  with_keys none secret label relay_url key role = failed bad_key
  with_keys (some k) none label relay_url key role = failed bad_key
  with_keys (some k) (some s) label relay_url key role = resolved (
      public label
        (record {
          relay_url = relay_url;
          target_public_key = key;
          public_bytes = k;
          secret_bytes = s;
        })
        role)

  unfoldable pub with_client_key :
      Option (String × String) → String → String → String → Option String → Resolution
  with_client_key none label relay_url key role = failed no_client_key
  with_client_key (some (k, s)) label relay_url key role =
      with_keys (from_base64 k) (from_base64 s) label relay_url key role

  unfoldable pub with_account :
      Option PublicAccount → String → String → String → Option String → Resolution
  with_account none label relay_url key role = failed not_enrolled
  with_account (some a) label relay_url key role =
      if str_eq a.relay_url relay_url
      then with_client_key a.client_key label relay_url key role
      else failed (other_relay relay_url a.relay_url)

  -- A host that is not an ssh peer; it is public when it has a relay and a key.
  unfoldable pub relay_host :
      Option String → Option String → String → KnownHost → Option PublicAccount → Resolution
  relay_host (some relay_url) (some key) label h account =
      with_account account label relay_url key h.role
  relay_host _ _ label h account = resolved (self label h.url)

  unfoldable pub by_ssh : Option String → String → KnownHost → Option PublicAccount → Resolution
  by_ssh (some url) label h account = resolved (ssh label url)
  by_ssh none label h account = relay_host h.relay_url h.public_key label h account

  unfoldable pub resolve_found : Option KnownHost → String → Option PublicAccount → Resolution
  resolve_found none label account = failed no_known_peer
  resolve_found (some h) label account = by_ssh h.ssh_url label h account

  -- `resolveHost(label)` over the hosts that `loadAllKnownHosts` gives
  unfoldable pub resolve_host : String → List KnownHost → Option PublicAccount → Resolution
  resolve_host label hosts account = resolve_found (find_host label hosts) label account

-- `requireRelayHost`: the URL of a self-hosted peer, or the two errors.
pub data Required : Type 0 where
  self_url : String → Option String → Required
  not_over_ssh not_public : Required

unfoldable pub require_relay_host : ResolvedHost → Required
require_relay_host (self label url) = self_url label url
require_relay_host (public label target role) = not_public
require_relay_host (ssh label url) = not_over_ssh
