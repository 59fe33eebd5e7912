-- ===== src/Hosts/Resolve/Reached.antt =====
-- Which host a label reaches, over the merge with the peers file.
use pty_relay.Base.{
  String, true, Option, some, List, [], ◌∷◌, ◌++◌, ◌≡◌, ap, inl, inr, Bytes, Occurs, arith, eq_iff,
}
use pty_relay.Hosts.{KnownHost, has_label, labels, Platform, load_all_known_hosts}
use pty_relay.Hosts.Label.{Injective}
use pty_relay.Hosts.Stored.{AllDistinct}
use pty_relay.Hosts.Merge.{load_all_known_hosts_extends}
use pty_relay.Hosts.Resolve.{PublicAccount, find_host, resolve_found, resolve_host}

label-Occurs :
    (h : KnownHost) (hs : List KnownHost) → Occurs h hs → has_label h.label (labels hs) ≡ true
unfolding has_label
label-Occurs h [] o = absurd o
label-Occurs h (x ∷ hs) (inl e) =
    ground (arith, eq_iff x.label h.label, ap (λ (k : KnownHost). k.label) e)
label-Occurs h (x ∷ hs) (inr o) = ground (arith, label-Occurs h hs o)

find_host-append :
    (h : KnownHost) (hs added : List KnownHost)
    → AllDistinct (labels hs)
    → Occurs h hs
    → find_host h.label (hs ++ added) ≡ some h
unfolding find_host
find_host-append h [] added d o = absurd o
find_host-append h (x ∷ hs) added d (inl e) =
    ground (arith, e, eq_iff x.label h.label, ap (λ (k : KnownHost). k.label) e)
find_host-append h (x ∷ hs) added d (inr o) =
    ground
      (arith, d.0, eq_iff x.label h.label, label-Occurs h hs o, find_host-append h hs added d.1 o)

-- Every stored host is what its own label resolves to, whatever the peers file has, when no label
-- stands twice in the store and the texts of different numbers are different.
pub resolve_host_stored :
    (p : Platform) (injective : Injective p.number_text) (from_base64 : String → Option Bytes)
    (stored from_file : List KnownHost) (h : KnownHost) (account : Option PublicAccount)
    → AllDistinct (labels stored)
    → Occurs h stored
    → (merged : List KnownHost) × (load_all_known_hosts p stored from_file ≡ some merged)
      × (resolve_host from_base64 h.label merged account
          ≡ resolve_found from_base64 (some h) h.label account)
unfolding resolve_host
resolve_host_stored p injective from_base64 stored from_file h account d o =
    let (added, same, rest0, rest1) = load_all_known_hosts_extends p injective stored from_file d in
    (
      stored ++ added,
      same,
      ap (λ f. resolve_found from_base64 f h.label account) (find_host-append h stored added d o),
    )
