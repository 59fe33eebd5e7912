-- ===== src/Hosts/Tests.antt =====
-- The theorems on the stored hosts at concrete inputs.
use pty_relay.Base.{
  ℕ, zero, suc, ◌≤◌, String, false, none, some, List, [], ◌∷◌, ◌++◌, All, length, ◌≡◌, ◌≢◌, refl,
  sym, ◌∙◌, ap, inl, inr,
}
use pty_relay.Hosts.{
  KnownHost, host_of, has_label, labels, text_length, Platform, pick_unique_label, save_known_host,
  renamed, rename_known_host, relabel, load_all_known_hosts,
}
use pty_relay.Hosts.Label.{Injective, pick_unique_label_unused}
use pty_relay.Hosts.Stored.{AllDistinct, IsWithout, save_known_host_replaces}
use pty_relay.Js.{arr}
use pty_relay.Hosts.Load.{
  IsStorable, has_transport, parse_hosts, host_items, parse_hosts-host_items,
}
use pty_relay.Hosts.Merge.{load_all_known_hosts_extends}
use pty_relay.Hosts.Resolve.{resolve_found, resolve_host}
use pty_relay.Hosts.Resolve.Reached.{resolve_host_stored}

-- Numbers in unary.
abbrev tally : ℕ → String
tally zero = ""
tally (suc n) = String.◌∷◌ "1" (tally n)

text_length-tally : (n : ℕ) → text_length (tally n) ≡ n
unfolding text_length
text_length-tally zero = refl
text_length-tally (suc n) = ap suc (text_length-tally n)

tally-Injective : Injective tally
tally-Injective n m e = sym (text_length-tally n) ∙ ap text_length e ∙ text_length-tally m

-- Every URL is its own host.
abbrev unary : Platform
unary = record { number_text = tally; url_host = λ u. some u }

abbrev laptop : KnownHost
laptop = record {
  label = "laptop";
  url = some "http://a";
  relay_url = none;
  public_key = none;
  role = none;
  ssh_url = none;
}

abbrev desktop : KnownHost
desktop = record laptop { label = "desktop"; url = some "http://b" }

abbrev stored : List KnownHost
stored = laptop ∷ desktop ∷ []

stored-AllDistinct : AllDistinct (labels stored)
unfolding has_label
stored-AllDistinct = (refl, (refl, tt))

pick_unique_label_unused_example :
    (label : String) × (pick_unique_label unary "laptop" "abcd" ("laptop" ∷ "laptop-abcd" ∷ [])
      ≡ some label)
    × (has_label label ("laptop" ∷ "laptop-abcd" ∷ []) ≡ false)
pick_unique_label_unused_example =
    pick_unique_label_unused unary tally-Injective "laptop" "abcd" ("laptop" ∷ "laptop-abcd" ∷ [])

abbrev entry : String → KnownHost
entry l = record laptop { label = l }

save_known_host_replaces_example :
    (kept : List KnownHost) × (l : String) × (save_known_host unary "laptop" "http://a" stored
      ≡ some (kept ++ entry l ∷ []))
    × IsWithout unary "http://a" stored kept
    × All (λ k. host_of unary k.url ≢ some "http://a") kept
    × (has_label l (labels kept) ≡ false)
save_known_host_replaces_example =
    save_known_host_replaces unary tally-Injective "laptop" "http://a" "http://a" stored refl

laptop-renamed :
    rename_known_host "laptop" "work" stored
    ≡ renamed (record laptop { label = "work" } ∷ desktop ∷ [])
unfolding rename_known_host has_label relabel
laptop-renamed = refl

load_all_known_hosts_extends_example :
    (added : List KnownHost) × (load_all_known_hosts unary stored
        (laptop ∷ record laptop { label = "pi" } ∷ [])
      ≡ some (stored ++ added))
    × AllDistinct (labels (stored ++ added))
    × (length added ≤ 2)
load_all_known_hosts_extends_example =
    load_all_known_hosts_extends unary tally-Injective stored
      (laptop ∷ record laptop { label = "pi" } ∷ []) stored-AllDistinct

stored-IsStorable : All IsStorable stored
unfolding has_transport
stored-IsStorable =
    (record { transport = refl; role = refl }, (record { transport = refl; role = refl }, tt))

parse_hosts-host_items_example : parse_hosts (arr (host_items stored)) ≡ stored
parse_hosts-host_items_example = parse_hosts-host_items stored stored-IsStorable

resolve_host_stored_example :
    (merged : List KnownHost) × (load_all_known_hosts unary stored
        (record laptop { label = "pi" } ∷ [])
      ≡ some merged)
    × (resolve_host (λ s. none) "desktop" merged none
        ≡ resolve_found (λ s. none) (some desktop) "desktop" none)
resolve_host_stored_example =
    resolve_host_stored unary tally-Injective (λ s. none) stored
      (record laptop { label = "pi" } ∷ []) desktop none stored-AllDistinct (inr (inl refl))
