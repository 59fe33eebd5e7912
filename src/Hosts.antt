-- ===== src/Hosts.antt =====
-- src/relay/known-hosts.ts: the stored hosts, their labels, and the merge with the peers file. The store
-- is the list of its entries; a text is a list of characters.
pub mod Label
pub mod Stored
pub mod Merge
pub mod Load
pub mod Resolve
mod Tests
use pty_relay.Base.{
  ℕ, zero, suc, ◌+◌, String, Bool, true, false, not, ◌&&◌, Option, none, some, List, [], ◌∷◌, ◌++◌,
  map, ltb, length, str_eq, if◌then◌else◌,
}

-- `role` is the text of the role.
pub record KnownHost : Type 0 where
  pub label : String
  pub url : Option String
  pub relay_url : Option String
  pub public_key : Option String
  pub role : Option String
  pub ssh_url : Option String

-- `set.has(s)`, and `list.some((h) => h.label === s)` over the labels
unfoldable pub has_label : String → List String → Bool
has_label s [] = false
has_label s (x ∷ xs) = let rest = has_label s xs in (if str_eq x s then true else rest)

abbrev pub labels : List KnownHost → List String
labels hs = map (λ h. h.label) hs

-- `s.slice(0, n)` and `s.length`
unfoldable pub slice_to : ℕ → String → String
slice_to zero s = ""
slice_to (suc n) String.[] = ""
slice_to (suc n) (String.◌∷◌ ch s) = String.◌∷◌ ch (slice_to n s)

unfoldable pub text_length : String → ℕ
text_length String.[] = 0
text_length (String.◌∷◌ ch s) = suc (text_length s)

-- `${s}-${t}`
abbrev pub dashed : String → String → String
dashed s t = Prim.Native.String.◌++◌ s (Prim.Native.String.◌++◌ "-" t)

-- The loop that widens the prefix of the distinguisher from `width`.
unfoldable pub widen : ℕ → String → String → ℕ → List String → String
widen zero wanted distinguisher width used = dashed wanted (slice_to width distinguisher)
widen (suc fuel) wanted distinguisher width used =
    let rest = widen fuel wanted distinguisher (width + 4) used in
    (if has_label (dashed wanted (slice_to width distinguisher)) used
        && ltb width (text_length distinguisher)
      then rest
      else dashed wanted (slice_to width distinguisher))

-- What the code asks of the platform: a number as text, and `new URL(u).host`, `none` when it throws.
pub record Platform : Type 0 where
  pub number_text : ℕ → String
  pub url_host : String → Option String

module _ (p : Platform) where
  -- The loop over `${candidate}-${n}`; `none` when the fuel is used up.
  unfoldable pub numbered : ℕ → ℕ → String → List String → Option String
  numbered zero n candidate used = none
  numbered (suc fuel) n candidate used =
      let rest = numbered fuel (n + 1) candidate used in
      (if has_label (dashed candidate (p.number_text n)) used
        then rest
        else some (dashed candidate (p.number_text n)))

  abbrev pub numbers : String → List String → Option String
  numbers candidate used = numbered (suc (length used)) 2 candidate used

  -- `pickUniqueLabel(wanted, distinguisher, usedLabels)`
  unfoldable pub pick_by_candidate : String → List String → Option String
  pick_by_candidate candidate used =
      if has_label candidate used then numbers candidate used else some candidate

  unfoldable pub pick_unique_label : String → String → List String → Option String
  pick_unique_label wanted distinguisher used =
      if has_label wanted used
      then pick_by_candidate (widen (text_length distinguisher) wanted distinguisher 4 used) used
      else some wanted

  -- `kept.push({label: finalLabel, …})`
  unfoldable pub pushed :
      Option String → (String → KnownHost) → List KnownHost → Option (List KnownHost)
  pushed none entry kept = none
  pushed (some label) entry kept = some (kept ++ entry label ∷ [])

  -- What the three saves share, from the entries that stay.
  unfoldable pub save_into :
      List KnownHost → String → String → (String → KnownHost) → Option (List KnownHost)
  save_into kept wanted distinguisher entry =
      pushed (pick_unique_label wanted distinguisher (labels kept)) entry kept

unfoldable pub filter : (KnownHost → Bool) → List KnownHost → List KnownHost
filter keep [] = []
filter keep (h ∷ hs) = let rest = filter keep hs in (if keep h then h ∷ rest else rest)

abbrev pub equals : Option String → String → Bool
equals none s = false
equals (some t) s = str_eq t s

-- `existingHost !== incomingHost` of a text and what may be null
abbrev pub differs : String → Option String → Bool
differs s none = true
differs s (some t) = not (str_eq s t)

abbrev pub keeps_host : Option String → Option String → Bool
keeps_host none incoming = true
keeps_host (some existing) incoming = differs existing incoming

module _ (p : Platform) where
  abbrev pub host_of : Option String → Option String
  host_of none = none
  host_of (some u) = p.url_host u

  -- `saveKnownHost(label, url)`
  unfoldable pub save_known_host : String → String → List KnownHost → Option (List KnownHost)
  save_known_host label url hs =
      save_into p (filter (λ h. keeps_host (host_of h.url) (p.url_host url)) hs) label url (λ l.
        record {
          label = l;
          url = some url;
          relay_url = none;
          public_key = none;
          role = none;
          ssh_url = none;
        })

  -- `savePublicKnownHost({label, relayUrl, publicKey, role})`
  abbrev pub or_daemon : Option String → String
  or_daemon none = "daemon"
  or_daemon (some r) = r

  unfoldable pub save_public_known_host :
      String → String → String → Option String → List KnownHost → Option (List KnownHost)
  save_public_known_host label relay_url public_key role hs =
      save_into p
        (filter (λ h. not (equals h.relay_url relay_url && equals h.public_key public_key)) hs)
        label public_key
        (λ l. record {
          label = l;
          url = none;
          relay_url = some relay_url;
          public_key = some public_key;
          role = some (or_daemon role);
          ssh_url = none;
        })

  -- `saveSshKnownHost({label, sshUrl})`
  unfoldable pub save_ssh_known_host : String → String → List KnownHost → Option (List KnownHost)
  save_ssh_known_host label ssh_url hs =
      save_into p (filter (λ h. not (equals h.ssh_url ssh_url)) hs) label ssh_url (λ l. record {
        label = l;
        url = none;
        relay_url = none;
        public_key = none;
        role = none;
        ssh_url = some ssh_url;
      })

-- `removeKnownHost(label)`
unfoldable pub remove_known_host : String → List KnownHost → List KnownHost
remove_known_host label hs = filter (λ h. not (str_eq h.label label)) hs

-- The two errors of `renameKnownHost`.
pub data RenameResult : Type 0 where
  renamed : List KnownHost → RenameResult
  no_such_label label_in_use : RenameResult

-- `target.label = newLabel` of the first entry with the old label
unfoldable pub relabel : String → String → List KnownHost → List KnownHost
relabel old new [] = []
relabel old new (h ∷ hs) =
    let rest = relabel old new hs in
    (if str_eq h.label old then record h { label = new } ∷ hs else h ∷ rest)

-- `renameKnownHost(oldLabel, newLabel)`
unfoldable pub rename_known_host : String → String → List KnownHost → RenameResult
rename_known_host old new hs =
    if str_eq old new
    then renamed hs
    else (if not (has_label old (labels hs))
        then no_such_label
        else (if has_label new (labels hs) then label_in_use else renamed (relabel old new hs)))

module _ (p : Platform) where
  -- The label of an entry of the peers file among the entries merged so far.
  unfoldable pub peer_label : String → List String → Option String
  peer_label label merged = if has_label label merged then numbers p label merged else some label

  -- The loop of `loadAllKnownHosts` over the entries of the peers file.
  unfoldable pub merge_one : Option String → KnownHost → List KnownHost → Option (List KnownHost)
  merge_one none h merged = none
  merge_one (some label) h merged = some (merged ++ record h { label = label } ∷ [])

  unfoldable pub merge_rest :
      Option (List KnownHost) → (List KnownHost → Option (List KnownHost)) → Option (List KnownHost)
  merge_rest none next = none
  merge_rest (some merged) next = next merged

  unfoldable pub merge : List String → List KnownHost → List KnownHost → Option (List KnownHost)
  merge stored_labels [] merged = some merged
  merge stored_labels (h ∷ hs) merged =
      let skip = merge stored_labels hs merged in
      let add =
        merge_rest (merge_one (peer_label h.label (labels merged)) h merged)
          (merge stored_labels hs) in
      (if has_label h.label stored_labels then skip else add)

  unfoldable pub load_all_known_hosts : List KnownHost → List KnownHost → Option (List KnownHost)
  load_all_known_hosts stored from_file = merge (labels stored) from_file stored
