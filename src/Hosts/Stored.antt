-- ===== src/Hosts/Stored.antt =====
-- The saves and the rename of src/relay/known-hosts.ts.
use pty_relay.Base.{
  String, Bool, true, false, not, Option, none, some, List, [], ◌∷◌, ◌++◌, All, str_eq, eq_iff, ◌≡◌,
  ◌≢◌, refl, sym, ◌∙◌, ap, subst, inl, inr, Bool-cases, arith, if◌then◌else◌, ◌↔◌, ◌⊎◌,
}
use pty_relay.Hosts.{
  KnownHost, has_label, labels, Platform, pushed, save_into, filter, host_of, keeps_host,
  save_known_host, save_public_known_host, save_ssh_known_host, renamed, no_such_label,
  label_in_use, relabel, rename_known_host,
}
use pty_relay.Hosts.Label.{Injective, pick_unique_label_unused}

-- No label stands twice.
abbrev pub AllDistinct : List String → Type 0
AllDistinct [] = Unit
AllDistinct (x ∷ xs) = (has_label x xs ≡ false) × AllDistinct xs

has_label-append :
    (s : String) (xs ys : List String)
    → has_label s xs ≡ false
    → has_label s ys ≡ false
    → has_label s (xs ++ ys) ≡ false
unfolding has_label
has_label-append s [] ys h k = k
has_label-append s (x ∷ xs) ys h k = ground (arith, eq_iff x s, has_label-append s xs ys)

pub labels-append : (hs ks : List KnownHost) → labels (hs ++ ks) ≡ labels hs ++ labels ks
labels-append [] ks = refl
labels-append (h ∷ hs) ks = ap (λ l. h.label ∷ l) (labels-append hs ks)

has_label-one : (s t : String) → s ≢ t → has_label s (t ∷ []) ≡ false
unfolding has_label
has_label-one s t h = ground (arith, eq_iff t s, λ (e : t ≡ s). h (sym e))

has_label_head :
    (s x : String) (xs : List String)
    → has_label s (x ∷ xs) ≡ false
    → (x ≢ s) × (has_label s xs ≡ false)
unfolding has_label
has_label_head s x xs h = (λ e. ground (arith, eq_iff x s), ground (arith, eq_iff x s))

pub AllDistinct-append :
    (xs : List String) (s : String)
    → AllDistinct xs
    → has_label s xs ≡ false
    → AllDistinct (xs ++ s ∷ [])
unfolding has_label
AllDistinct-append [] s h k = (refl, tt)
AllDistinct-append (x ∷ xs) s (fresh, h) k =
    let (other, later) = has_label_head s x xs k in
    (
      has_label-append x xs (s ∷ []) fresh (has_label-one x s other),
      AllDistinct-append xs s h later,
    )

has_label-filter :
    (keep : KnownHost → Bool) (s : String) (hs : List KnownHost)
    → has_label s (labels hs) ≡ false
    → has_label s (labels (filter keep hs)) ≡ false
unfolding filter has_label
has_label-filter keep s [] h = refl
has_label-filter keep s (k ∷ hs) h = ground (arith, has_label-filter keep s hs)

AllDistinct-filter :
    (keep : KnownHost → Bool) (hs : List KnownHost)
    → AllDistinct (labels hs)
    → AllDistinct (labels (filter keep hs))
unfolding filter
AllDistinct-filter keep [] h = tt
AllDistinct-filter keep (k ∷ hs) (fresh, h) = elim (Bool-cases (keep k)) [
  | inl kept ↦ rw kept (has_label-filter keep k.label hs fresh, AllDistinct-filter keep hs h)
  | inr gone ↦ rw gone (AllDistinct-filter keep hs h)
]

-- The store after a save: the label is unused among the entries that stay.
abbrev pub Saves : List KnownHost → Option (List KnownHost) → Type 0
Saves kept o =
    (hs' : List KnownHost) × (h : KnownHost) × (o ≡ some hs')
    × (hs' ≡ kept ++ h ∷ [])
    × AllDistinct (labels hs')

-- What `existingHost !== incomingHost` keeps is of another host.
kept_other :
    (o : Option String) (x : String) (incoming : Option String)
    → incoming ≡ some x
    → keeps_host o incoming ≡ true
    → o ≢ some x
kept_other none x incoming e k f = absurd (ground arith)
kept_other (some y) x none e k f = absurd (ground arith)
kept_other (some y) x (some z) e k f = ground (arith, eq_iff y z)

-- What it drops is of this host.
dropped_same :
    (o : Option String) (x : String) (incoming : Option String)
    → incoming ≡ some x
    → keeps_host o incoming ≡ false
    → o ≡ some x
dropped_same none x incoming e k = absurd (ground arith)
dropped_same (some y) x none e k = absurd (ground arith)
dropped_same (some y) x (some z) e k = ground (arith, eq_iff y z)

-- The entries without those whose URL has the host `x`, in their order.
abbrev pub IsWithout : Platform → String → List KnownHost → List KnownHost → Type 0
IsWithout p x [] kept = kept ≡ []
IsWithout p x (h ∷ hs) kept =
    ((host_of p h.url ≡ some x) × IsWithout p x hs kept)
    ⊎ ((host_of p h.url ≢ some x)
        × ((rest : List KnownHost) × (kept ≡ h ∷ rest) × IsWithout p x hs rest))

module _ (p : Platform) (injective : Injective p.number_text) where
  save_into-Saves :
      (kept : List KnownHost) (wanted d : String) (entry : String → KnownHost)
      → ((l : String) → (entry l).label ≡ l)
      → AllDistinct (labels kept)
      → Saves kept (save_into p kept wanted d entry)
  unfolding save_into pushed
  save_into-Saves kept wanted d entry named h =
      let (label, found, free) = pick_unique_label_unused p injective wanted d (labels kept) in
      rw found (
        _,
        entry label,
        refl,
        refl,
        subst AllDistinct (sym (labels-append kept (entry label ∷ []))) (
            AllDistinct-append (labels kept) (entry label).label h
              (ap (λ l. has_label l (labels kept)) (named label) ∙ free)),
      )

  -- Saving a URL ends and keeps distinct labels distinct, when the texts of different numbers are
  -- different.
  save_known_host-AllDistinct :
      (label url : String) (hs : List KnownHost)
      → AllDistinct (labels hs)
      → (hs' : List KnownHost) × (save_known_host p label url hs ≡ some hs')
        × AllDistinct (labels hs')
  unfolding save_known_host
  save_known_host-AllDistinct label url hs h =
      let (hs', _, e, _, distinct) =
        save_into-Saves (filter _ hs) label url _ (λ l. refl) (AllDistinct-filter _ hs h) in
      (hs', e, distinct)

  -- Saving a public-relay host ends and keeps distinct labels distinct, when the texts of different
  -- numbers are different.
  save_public_known_host-AllDistinct :
      (label relay_url public_key : String) (role : Option String) (hs : List KnownHost)
      → AllDistinct (labels hs)
      → (hs' : List KnownHost) × (save_public_known_host p label relay_url public_key role hs
          ≡ some hs')
        × AllDistinct (labels hs')
  unfolding save_public_known_host
  save_public_known_host-AllDistinct label relay_url public_key role hs h =
      let (hs', _, e, _, distinct) =
        save_into-Saves (filter _ hs) label public_key _ (λ l. refl) (AllDistinct-filter _ hs h) in
      (hs', e, distinct)

  -- Saving an ssh host ends and keeps distinct labels distinct, when the texts of different numbers
  -- are different.
  save_ssh_known_host-AllDistinct :
      (label ssh_url : String) (hs : List KnownHost)
      → AllDistinct (labels hs)
      → (hs' : List KnownHost) × (save_ssh_known_host p label ssh_url hs ≡ some hs')
        × AllDistinct (labels hs')
  unfolding save_ssh_known_host
  save_ssh_known_host-AllDistinct label ssh_url hs h =
      let (hs', _, e, _, distinct) =
        save_into-Saves (filter _ hs) label ssh_url _ (λ l. refl) (AllDistinct-filter _ hs h) in
      (hs', e, distinct)

  filter_other-host :
      (x : String) (incoming : Option String) (hs : List KnownHost)
      → incoming ≡ some x
      → All (λ k. host_of p k.url ≢ some x) (filter (λ h. keeps_host (host_of p h.url) incoming) hs)
  unfolding filter
  filter_other-host x incoming [] e = tt
  filter_other-host x incoming (k ∷ hs) e =
      elim (Bool-cases (keeps_host (host_of p k.url) incoming)) [
        | inl kept ↦
            rw kept
              (kept_other (host_of p k.url) x incoming e kept, filter_other-host x incoming hs e)
        | inr gone ↦ rw gone (filter_other-host x incoming hs e)
      ]

  IsWithout-filter :
      (x : String) (incoming : Option String) (hs : List KnownHost)
      → incoming ≡ some x
      → IsWithout p x hs (filter (λ h. keeps_host (host_of p h.url) incoming) hs)
  unfolding filter
  IsWithout-filter x incoming [] e = refl
  IsWithout-filter x incoming (k ∷ hs) e =
      elim (Bool-cases (keeps_host (host_of p k.url) incoming)) [
        | inl kept ↦ rw kept (
            inr (
              kept_other (host_of p k.url) x incoming e kept,
              (_, refl, IsWithout-filter x incoming hs e),
            ))
        | inr gone ↦ rw gone (
            inl
              (dropped_same (host_of p k.url) x incoming e gone, IsWithout-filter x incoming hs e))
      ]

  -- Saving a URL with a host leaves the entries before it without those of that host, in their
  -- order, and then one entry, the new one, with the whole URL and a label that is new among them,
  -- when the texts of different numbers are different.
  pub save_known_host_replaces :
      (label url x : String) (hs : List KnownHost)
      → p.url_host url ≡ some x
      → (kept : List KnownHost) × (l : String) × (save_known_host p label url hs
          ≡ some (
              kept
              ++ (record {
                label = l;
                url = some url;
                relay_url = none;
                public_key = none;
                role = none;
                ssh_url = none;
              })
                ∷ []))
        × IsWithout p x hs kept
        × All (λ k. host_of p k.url ≢ some x) kept
        × (has_label l (labels kept) ≡ false)
  unfolding save_known_host save_into pushed
  save_known_host_replaces label url x hs e =
      let kept = filter (λ h. keeps_host (host_of p h.url) (p.url_host url)) hs in
      let (l, found, free) = pick_unique_label_unused p injective label url (labels kept) in
      let entry : String → KnownHost = λ v. record {
        label = v;
        url = some url;
        relay_url = none;
        public_key = none;
        role = none;
        ssh_url = none;
      } in
      (
        kept,
        l,
        ap (λ o. pushed p o entry kept) found,
        IsWithout-filter x (p.url_host url) hs e,
        filter_other-host x (p.url_host url) hs e,
        free,
      )

relabel_other :
    (s old new : String) (hs : List KnownHost)
    → new ≢ s
    → has_label s (labels hs) ≡ false
    → has_label s (labels (relabel old new hs)) ≡ false
unfolding relabel has_label
relabel_other s old new [] h k = refl
relabel_other s old new (x ∷ hs) h k =
    let (other, later) = has_label_head s x.label (labels hs) k in
    elim (Bool-cases (str_eq x.label old)) [
      | inl same ↦ rw same (ground (arith, eq_iff new s, h, later))
      | inr different ↦
          rw different (ground (arith, eq_iff x.label s, other, relabel_other s old new hs h later))
    ]

relabel-AllDistinct :
    (old new : String) (hs : List KnownHost)
    → AllDistinct (labels hs)
    → has_label new (labels hs) ≡ false
    → AllDistinct (labels (relabel old new hs))
unfolding relabel
relabel-AllDistinct old new [] h k = tt
relabel-AllDistinct old new (x ∷ hs) (fresh, h) k =
    let (other, later) = has_label_head new x.label (labels hs) k in
    elim (Bool-cases (str_eq x.label old)) [
      | inl same ↦ rw same (later, h)
      | inr different ↦ rw different (
        relabel_other x.label old new hs (λ e. other (sym e)) fresh,
        relabel-AllDistinct old new hs h later,
      )
    ]

by_tests :
    (same there taken : Bool) (hs ks hs' : List KnownHost)
    → (if same
        then renamed hs
        else (if not there then no_such_label else (if taken then label_in_use else renamed ks)))
      ≡ renamed hs'
    → AllDistinct (labels hs)
    → (taken ≡ false → AllDistinct (labels ks))
    → AllDistinct (labels hs')
by_tests true there taken hs ks hs' e h k = subst (λ l. AllDistinct (labels l)) (ground arith) h
by_tests false false taken hs ks hs' e h k = absurd (ground arith)
by_tests false true true hs ks hs' e h k = absurd (ground arith)
by_tests false true false hs ks hs' e h k =
    subst (λ l. AllDistinct (labels l)) (ground arith) (k refl)

-- A rename that succeeds keeps distinct labels distinct.
rename_known_host-AllDistinct :
    (old new : String) (hs hs' : List KnownHost)
    → AllDistinct (labels hs)
    → rename_known_host old new hs ≡ renamed hs'
    → AllDistinct (labels hs')
unfolding rename_known_host
rename_known_host-AllDistinct old new hs hs' h e =
    by_tests _ _ _ hs (relabel old new hs) hs' e h (relabel-AllDistinct old new hs h)

-- A rename fails exactly when the two labels differ and the old one is missing, or both are in use.
rename_known_host_outcome :
    (old new : String) (hs : List KnownHost)
    → ((rename_known_host old new hs ≡ no_such_label)
        ↔ ((old ≢ new) × (has_label old (labels hs) ≡ false)))
      × ((rename_known_host old new hs ≡ label_in_use)
          ↔ ((old ≢ new) × (has_label old (labels hs) ≡ true) × (has_label new (labels hs) ≡ true)))
unfolding rename_known_host
rename_known_host_outcome old new hs =
    (ground (arith, eq_iff old new), ground (arith, eq_iff old new))
