-- ===== src/Hosts/Merge.antt =====
-- The merge of the stored hosts with the peers file.
use pty_relay.Base.{
  ◌≤◌, String, Option, some, List, [], ◌∷◌, ◌++◌, length, append_assoc, append-nil, ◌≡◌, sym, ◌∙◌,
  ap, subst, inl, inr, Bool-cases, arith,
}
use pty_relay.Hosts.{
  KnownHost, has_label, labels, Platform, merge_one, merge_rest, merge, load_all_known_hosts,
}
use pty_relay.Hosts.Label.{Injective, peer_label_unused}
use pty_relay.Hosts.Stored.{AllDistinct, AllDistinct-append, labels-append}

module _ (p : Platform) (injective : Injective p.number_text) where
  abbrev Extends : List KnownHost → List KnownHost → Option (List KnownHost) → Type 0
  Extends merged from_file o =
      (added : List KnownHost) × (o ≡ some (merged ++ added))
      × AllDistinct (labels (merged ++ added))
      × (length added ≤ length from_file)

  merge-Extends :
      (stored : List String) (from_file merged : List KnownHost)
      → AllDistinct (labels merged)
      → Extends merged from_file (merge p stored from_file merged)
  unfolding merge merge_one merge_rest
  merge-Extends stored [] merged h = (
    [],
    ap some (sym (append-nil merged)),
    subst (λ l. AllDistinct (labels l)) (sym (append-nil merged)) h,
    ground arith,
  )
  merge-Extends stored (k ∷ ks) merged h = elim (Bool-cases (has_label k.label stored)) [
    | inl shadowed ↦
        let (added, found, distinct, short) = merge-Extends stored ks merged h in
        rw shadowed (added, found, distinct, omega (arith, short))
    | inr open' ↦
        let (label, found, free) = peer_label_unused p injective k.label (labels merged) in
        let k' = record k { label = label } in
        let (added, rest, distinct, short) = merge-Extends stored ks (merged ++ k' ∷ []) (
          subst AllDistinct (sym (labels-append merged (k' ∷ [])))
            (AllDistinct-append (labels merged) label h free)) in
        rw (open', found)
          (
            k' ∷ added,
            rest ∙ ap some (append_assoc merged (k' ∷ []) added),
            subst (λ l. AllDistinct (labels l)) (append_assoc merged (k' ∷ []) added) distinct,
            omega (arith, short),
          )
  ]

  -- The merge always ends with the stored entries, unchanged and in front, and then at most as many
  -- entries as the peers file has, and no label stands twice, when none did in the store and the
  -- texts of different numbers are different.
  pub load_all_known_hosts_extends :
      (stored from_file : List KnownHost)
      → AllDistinct (labels stored)
      → (added : List KnownHost) × (load_all_known_hosts p stored from_file
          ≡ some (stored ++ added))
        × AllDistinct (labels (stored ++ added))
        × (length added ≤ length from_file)
  unfolding load_all_known_hosts
  load_all_known_hosts_extends stored from_file h = merge-Extends (labels stored) from_file stored h
