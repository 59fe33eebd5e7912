-- ===== src/Channel/Registry/Laws.antt =====
-- Opening, closing and the cascade of closes of src/relay/channel-registry.ts.
use pty_relay.Base.{
  ℕ, ◌≤◌, ◌<◌, String, true, false, none, some, List, [], ◌∷◌, ◌≡◌, refl, ◌↔◌, length,
  if◌then◌else◌, ◌==◌, arith, ◌∙◌, ap, sym, inl, inr, Option-cases,
}
use pty_relay.Base.Assoc.{
  get, set, delete, keys, values, IsMap, get-set, get-delete, set-IsMap, length-set_new,
}
use pty_relay.Channel.Registry.{
  Registry, opened, refused, id_collision, channel_limit, max_channels, has, open_channel,
  close_channel, close_found, close_ids, close_all,
}

pub record IsValid {H : Type 0} (r : Registry H) : Type 0 where
  pub distinct : IsMap r
  pub bounded : length r ≤ max_channels

module _ {H : Type 0} where
  -- A registry with distinct ids, at most sixteen, is one after open_channel.
  pub open_channel-IsValid :
      (id : ℕ) (h : H) (r r' : Registry H)
      → IsValid r
      → open_channel id h r ≡ opened r'
      → IsValid r'
  unfolding open_channel
  open_channel-IsValid id h r r' v e = record {
    distinct = ground (arith, set-IsMap id h r v.distinct);
    bounded = ground (arith, length-set_new id h r);
  }

  -- open_channel refuses with id_collision exactly when the id is open, with channel_limit exactly
  -- when it is not and sixteen are, and else opens.
  open_channel_outcome :
      (id : ℕ) (h : H) (r : Registry H)
      → ((open_channel id h r ≡ refused id_collision) ↔ (has id r ≡ true))
        × ((open_channel id h r ≡ refused channel_limit)
            ↔ ((has id r ≡ false) × (max_channels ≤ length r)))
        × (((r' : Registry H) × (open_channel id h r ≡ opened r'))
            ↔ ((has id r ≡ false) × (length r < max_channels)))
  unfolding open_channel
  open_channel_outcome id h r = (
    ground arith,
    ground arith,
    (λ f. let e = f.1 in ground arith, λ e. (set id h r, ground arith)),
  )

  -- After open_channel the new id finds the new handler, and every other id what it found before.
  get-open_channel :
      (id : ℕ) (h : H) (r r' : Registry H) (j : ℕ)
      → open_channel id h r ≡ opened r'
      → get j r' ≡ (if id == j then some h else get j r)
  unfolding open_channel
  get-open_channel id h r r' j e = ground (arith, get-set id j h r)

-- A handler whose `close` has an effect on the world and leaves the registry alone.
module _ {H S : Type 0} (on_close : H → String → Registry H × S → Registry H × S)
    (effect : H → String → S → S)
    (quiet : (h : H) (reason : String) (r : Registry H) (s : S)
      → on_close h reason (r, s) ≡ (r, effect h reason s)) where
  abbrev pub close_each : String → S → List H → S
  close_each reason s [] = s
  close_each reason s (h ∷ hs) = close_each reason (effect h reason s) hs

  close_ids-keys :
      (reason : String) (r : Registry H) (s : S)
      → close_ids on_close (keys r) reason (r, s) ≡ ([], close_each reason s (values r))
  unfolding close_ids close_channel close_found get delete
  close_ids-keys reason [] s = refl
  close_ids-keys reason ((id, h) ∷ r) s =
      ground (arith, quiet h reason r s, close_ids-keys reason r (effect h reason s))

  -- close_all empties the registry and closes each handler exactly once, in the order of insertion,
  -- when a close leaves the registry alone.
  pub close_all_lem :
      (reason : String) (r : Registry H) (s : S)
      → close_all on_close reason (r, s) ≡ ([], close_each reason s (values r))
  unfolding close_all
  close_all_lem reason r s = close_ids-keys reason r s

  close_channel_absent :
      (id : ℕ) (reason : String) (r : Registry H) (s : S)
      → get id r ≡ none
      → close_channel on_close id reason (r, s) ≡ ((r, s), false)
  unfolding close_channel close_found
  close_channel_absent id reason r s e = rw e

  close_channel_present :
      (id : ℕ) (reason : String) (r : Registry H) (s : S) (h : H)
      → get id r ≡ some h
      → close_channel on_close id reason (r, s) ≡ ((delete id r, effect h reason s), true)
  unfolding close_channel close_found
  close_channel_present id reason r s h e =
      rw e (ap (λ w. (w, true)) (quiet h reason (delete id r) s))

  -- Closing an id removes it and no other, when ids are distinct and a close leaves the registry
  -- alone.
  get-close_channel :
      (id j : ℕ) (reason : String) (r : Registry H) (s : S)
      → IsMap r
      → get j (close_channel on_close id reason (r, s)).0.0 ≡ (if id == j then none else get j r)
  get-close_channel id j reason r s m = elim (Option-cases (get id r)) [
    | inl e ↦
        rw (close_channel_absent id reason r s e)
          (ground (arith, λ (p : id ≡ j). ap (λ k. get k r) (sym p) ∙ e))
    | inr (h, e) ↦ rw (close_channel_present id reason r s h e) (get-delete id j r m)
  ]

  -- A second close of the same id changes nothing and says so, when ids are distinct and a close
  -- leaves the registry alone.
  close_channel_twice :
      (id : ℕ) (why later : String) (r : Registry H) (s : S)
      → IsMap r
      → close_channel on_close id later (close_channel on_close id why (r, s)).0
        ≡ ((close_channel on_close id why (r, s)).0, false)
  close_channel_twice id why later r s m =
      close_channel_absent id later _ _ (get-close_channel id id why r s m ∙ ground arith)
