-- ===== src/Channel/Registry.antt =====
-- src/relay/channel-registry.ts: the open channels of one connection.
pub mod Laws
use pty_relay.Base.{
  ℕ, String, Bool, true, false, Option, none, some, List, [], ◌∷◌, leb, length, if◌then◌else◌,
}
use pty_relay.Base.Assoc.{get, set, delete, keys}

abbrev pub max_channels : ℕ
max_channels = 16

-- The codes of `ChannelOpenError`.
pub data OpenError : Type 0 where
  id_collision channel_limit : OpenError

-- `private readonly handlers = new Map<number, ChannelHandler>()`
abbrev pub Registry : Type 0 → Type 0
Registry H = List (ℕ × H)

pub data OpenResult (H : Type 0) : Type 0 where
  opened : Registry H → OpenResult H
  refused : OpenError → OpenResult H

module _ {H : Type 0} where
  unfoldable pub has : ℕ → Registry H → Bool
  has id r = elim (get id r) [ none ↦ false | some h ↦ true ]

  unfoldable pub open_channel : ℕ → H → Registry H → OpenResult H
  unfolding has
  open_channel id handler r =
      if has id r
      then refused id_collision
      else (if leb max_channels (length r)
          then refused channel_limit
          else opened (set id handler r))

-- `S` is the rest of the world, and `on_close` what a handler's `close(reason)` does to the registry
-- and to that world; what it throws is swallowed.
module _ {H S : Type 0} (on_close : H → String → Registry H × S → Registry H × S) where
  -- `close(id, reason)`, by `this.handlers.get(id)`
  unfoldable pub close_found : Option H → ℕ → String → Registry H × S → (Registry H × S) × Bool
  close_found none id reason w = (w, false)
  close_found (some handler) id reason (r, s) = (on_close handler reason (delete id r, s), true)

  unfoldable pub close_channel : ℕ → String → Registry H × S → (Registry H × S) × Bool
  close_channel id reason w = close_found (get id w.0) id reason w

  -- the loop of `closeAll` over the snapshot of the ids
  unfoldable pub close_ids : List ℕ → String → Registry H × S → Registry H × S
  close_ids [] reason w = w
  close_ids (id ∷ ids) reason w = close_ids ids reason (close_channel id reason w).0

  unfoldable pub close_all : String → Registry H × S → Registry H × S
  close_all reason (r, s) = close_ids (keys r) reason (r, s)
