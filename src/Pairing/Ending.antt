-- ===== src/Pairing/Ending.antt =====
-- The end of a host's primary daemon: everybody is told, and everything is closed.
use pty_relay.Base.{
  ℕ, String, Bool, true, false, Option, none, some, List, [], ◌∷◌, ◌++◌, append_assoc, append-nil,
  ◌≡◌, refl, sym, subst, ap, ◌∙◌, All, arith, ◌==◌, str_eq, if◌then◌else◌,
}
use pty_relay.Base.Dict.{get, delete, IsMap, get-delete}
use pty_relay.Pairing.{
  ClientEntry, Call, sent, closed, World, typed, close_daemon, disconnect_each, tear_down,
  primary_close, on_close,
}

-- What a client and its daemon get.
abbrev pub farewell : Option ℕ → List Call
farewell none = []
farewell (some d) = closed d ∷ []

abbrev pub farewells : List (String × ClientEntry) → List Call
farewells [] = []
farewells ((id, ce) ∷ cs) =
    sent ce.client (typed "peer_disconnected")
    ∷ closed ce.client
    ∷ (farewell ce.daemon ++ farewells cs)

-- Both sockets of a client are not open.
abbrev IsDaemonShut : (ℕ → Bool) → Option ℕ → Type 0
IsDaemonShut is_open none = Unit
IsDaemonShut is_open (some d) = is_open d ≡ false

abbrev pub IsShut : World → String × ClientEntry → Type 0
IsShut w p = (w.is_open p.1.client ≡ false) × IsDaemonShut w.is_open p.1.daemon

out-close_daemon : (o : Option ℕ) (w : World) → (close_daemon o w).out ≡ w.out ++ farewell o
unfolding close_daemon
out-close_daemon none w = sym (append-nil _)
out-close_daemon (some d) w = refl

entries-close_daemon : (o : Option ℕ) (w : World) → (close_daemon o w).entries ≡ w.entries
unfolding close_daemon
entries-close_daemon none w = refl
entries-close_daemon (some d) w = refl

-- A closed socket stays closed.
close_daemon_closed :
    (o : Option ℕ) (s : ℕ) (w : World) → w.is_open s ≡ false → (close_daemon o w).is_open s ≡ false
unfolding close_daemon
close_daemon_closed none s w h = h
close_daemon_closed (some d) s w h = ground (arith, h)

close_daemon-IsDaemonShut : (o : Option ℕ) (w : World) → IsDaemonShut (close_daemon o w).is_open o
unfolding close_daemon
close_daemon-IsDaemonShut none w = tt
close_daemon-IsDaemonShut (some d) w = ground arith

disconnect_each_closed :
    (cs : List (String × ClientEntry)) (s : ℕ) (w : World)
    → w.is_open s ≡ false
    → (disconnect_each cs w).is_open s ≡ false
unfolding disconnect_each
disconnect_each_closed [] s w h = h
disconnect_each_closed ((id, ce) ∷ cs) s w h =
    disconnect_each_closed cs s _ (close_daemon_closed ce.daemon s _ (ground (arith, h)))

daemon_stays_closed :
    (o : Option ℕ) (cs : List (String × ClientEntry)) (w : World)
    → IsDaemonShut w.is_open o
    → IsDaemonShut (disconnect_each cs w).is_open o
daemon_stays_closed none cs w h = tt
daemon_stays_closed (some d) cs w h = disconnect_each_closed cs d w h

disconnect_each-IsShut :
    (cs : List (String × ClientEntry)) (w : World) → All (IsShut (disconnect_each cs w)) cs
unfolding disconnect_each
disconnect_each-IsShut [] w = tt
disconnect_each-IsShut ((id, ce) ∷ cs) w = (
  (
    disconnect_each_closed cs ce.client _
        (close_daemon_closed ce.daemon ce.client _ (ground arith)),
    daemon_stays_closed ce.daemon cs _ (close_daemon-IsDaemonShut ce.daemon _),
  ),
  disconnect_each-IsShut cs _,
)

out-disconnect_each :
    (cs : List (String × ClientEntry)) (w : World)
    → (disconnect_each cs w).out ≡ w.out ++ farewells cs
unfolding disconnect_each
out-disconnect_each [] w = sym (append-nil _)
out-disconnect_each ((id, ce) ∷ cs) w =
    out-disconnect_each cs _
    ∙ ap (λ x. x ++ farewells cs) (out-close_daemon ce.daemon _)
    ∙ appended w.out (farewell ce.daemon) (farewells cs)
  where
    appended :
        (xs ys zs : List Call)
        → ((xs ++ (sent ce.client (typed "peer_disconnected") ∷ []))
              ++ (closed ce.client ∷ [])
              ++ ys)
            ++ zs
          ≡ xs ++ (sent ce.client (typed "peer_disconnected") ∷ closed ce.client ∷ (ys ++ zs))
    appended xs ys zs = simp (append_assoc)

entries-disconnect_each :
    (cs : List (String × ClientEntry)) (w : World) → (disconnect_each cs w).entries ≡ w.entries
unfolding disconnect_each
entries-disconnect_each [] w = refl
entries-disconnect_each ((id, ce) ∷ cs) w =
    entries-disconnect_each cs _ ∙ entries-close_daemon ce.daemon _

-- What the registry is after the close of the primary.
abbrev pub IsEnded : String → List (String × ClientEntry) → World → World → Type 0
IsEnded h cs w v =
    (v.out ≡ w.out ++ farewells cs)
    × (All (IsShut v) cs
        × ((k : String) → get k v.entries ≡ (if str_eq h k then none else get k w.entries)))

entries_after :
    (h k : String) (cs : List (String × ClientEntry)) (w : World)
    → IsMap w.entries
    → get k (delete h (disconnect_each cs w).entries)
      ≡ (if str_eq h k then none else get k w.entries)
entries_after h k cs w v =
    ap (λ m. get k (delete h m)) (entries-disconnect_each cs w) ∙ get-delete h k w.entries v

torn_down :
    (b : Bool) (h : String) (cs : List (String × ClientEntry)) (w : World)
    → b ≡ true
    → IsMap w.entries
    → IsEnded h cs w (
        if b
        then (let v = disconnect_each cs w in record v { entries = delete h v.entries })
        else w)
torn_down true h cs w same v =
    (out-disconnect_each cs w, (disconnect_each-IsShut cs w, λ k. entries_after h k cs w v))
torn_down false h cs w same v = absurd (ground arith)

same_socket : (s : ℕ) → (s == s) ≡ true
same_socket s = ground arith

-- When the primary of a host closes, every client gets peer_disconnected and is closed, in order,
-- and with it its daemon socket; none of these is open afterwards, and the host and no other is
-- forgotten, when no secret hash has two entries.
pub on_close_primary :
    (h : String) (a : ℕ) (w : World)
    → get h w.entries ≡ some a
    → IsMap w.entries
    → IsEnded h (w.objects a).clients w (on_close (w.objects a).primary (primary_close h) w)
unfolding on_close tear_down
on_close_primary h a w found v =
    subst (λ o. IsEnded h (w.objects a).clients w (tear_down o h (w.objects a).primary w))
      (sym found) (torn_down _ h (w.objects a).clients w (same_socket (w.objects a).primary) v)
