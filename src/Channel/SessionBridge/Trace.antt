-- ===== src/Channel/SessionBridge/Trace.antt =====
-- What the pty socket of a session bridge is given, in order.
use pty_relay.Base.{
  ℕ, String, Bool, true, false, not, ◌&&◌, Option, none, some, List, [], ◌∷◌, ◌++◌, ◌≡◌, refl, sym,
  ap, ◌∙◌, inl, inr, All, Bytes, arith, Bool-cases, ltb, ◌==◌, subst, if◌then◌else◌,
}
use pty_relay.Channel.SessionBridge.{
  attach_packet, detach_packet, payload, Output, connecting, wrote, destroying, resolved, rejected,
  sent, uncaught, SessionBridge, fresh, attach, frame_to, on_frame, close_of, close, attach_to,
  Event, attaching, framed, closing, connected, received, gone, closed, errored, step, run,
}

-- Whether the socket may still be written, was written a DETACH, or is given up.
pub data Phase : Type 0 where
  live detaching ended : Phase

-- To a live socket go ATTACH and frames, at last a DETACH, if it can be written, which the
-- destruction follows at once; a socket that is given up gets nothing more. No other socket is used.
pub IsPtyTrace : Phase → List Output → Type 0
IsPtyTrace detaching (destroying s ∷ xs) = (s ≡ 0) × IsPtyTrace ended xs
IsPtyTrace detaching _ = ⊥
IsPtyTrace _ [] = Unit
IsPtyTrace live (wrote s detach_packet ∷ xs) = (s ≡ 0) × IsPtyTrace detaching xs
IsPtyTrace live (wrote s (attach_packet rows cols) ∷ xs) = (s ≡ 0) × IsPtyTrace live xs
IsPtyTrace live (wrote s (payload bytes) ∷ xs) = (s ≡ 0) × IsPtyTrace live xs
IsPtyTrace live (destroying s ∷ xs) = (s ≡ 0) × IsPtyTrace ended xs
IsPtyTrace ended (wrote s p ∷ xs) = ⊥
IsPtyTrace ended (destroying s ∷ xs) = ⊥
IsPtyTrace _ (connecting s name ∷ xs) = ⊥
IsPtyTrace phase (_ ∷ xs) = IsPtyTrace phase xs

-- What is given up may be read as what is not.
IsPtyTrace-weaken :
    (phase : Bool) (xs : List Output)
    → IsPtyTrace ended xs
    → IsPtyTrace (if phase then ended else live) xs
unfolding IsPtyTrace
IsPtyTrace-weaken true xs h = h
IsPtyTrace-weaken false [] h = tt
IsPtyTrace-weaken false (connecting s name ∷ xs) h = absurd h
IsPtyTrace-weaken false (wrote s p ∷ xs) h = absurd h
IsPtyTrace-weaken false (destroying s ∷ xs) h = absurd h
IsPtyTrace-weaken false (resolved ∷ xs) h = IsPtyTrace-weaken false xs h
IsPtyTrace-weaken false (rejected m ∷ xs) h = IsPtyTrace-weaken false xs h
IsPtyTrace-weaken false (sent bs ∷ xs) h = IsPtyTrace-weaken false xs h
IsPtyTrace-weaken false (uncaught ∷ xs) h = IsPtyTrace-weaken false xs h

-- The phase of a bridge that was attached once, so that its socket is number 0.
abbrev phase_by : Option ℕ → Bool → Phase
phase_by none d = ended
phase_by (some s) d = if d then ended else live

abbrev phase_of : SessionBridge → Phase
phase_of b = phase_by b.socket (b.destroyed 0)

abbrev IsZero : Option ℕ → Type 0
IsZero none = Unit
IsZero (some s) = s ≡ 0

record IsAttachedOnce (b : SessionBridge) : Type 0 where
  one : b.next ≡ 1
  zeroth : IsZero b.socket

-- A step that keeps this, and whatever may follow it.
abbrev Keeps : SessionBridge → SessionBridge × List Output → Type 0
Keeps b r =
    IsAttachedOnce r.0
    × ((xs : List Output) → IsPtyTrace (phase_of r.0) xs → IsPtyTrace (phase_of b) (r.1 ++ xs))

-- A bridge without a socket, or whose socket was destroyed.
phase-ended :
    (o : Option ℕ) (d : Bool) (xs : List Output)
    → IsPtyTrace ended xs
    → IsPtyTrace (phase_by o d) xs
phase-ended none d xs h = h
phase-ended (some s) d xs h = IsPtyTrace-weaken d xs h

mine : (s : ℕ) (b : SessionBridge) → b.socket ≡ some s → IsAttachedOnce b → s ≡ 0
mine s b e v = subst IsZero e v.zeroth

frame-Keeps :
    (o : Option ℕ) (d : Bool) (bytes : Bytes) (b : SessionBridge)
    → b.socket ≡ o
    → b.destroyed 0 ≡ d
    → IsAttachedOnce b
    → Keeps b (frame_to o bytes b)
unfolding frame_to IsPtyTrace
frame-Keeps none d bytes b e f v = (v, λ xs h. h)
frame-Keeps (some s) true bytes b e f v = rw (ap b.destroyed (mine s b e v) ∙ f) (v, λ xs h. h)
frame-Keeps (some s) false bytes b e f v =
    rw (ap b.destroyed (mine s b e v) ∙ f) (v, rw e (rw f (λ xs h. (mine s b e v, h))))

close-Keeps :
    (o : Option ℕ) (d : Bool) (fails : Bool) (b : SessionBridge)
    → b.socket ≡ o
    → b.destroyed 0 ≡ d
    → IsAttachedOnce b
    → Keeps b (close_of o fails b)
unfolding close_of IsPtyTrace
close-Keeps none d fails b e f v =
    (record { one = v.one; zeroth = tt }, λ xs h. phase-ended b.socket (b.destroyed 0) xs h)
close-Keeps (some s) true fails b e f v =
    rw (ap b.destroyed (mine s b e v) ∙ f)
      (record { one = v.one; zeroth = tt }, λ xs h. phase-ended b.socket (b.destroyed 0) xs h)
close-Keeps (some s) false true b e f v =
    rw (ap b.destroyed (mine s b e v) ∙ f)
      (record { one = v.one; zeroth = tt }, rw e (rw f (λ xs h. (mine s b e v, h))))
close-Keeps (some s) false false b e f v =
    rw (ap b.destroyed (mine s b e v) ∙ f)
      (record { one = v.one; zeroth = tt }, rw e (rw f (λ xs h. (mine s b e v, (mine s b e v, h)))))

attach-Keeps :
    (o : Option ℕ) (d : Bool) (size : ℕ × ℕ) (b : SessionBridge)
    → b.socket ≡ o
    → b.destroyed 0 ≡ d
    → IsAttachedOnce b
    → d ≡ false
    → Keeps b (b, attach_to o size)
unfolding attach_to IsPtyTrace
attach-Keeps none d size b e f v k = (v, rw e (λ xs h. h))
attach-Keeps (some s) d size b e f v k = (v, rw e (rw (f ∙ k) (λ xs h. (mine s b e v, h))))

-- A socket that connects is number 0, and was not destroyed.
emits-live :
    (s : ℕ) (b : SessionBridge)
    → IsAttachedOnce b
    → ltb s b.next && not (b.destroyed s) ≡ true
    → b.destroyed 0 ≡ false
emits-live s b v h = ap b.destroyed (sym zeroth) ∙ alive
  where
    zeroth : s ≡ 0
    zeroth = ground (arith, v.one)

    alive : b.destroyed s ≡ false
    alive = ground arith

sent-IsPtyTrace :
    (o : Option ℕ) (d : Bool) (bytes : Bytes) (xs : List Output)
    → IsPtyTrace (phase_by o d) xs
    → IsPtyTrace (phase_by o d) (sent bytes ∷ xs)
unfolding IsPtyTrace
sent-IsPtyTrace none d bytes xs h = h
sent-IsPtyTrace (some s) true bytes xs h = h
sent-IsPtyTrace (some s) false bytes xs h = h

nil-IsPtyTrace : (o : Option ℕ) (d : Bool) → IsPtyTrace (phase_by o d) []
nil-IsPtyTrace o d = phase-ended o d [] (unfold IsPtyTrace in tt)

gone-IsPtyTrace :
    (o : Option ℕ) (t d : Bool) (xs : List Output)
    → IsPtyTrace (phase_by o (if t then true else d)) xs
    → IsPtyTrace (phase_by o d) xs
gone-IsPtyTrace none t d xs h = h
gone-IsPtyTrace (some s) true d xs h = IsPtyTrace-weaken d xs h
gone-IsPtyTrace (some s) false d xs h = h

-- Every event but another `attach`.
abbrev pub IsLater : Event → Type 0
IsLater (attaching session cols rows) = ⊥
IsLater _ = Unit

module _ (goes : Bytes → Bool) where
  step-Keeps :
      (e : Event) (b : SessionBridge) → IsLater e → IsAttachedOnce b → Keeps b (step goes e b)
  unfolding step on_frame close IsPtyTrace
  step-Keeps (attaching session cols rows) b l v = absurd l
  step-Keeps (framed type bytes) b l v = frame-Keeps b.socket (b.destroyed 0) bytes b refl refl v
  step-Keeps (closing reason fails) b l v = close-Keeps b.socket (b.destroyed 0) fails b refl refl v
  step-Keeps (connected s) b l v = elim (Bool-cases (ltb s b.next && not (b.destroyed s))) [
    | inl up ↦
        rw up
          (attach-Keeps b.socket (b.destroyed 0) (b.sizes s) b refl refl v (emits-live s b v up))
    | inr down ↦ rw down (v, λ xs h. h)
  ]
  step-Keeps (received s bytes fails) b l v = elim (Bool-cases (goes bytes)) [
    | inl went ↦ rw went (v, λ xs h. sent-IsPtyTrace b.socket (b.destroyed 0) bytes xs h)
    | inr threw ↦ rw threw (close-Keeps b.socket (b.destroyed 0) fails b refl refl v)
  ]
  step-Keeps (gone s) b l v = elim (Bool-cases (ltb s b.next)) [
    | inl made ↦ rw made (
      record { one = v.one; zeroth = v.zeroth },
      λ xs h. gone-IsPtyTrace b.socket (0 == s) (b.destroyed 0) xs h,
    )
    | inr unmade ↦ rw unmade (v, λ xs h. h)
  ]
  step-Keeps (closed s) b l v =
      (record { one = v.one; zeroth = tt }, λ xs h. phase-ended b.socket (b.destroyed 0) xs h)
  step-Keeps (errored s message) b l v = (
    record { one = v.one; zeroth = tt },
    λ xs h. phase-ended b.socket (b.destroyed 0) (rejected message ∷ xs) h,
  )

  run-Keeps :
      (es : List Event) (b : SessionBridge)
      → All IsLater es
      → IsAttachedOnce b
      → IsPtyTrace (phase_of b) (run goes es b).1
  unfolding run
  run-Keeps [] b l v = nil-IsPtyTrace b.socket (b.destroyed 0)
  run-Keeps (e ∷ es) b l v =
      let (once, keep) = step-Keeps e b l.0 v in keep _ (run-Keeps es (step goes e b).0 l.1 once)

  -- Over any events of a session bridge after its one attach, only its own socket is used: it gets
  -- ATTACH packets and frames, and at last a DETACH at most, which its destruction follows at once,
  -- and nothing after its destruction, which comes once at most.
  pub run-IsPtyTrace :
      (session : String) (cols rows : ℕ) (es : List Event)
      → All IsLater es
      → IsPtyTrace live (run goes es (attach session cols rows fresh).0).1
  unfolding attach
  run-IsPtyTrace session cols rows es l = run-Keeps es _ l (record { one = refl; zeroth = refl })
