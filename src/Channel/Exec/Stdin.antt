-- ===== src/Channel/Exec/Stdin.antt =====
-- What a run of the bridge does to the child: its stdin and the signals that it is sent.
use pty_relay.Base.{
  ℕ, String, Bool, true, false, Option, none, some, List, [], ◌∷◌, ◌++◌, ◌≡◌, refl, ◌⊎◌, inl, inr,
  All, All-append, Bytes, arith, eq_iff, Bool-cases, ◌==◌, subst, length, if◌then◌else◌,
}
use pty_relay.Channel.Framing.{type_signal, type_data, stdin_id, unwrap_substream}
use pty_relay.Channel.Exec.{
  Platform, Action, send_data, send_exit, send_close, stdin_write, stdin_end, kill, Bridge, Event,
  ChildEvent, frame, child_event, closed, stdout, stderr, exit, error, on_frame, on_child, close,
  step, run, is_allowed_signal, Child, handle_signal, tear_down, on_stdin, on_live_frame, announce,
  frame_for, child_for, on_data, if_stdin, signal_named,
}

-- Writes come before the end of stdin, which comes once; `shut` says that it has come.
abbrev pub IsStdinTrace : Bool → List Action → Type 0
IsStdinTrace shut [] = Unit
IsStdinTrace shut (stdin_write bytes ∷ xs) = (shut ≡ false) × IsStdinTrace shut xs
IsStdinTrace shut (stdin_end ∷ xs) = (shut ≡ false) × IsStdinTrace true xs
IsStdinTrace shut (_ ∷ xs) = IsStdinTrace shut xs

abbrev pub IsAllowedSignal : String → Type 0
IsAllowedSignal name = (name ≡ "SIGINT") ⊎ ((name ≡ "SIGTERM") ⊎ (name ≡ "SIGHUP"))

-- A signal to the child is an allowed one.
abbrev pub IsAllowed : Action → Type 0
IsAllowed (kill name) = IsAllowedSignal name
IsAllowed _ = Unit

-- An action that leaves stdin alone, and is no other signal than an allowed one.
abbrev IsNeutral : Action → Type 0
IsNeutral (kill name) = IsAllowedSignal name
IsNeutral (stdin_write bytes) = ⊥
IsNeutral stdin_end = ⊥
IsNeutral _ = Unit

IsStdinTrace-neutral :
    (shut : Bool) (ys xs : List Action)
    → All IsNeutral ys
    → IsStdinTrace shut xs
    → IsStdinTrace shut (ys ++ xs)
IsStdinTrace-neutral shut [] xs h k = k
IsStdinTrace-neutral shut (send_data bytes ∷ ys) xs h k = IsStdinTrace-neutral shut ys xs h.1 k
IsStdinTrace-neutral shut (send_exit id c s ∷ ys) xs h k = IsStdinTrace-neutral shut ys xs h.1 k
IsStdinTrace-neutral shut (send_close id r ∷ ys) xs h k = IsStdinTrace-neutral shut ys xs h.1 k
IsStdinTrace-neutral shut (stdin_write bytes ∷ ys) xs h k = absurd h.0
IsStdinTrace-neutral shut (stdin_end ∷ ys) xs h k = absurd h.0
IsStdinTrace-neutral shut (kill name ∷ ys) xs h k = IsStdinTrace-neutral shut ys xs h.1 k

IsAllowed-neutral : (ys : List Action) → All IsNeutral ys → All IsAllowed ys
IsAllowed-neutral [] h = tt
IsAllowed-neutral (send_data bytes ∷ ys) h = (tt, IsAllowed-neutral ys h.1)
IsAllowed-neutral (send_exit id c s ∷ ys) h = (tt, IsAllowed-neutral ys h.1)
IsAllowed-neutral (send_close id r ∷ ys) h = (tt, IsAllowed-neutral ys h.1)
IsAllowed-neutral (stdin_write bytes ∷ ys) h = absurd h.0
IsAllowed-neutral (stdin_end ∷ ys) h = absurd h.0
IsAllowed-neutral (kill name ∷ ys) h = (h.0, IsAllowed-neutral ys h.1)

-- After the end of stdin a trace may be read as one before it.
IsStdinTrace-weaken : (shut : Bool) (xs : List Action) → IsStdinTrace true xs → IsStdinTrace shut xs
IsStdinTrace-weaken shut [] h = h
IsStdinTrace-weaken shut (send_data bytes ∷ xs) h = IsStdinTrace-weaken shut xs h
IsStdinTrace-weaken shut (send_exit id c s ∷ xs) h = IsStdinTrace-weaken shut xs h
IsStdinTrace-weaken shut (send_close id r ∷ xs) h = IsStdinTrace-weaken shut xs h
IsStdinTrace-weaken shut (stdin_write bytes ∷ xs) h = cc
IsStdinTrace-weaken shut (stdin_end ∷ xs) h = cc
IsStdinTrace-weaken shut (kill name ∷ xs) h = IsStdinTrace-weaken shut xs h

-- A step whose actions keep to both rules, whatever may follow it.
abbrev Keeps : Bridge → Bridge × List Action → Type 0
Keeps b r =
    ((xs : List Action)
      → IsStdinTrace r.0.stdin_closed xs
      → IsStdinTrace b.stdin_closed (r.1 ++ xs))
    × All IsAllowed r.1

neutral-Keeps :
    (b : Bridge) (r : Bridge × List Action)
    → r.0.stdin_closed ≡ b.stdin_closed
    → All IsNeutral r.1
    → Keeps b r
neutral-Keeps b r e h = (
  λ xs k. IsStdinTrace-neutral b.stdin_closed r.1 xs h (subst (λ s. IsStdinTrace s xs) e k),
  IsAllowed-neutral r.1 h,
)

if-Keeps :
    (t : Bool) (b : Bridge) (r s : Bridge × List Action)
    → (t ≡ true → Keeps b r)
    → (t ≡ false → Keeps b s)
    → Keeps b (if t then r else s)
if-Keeps true b r s h k = h refl
if-Keeps false b r s h k = k refl

-- What goes to stdin while it is open.
end-Keeps :
    (c : Child) (b : Bridge)
    → b.stdin_closed ≡ false
    → Keeps b (record b { stdin_closed = true }, if_stdin c stdin_end)
end-Keeps c b e = (λ xs h. ground (arith, IsStdinTrace-weaken b.stdin_closed xs h), ground arith)

write-Keeps :
    (c : Child) (bytes : Bytes) (b : Bridge)
    → b.stdin_closed ≡ false
    → Keeps b (b, if_stdin c (stdin_write bytes))
write-Keeps c bytes b e = (λ xs h. ground arith, ground arith)

module _ (p : Platform) where
  close-Keeps : (reason : String) (b : Bridge) → Keeps b (close p reason b)
  close-Keeps reason b =
      neutral-Keeps b (close p reason b) (unfold close in ground arith)
        (unfold close in ground arith)

  tear_down-Keeps : (reason : String) (b : Bridge) → Keeps b (tear_down p reason b)
  tear_down-Keeps reason b =
      neutral-Keeps b (tear_down p reason b) (unfold tear_down close in ground arith)
        (unfold tear_down close in ground arith)

  is_allowed_signal-IsAllowed :
      (name : String) → is_allowed_signal name ≡ true → IsAllowedSignal name
  unfolding is_allowed_signal
  is_allowed_signal-IsAllowed name h =
      ground (arith, eq_iff name "SIGINT", eq_iff name "SIGTERM", eq_iff name "SIGHUP")

  signal-IsNeutral : (o : Option String) → All IsNeutral (signal_named p o)
  unfolding signal_named
  signal-IsNeutral none = tt
  signal-IsNeutral (some text) = elim (Bool-cases (is_allowed_signal (p.trim text))) [
    | inl hit ↦ rw hit (is_allowed_signal-IsAllowed _ hit, tt)
    | inr miss ↦ rw miss tt
  ]

  stdin-Keeps : (c : Child) (bytes : Bytes) (b : Bridge) → Keeps b (on_stdin p c bytes b)
  unfolding on_stdin
  stdin-Keeps c bytes b =
      if-Keeps b.stdin_closed b (tear_down p "protocol_error" b)
        (if length bytes == 0
          then (record b { stdin_closed = true }, if_stdin c stdin_end)
          else (b, if_stdin c (stdin_write bytes)))
        (λ _. tear_down-Keeps "protocol_error" b)
        λ opened.
          if-Keeps (length bytes == 0) b (record b { stdin_closed = true }, if_stdin c stdin_end)
            (b, if_stdin c (stdin_write bytes)) (λ _. end-Keeps c b opened)
            (λ _. write-Keeps c bytes b opened)

  data-Keeps :
      (c : Child) (payload : Bytes) (b : Bridge)
      → Keeps b (on_data p c (unwrap_substream payload) b)
  unfolding on_data unwrap_substream
  data-Keeps c [] b = tear_down-Keeps "protocol_error" b
  data-Keeps c (substream ∷ bytes) b =
      if-Keeps (substream == stdin_id) b (on_stdin p c bytes b) (tear_down p "protocol_error" b)
        (λ _. stdin-Keeps c bytes b) (λ _. tear_down-Keeps "protocol_error" b)

  frame-Keeps :
      (c : Child) (type : ℕ) (payload : Bytes) (b : Bridge)
      → Keeps b (on_live_frame p c type payload b)
  unfolding on_live_frame
  frame-Keeps c type payload b =
      if-Keeps (type == type_signal) b (b, handle_signal p payload)
        (if type == type_data
          then on_data p c (unwrap_substream payload) b
          else tear_down p "protocol_error" b)
        (λ _.
          neutral-Keeps b (b, handle_signal p payload) refl
            (unfold handle_signal in signal-IsNeutral (p.utf8_decode payload)))
        λ _.
          if-Keeps (type == type_data) b (on_data p c (unwrap_substream payload) b)
            (tear_down p "protocol_error" b) (λ _. data-Keeps c payload b)
            (λ _. tear_down-Keeps "protocol_error" b)

  frame_for-Keeps :
      (o : Option Child) (type : ℕ) (payload : Bytes) (b : Bridge)
      → Keeps b (frame_for p o type payload b)
  unfolding frame_for
  frame_for-Keeps none type payload b = neutral-Keeps b (b, []) refl tt
  frame_for-Keeps (some c) type payload b =
      if-Keeps b.finalized b (b, []) (on_live_frame p c type payload b)
        (λ _. neutral-Keeps b (b, []) refl tt) (λ _. frame-Keeps c type payload b)

  child-Keeps : (o : Option Child) (e : ChildEvent) (b : Bridge) → Keeps b (child_for o e b)
  unfolding child_for on_child announce
  child-Keeps none e b = neutral-Keeps b (b, []) refl tt
  child-Keeps (some c) (stdout chunk) b =
      neutral-Keeps b (child_for (some c) (stdout chunk) b) refl (ground arith)
  child-Keeps (some c) (stderr chunk) b =
      neutral-Keeps b (child_for (some c) (stderr chunk) b) refl (ground arith)
  child-Keeps (some c) (exit code signal) b =
      neutral-Keeps b (child_for (some c) (exit code signal) b) (ground arith) (ground arith)
  child-Keeps (some c) (error message) b =
      neutral-Keeps b (child_for (some c) (error message) b) (ground arith) (ground arith)

  step-Keeps : (e : Event) (b : Bridge) → Keeps b (step p e b)
  unfolding step on_frame
  step-Keeps (frame type payload) b = frame_for-Keeps b.child type payload b
  step-Keeps (child_event e) b = child-Keeps b.child e b
  step-Keeps (closed reason) b = close-Keeps reason b

  -- Over any events the child's stdin gets no bytes and no second end after its end, and every
  -- signal to the child is SIGINT, SIGTERM or SIGHUP.
  pub run-IsStdinTrace :
      (es : List Event) (b : Bridge)
      → IsStdinTrace b.stdin_closed (run p es b).1 × All IsAllowed (run p es b).1
  unfolding run
  run-IsStdinTrace [] b = (tt, tt)
  run-IsStdinTrace (e ∷ es) b =
      let (trace, allowed) = run-IsStdinTrace es (step p e b).0 in
      let (keep, here) = step-Keeps e b in
      (keep _ trace, All-append IsAllowed (step p e b).1 _ here allowed)
