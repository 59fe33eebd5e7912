-- ===== src/Channel/Exec/Announce.antt =====
-- The end of an exec channel (src/relay/exec-bridge.ts): the control messages over a run.
use pty_relay.Base.{
  ℕ, String, true, false, Option, none, some, List, [], ◌∷◌, ◌++◌, ◌≡◌, refl, ◌⊎◌, inl, inr, Bytes,
  arith, Bool-cases, ◌==◌, ◌∙◌, subst, append-nil,
}
use pty_relay.Js.{Number, neg}
use pty_relay.Channel.Framing.{type_signal, type_data, stdin_id, unwrap_substream}
use pty_relay.Channel.Exec.{
  Platform, Action, send_data, send_exit, send_close, stdin_write, stdin_end, kill, Bridge, Event,
  ChildEvent, frame, child_event, closed, stdout, stderr, exit, error, on_frame, on_child, close,
  step, run, Child, handle_signal, tear_down, on_stdin, on_live_frame, announce, frame_for,
  child_for, on_data, signal_named,
}

-- The control messages among the actions.
abbrev pub controls : List Action → List Action
controls [] = []
controls (send_exit id code signal ∷ xs) = send_exit id code signal ∷ controls xs
controls (send_close id reason ∷ xs) = send_close id reason ∷ controls xs
controls (_ ∷ xs) = controls xs

controls-append : (xs ys : List Action) → controls (xs ++ ys) ≡ controls xs ++ controls ys
controls-append [] ys = refl
controls-append (send_data p ∷ xs) ys = controls-append xs ys
controls-append (send_exit id code signal ∷ xs) ys = ground (arith, controls-append xs ys)
controls-append (send_close id reason ∷ xs) ys = ground (arith, controls-append xs ys)
controls-append (stdin_write p ∷ xs) ys = controls-append xs ys
controls-append (stdin_end ∷ xs) ys = controls-append xs ys
controls-append (kill s ∷ xs) ys = controls-append xs ys

-- One exit with its close, one close for a violation of the protocol, or nothing.
abbrev pub IsAnnouncement : ℕ → List Action → Type 0
IsAnnouncement id xs =
    ((code : Option Number) × (signal : Option String) × (xs
        ≡ send_exit id code signal ∷ send_close id "exit" ∷ []))
    ⊎ ((xs ≡ send_close id "protocol_error" ∷ []) ⊎ (xs ≡ []))

-- A step of an open bridge leaves it open and announces nothing, or ends it.
abbrev StepKind : Bridge → Bridge × List Action → Type 0
StepKind b r =
    ((r.0.finalized ≡ false) × (r.0.channel_id ≡ b.channel_id) × (controls r.1 ≡ []))
    ⊎ ((r.0.finalized ≡ true) × IsAnnouncement b.channel_id (controls r.1))

module _ (p : Platform) where
  tear_down-kind : (b : Bridge) → b.finalized ≡ false → StepKind b (tear_down p "protocol_error" b)
  unfolding tear_down close
  tear_down-kind b h = inr (ground arith, inr (inl (ground arith)))

  signal-kind : (payload : Bytes) → controls (handle_signal p payload) ≡ []
  unfolding handle_signal signal_named
  signal-kind payload = ground arith

  stdin-kind :
      (c : Child) (bytes : Bytes) (b : Bridge)
      → b.finalized ≡ false
      → StepKind b (on_stdin p c bytes b)
  unfolding on_stdin
  stdin-kind c bytes b h = ground (arith, tear_down-kind b h)

  close-kind : (reason : String) (b : Bridge) → b.finalized ≡ false → StepKind b (close p reason b)
  unfolding close
  close-kind reason b h = ground arith

  child-kind :
      (e : ChildEvent) (c : Child) (b : Bridge) → b.finalized ≡ false → StepKind b (on_child e c b)
  unfolding on_child announce
  child-kind (stdout chunk) c b h = ground arith
  child-kind (stderr chunk) c b h = ground arith
  child-kind (exit code signal) c b h = inr (ground arith, inl (code, signal, ground arith))
  child-kind (error message) c b h = inr (ground arith, inl (some (neg 0), none, ground arith))

  data-kind :
      (c : Child) (payload : Bytes) (b : Bridge)
      → b.finalized ≡ false
      → StepKind b (on_data p c (unwrap_substream payload) b)
  unfolding on_data unwrap_substream
  data-kind c [] b h = tear_down-kind b h
  data-kind c (substream ∷ bytes) b h = elim (Bool-cases (substream == stdin_id)) [
    | inl hit ↦ rw hit (stdin-kind c bytes b h)
    | inr odd ↦ rw odd (tear_down-kind b h)
  ]

  frame-kind :
      (c : Child) (type : ℕ) (payload : Bytes) (b : Bridge)
      → b.finalized ≡ false
      → StepKind b (on_live_frame p c type payload b)
  unfolding on_live_frame
  frame-kind c type payload b h = elim (Bool-cases (type == type_signal)) [
    | inl hit ↦ rw (hit, on_live_frame) (inl (h, refl, signal-kind payload))
    | inr miss ↦ elim (Bool-cases (type == type_data)) [
      | inl hit ↦ rw (miss, hit, on_live_frame) (data-kind c payload b h)
      | inr odd ↦ rw (miss, odd, on_live_frame) (tear_down-kind b h)
    ]
  ]

  frame_for-kind :
      (o : Option Child) (type : ℕ) (payload : Bytes) (b : Bridge)
      → b.finalized ≡ false
      → StepKind b (frame_for p o type payload b)
  unfolding frame_for
  frame_for-kind none type payload b h = inl (h, refl, refl)
  frame_for-kind (some c) type payload b h = simp h (frame-kind c type payload b h)

  child_for-kind :
      (o : Option Child) (e : ChildEvent) (b : Bridge)
      → b.finalized ≡ false
      → StepKind b (child_for o e b)
  unfolding child_for
  child_for-kind none e b h = inl (h, refl, refl)
  child_for-kind (some c) e b h = child-kind e c b h

  step-kind : (e : Event) (b : Bridge) → b.finalized ≡ false → StepKind b (step p e b)
  unfolding step on_frame
  step-kind (frame type payload) b h = frame_for-kind b.child type payload b h
  step-kind (child_event e) b h = child_for-kind b.child e b h
  step-kind (closed reason) b h = close-kind reason b h

  -- A closed bridge stays as it is and announces nothing more.
  step_finalized :
      (e : Event) (b : Bridge)
      → b.finalized ≡ true
      → ((step p e b).0 ≡ b) × (controls (step p e b).1 ≡ [])
  unfolding step on_frame frame_for child_for on_child announce close
  step_finalized (frame type payload) b h = ground arith
  step_finalized (child_event (stdout chunk)) b h = ground arith
  step_finalized (child_event (stderr chunk)) b h = ground arith
  step_finalized (child_event (exit code signal)) b h = ground arith
  step_finalized (child_event (error message)) b h = ground arith
  step_finalized (closed reason) b h = ground arith

  run_finalized : (es : List Event) (b : Bridge) → b.finalized ≡ true → controls (run p es b).1 ≡ []
  unfolding run
  run_finalized [] b h = refl
  run_finalized (e ∷ es) b h =
      let (same, quiet) = step_finalized e b h in
      controls-append (step p e b).1 _ ∙ rw (quiet, same) (run_finalized es b h)

  -- Over any events from an open state a bridge sends the control messages of one ending at most:
  -- channel_exit then channel_close "exit", or channel_close "protocol_error", or nothing.
  pub run-IsAnnouncement :
      (es : List Event) (b : Bridge)
      → b.finalized ≡ false
      → IsAnnouncement b.channel_id (controls (run p es b).1)
  unfolding run
  run-IsAnnouncement [] b h = inr (inr refl)
  run-IsAnnouncement (e ∷ es) b h = elim (step-kind e b h) [
    | inl (open', same, quiet) ↦
        rw (controls-append (step p e b).1 (run p es (step p e b).0).1, quiet)
          (subst (λ id. IsAnnouncement id (controls (run p es (step p e b).0).1)) same
            (run-IsAnnouncement es (step p e b).0 open'))
    | inr (ended, once) ↦
        rw
          (
            controls-append (step p e b).1 (run p es (step p e b).0).1,
            run_finalized es (step p e b).0 ended,
            append-nil,
          )
          once
  ]
