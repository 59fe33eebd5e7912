-- ===== src/Relay/Connection/Order.antt =====
-- When a connection gives plaintexts to the daemon, and with which patterns it shakes hands.
use pty_relay.Base.{
  ℕ, String, Bool, true, false, Option, none, some, List, [], ◌∷◌, ◌++◌, ◌≡◌, refl, sym, subst, ap,
  ◌∙◌, ◌⊎◌, inl, inr, Bytes, str_eq, if◌then◌else◌, if-holds,
}
use pty_relay.Js.{Json, null, obj, Fields, string_at}
use pty_relay.Crypto.Primitives.{Fault, Result, ok, fault}
use pty_relay.Crypto.CipherState.{Transport}
use pty_relay.Crypto.Pattern.{Pattern, Options, nk, kk, nk_psk2}
use pty_relay.Crypto.SymmetricState.{SymmetricState}
use pty_relay.Crypto.Handshake.{Handshake, make, make_checked, start_with, first_symmetric}
use pty_relay.Relay.Connection.{
  PairedMeta, State, connecting, waiting, handshaking, ready, closed, Failure, Output,
  closed_socket, on_connected, on_paired, on_handshake_complete, on_encrypted_message,
  on_peer_disconnected, on_error, on_close, on_revoked, psk_attempt, uncaught, Env, Conn, emit,
  close, Choice, chosen, refused, audit_refusal, audit, choose_kk, choose_psk, choose_nk, choose_by,
  choose, started, begin, begin_handshake, paired_by, on_paired_frame, paired_meta, on_type,
  on_text, failed, finished, welcomed, answered, on_handshake_frame, opened, on_tunnel_frame,
  on_binary, sent_by, send_ready, send, socket_closed, Event, call_connect, call_send, call_close,
  socket_open, text, binary, socket_close, socket_failed, rejected, step, run,
}

-- Whether the tunnel is up after these outputs, when it was before: a completed handshake opens it,
-- and a paired frame, the end of the peer and any close end it.
abbrev pub up : Bool → List Output → Bool
up live [] = live
up live (on_handshake_complete ∷ os) = up true os
up live (on_paired meta ∷ os) = up false os
up live (on_peer_disconnected ∷ os) = up false os
up live (closed_socket ∷ os) = up false os
up live (on_close code ∷ os) = up false os
up live (o ∷ os) = up live os

-- A plaintext needs the tunnel.
abbrev pub Needs : Output → Bool → Type 0
Needs (on_encrypted_message p) live = live ≡ true
Needs _ live = Unit

-- Every plaintext is given to the daemon while the tunnel is up.
abbrev pub IsOrdered : Bool → List Output → Type 0
IsOrdered live [] = Unit
IsOrdered live (o ∷ os) = Needs o live × IsOrdered (up live (o ∷ [])) os

-- One step of `up` and the rest.
up_cons :
    (live : Bool) (o : Output) (os : List Output) → up live (o ∷ os) ≡ up (up live (o ∷ [])) os
up_cons live on_handshake_complete os = refl
up_cons live (on_paired meta) os = refl
up_cons live on_peer_disconnected os = refl
up_cons live closed_socket os = refl
up_cons live (on_close code) os = refl
up_cons live (Output.sent_frame bs) os = refl
up_cons live on_connected os = refl
up_cons live (on_encrypted_message p) os = refl
up_cons live (on_error f) os = refl
up_cons live on_revoked os = refl
up_cons live (psk_attempt b f) os = refl
up_cons live uncaught os = refl

up-append : (live : Bool) (os ps : List Output) → up live (os ++ ps) ≡ up (up live os) ps
up-append live [] ps = refl
up-append live (o ∷ os) ps =
    up_cons live o (os ++ ps)
    ∙ up-append (up live (o ∷ [])) os ps
    ∙ ap (λ b. up b ps) (sym (up_cons live o os))

IsOrdered-append :
    (live : Bool) (os : List Output) (o : Output)
    → IsOrdered live os
    → Needs o (up live os)
    → IsOrdered live (os ++ (o ∷ []))
IsOrdered-append live [] o h n = (n, tt)
IsOrdered-append live (p ∷ os) o h n =
    (h.0, IsOrdered-append (up live (p ∷ [])) os o h.1 (subst (Needs o) (up_cons live p os) n))

module _ (env : Env) where
  -- The pattern is KK, or the one that the daemon's pre-shared key asks for.
  abbrev IsPatternFor : Option Bytes → Pattern → Type 0
  IsPatternFor none p = p ≡ nk
  IsPatternFor (some k) p = p ≡ nk_psk2

  abbrev pub IsAllowed : Pattern → Type 0
  IsAllowed p = (p ≡ kk) ⊎ IsPatternFor env.pre_shared_key p

  abbrev pub At : State → Conn → Type 0
  At ready c = (up false c.out ≡ true) × ((t : Transport) × (c.transport ≡ some t))
  At handshaking c = (h : Handshake) × (c.handshake ≡ some h) × IsAllowed h.pattern
  At _ c = Unit

  -- The plaintexts are in order; a ready connection has its transport and an open tunnel; a running
  -- handshake has an allowed pattern.
  abbrev pub Inv : Conn → Type 0
  Inv c = IsOrdered false c.out × At c.state c

  abbrev Ordered : Conn → Type 0
  Ordered c = IsOrdered false c.out

  emit-Ordered : (o : Output) (c : Conn) → Needs o (up false c.out) → Ordered c → Ordered (emit o c)
  emit-Ordered o c n h = IsOrdered-append false c.out o h n

  -- An output that neither needs the tunnel nor changes it.
  quiet-Inv :
      (o : Output) (c : Conn)
      → ((live : Bool) → Needs o live)
      → ((live : Bool) → up live (o ∷ []) ≡ live)
      → Inv c
      → Inv (emit o c)
  quiet-Inv o c n u v = (emit-Ordered o c (n _) v.0, still c.state v.1)
    where
      still : (s : State) → At s c → At s (emit o c)
      still ready (l, t) = (up-append false c.out (o ∷ []) ∙ u (up false c.out) ∙ l, t)
      still handshaking h = h
      still connecting h = tt
      still waiting h = tt
      still closed h = tt

  ups : (c : Conn) → c.state ≡ ready → Inv c → up false c.out ≡ true
  ups c e v = (subst (λ s. At s c) e v.1).0

  close-Inv : (c : Conn) → Ordered c → Inv (close c)
  unfolding close
  close-Inv c h =
      if-holds Inv c.has_socket (emit closed_socket (record c { state = closed }))
        (record c { state = closed }) (IsOrdered-append false c.out closed_socket h tt, tt) (h, tt)

  audit-Ordered : (f : Option String) (b : Bool) (c : Conn) → Ordered c → Ordered (audit f b c)
  unfolding audit
  audit-Ordered none b c h = h
  audit-Ordered (some f) b c h =
      if-holds Ordered (str_eq f "") c _ h (emit-Ordered (psk_attempt b f) c tt h)

  failed-Inv : (r : Handshake × Fault) (c : Conn) → Ordered c → Inv (failed env r c)
  unfolding failed
  failed-Inv (h, x) c v = close-Inv _ (
      emit-Ordered (on_error _) (audit c.psk_fingerprint false (record c { handshake = some h })) tt
        (audit-Ordered c.psk_fingerprint false (record c { handshake = some h }) v))

  complete-Inv :
      (t : Transport) (c : Conn)
      → c.state ≡ ready
      → c.transport ≡ some t
      → Ordered c
      → Inv (emit on_handshake_complete c)
  complete-Inv t c e f h = (
    IsOrdered-append false c.out on_handshake_complete h tt,
    subst (λ s. At s (emit on_handshake_complete c)) (sym e)
        (up-append false c.out (on_handshake_complete ∷ []), (t, f)),
  )

  audit-state : (f : Option String) (b : Bool) (c : Conn) → (audit f b c).state ≡ c.state
  unfolding audit
  audit-state none b c = refl
  audit-state (some f) b c = if-holds (λ d. d.state ≡ c.state) (str_eq f "") c _ refl refl

  audit-transport :
      (f : Option String) (b : Bool) (c : Conn) → (audit f b c).transport ≡ c.transport
  unfolding audit
  audit-transport none b c = refl
  audit-transport (some f) b c =
      if-holds (λ d. d.transport ≡ c.transport) (str_eq f "") c _ refl refl

  finished-Inv : (r : Handshake × Result Transport) (c : Conn) → Ordered c → Inv (finished env r c)
  unfolding finished
  finished-Inv (h, fault x) c v = failed-Inv (h, x) c v
  finished-Inv (h, ok t) c v =
      let c1 : Conn = record c { transport = some t; state = ready; handshake = none } in
      complete-Inv t _ (audit-state c.psk_fingerprint true c1)
        (audit-transport c.psk_fingerprint true c1) (audit-Ordered c.psk_fingerprint true c1 v)

  welcomed-Inv : (r : Handshake × Result Bytes) (c : Conn) → Ordered c → Inv (welcomed env r c)
  unfolding welcomed
  welcomed-Inv (h, fault x) c v = failed-Inv (h, x) c v
  welcomed-Inv (h, ok w) c v = finished-Inv _ _ (emit-Ordered (Output.sent_frame w) c tt v)

  answered-Inv : (r : Handshake × Result Bytes) (c : Conn) → Ordered c → Inv (answered env r c)
  unfolding answered
  answered-Inv (h, fault x) c v = failed-Inv (h, x) c v
  answered-Inv (h, ok p) c v = welcomed-Inv _ c v

  handshake_frame-Inv :
      (o : Option Handshake) (bs : Bytes) (c : Conn) → Inv c → Inv (on_handshake_frame env o bs c)
  unfolding on_handshake_frame
  handshake_frame-Inv none bs c v = v
  handshake_frame-Inv (some h) bs c v = answered-Inv _ c v.0

  opened-Inv :
      (r : Transport × Result Bytes) (c : Conn)
      → c.state ≡ ready
      → up false c.out ≡ true
      → Ordered c
      → Inv (opened env r c)
  unfolding opened
  opened-Inv (t, fault x) c e l v =
      close-Inv _ (emit-Ordered (on_error _) (record c { transport = some t }) tt v)
  opened-Inv (t, ok p) c e l v = (
    IsOrdered-append false c.out (on_encrypted_message p) v l,
    subst (λ s. At s (emit (on_encrypted_message p) (record c { transport = some t }))) (sym e)
        (up-append false c.out (on_encrypted_message p ∷ []) ∙ l, (t, refl)),
  )

  tunnel_frame-Inv :
      (o : Option Transport) (bs : Bytes) (c : Conn)
      → c.state ≡ ready
      → Inv c
      → Inv (on_tunnel_frame env o bs c)
  unfolding on_tunnel_frame
  tunnel_frame-Inv none bs c e v = v
  tunnel_frame-Inv (some t) bs c e v = opened-Inv _ c e (ups c e v) v.0

  binary-Inv :
      (s : State) (bs : Bytes) (c : Conn) → c.state ≡ s → Inv c → Inv (on_binary env s bs c)
  unfolding on_binary
  binary-Inv handshaking bs c e v = handshake_frame-Inv c.handshake bs c v
  binary-Inv ready bs c e v = tunnel_frame-Inv c.transport bs c e v
  binary-Inv connecting bs c e v = v
  binary-Inv waiting bs c e v = v
  binary-Inv closed bs c e v = v

  -- A handshake has the pattern of its options.
  abbrev Keeps : Pattern → Result Handshake → Type 0
  Keeps p (fault x) = Unit
  Keeps p (ok h) = h.pattern ≡ p

  start_with-Keeps :
      (o : Options) (r : Result SymmetricState) → Keeps o.pattern (start_with env.crypto o r)
  start_with-Keeps o (fault x) = tt
  start_with-Keeps o (ok s) = refl

  make-Keeps : (o : Options) → Keeps o.pattern (make env.crypto o)
  unfolding make make_checked
  make-Keeps o = checked _
    where
      checked : (f : Option Fault) → Keeps o.pattern (make_checked env.crypto f o)
      checked (some x) = tt
      checked none = start_with-Keeps o (first_symmetric env.crypto o)

  -- An allowed choice.
  abbrev Permits : Choice → Type 0
  Permits (refused f) = Unit
  Permits (chosen p remote secret) = IsAllowed p

  choose_psk-Permits : (k : Option Bytes) → env.pre_shared_key ≡ k → Permits (choose_psk k)
  unfolding choose_psk
  choose_psk-Permits none e = tt
  choose_psk-Permits (some k) e = inr (subst (λ o. IsPatternFor o nk_psk2) (sym e) refl)

  choose_nk-Permits : (k : Option Bytes) → env.pre_shared_key ≡ k → Permits (choose_nk k)
  unfolding choose_nk
  choose_nk-Permits none e = inr (subst (λ o. IsPatternFor o nk) (sym e) refl)
  choose_nk-Permits (some k) e = tt

  choose_kk-Permits : (k : Option Bytes) → Permits (choose_kk k)
  unfolding choose_kk
  choose_kk-Permits none = tt
  choose_kk-Permits (some k) = inl refl

  choose-Permits : (meta : PairedMeta) → Permits (choose env meta)
  unfolding choose choose_by
  choose-Permits meta = by_key meta.client_public_key meta.wants_psk
    where
      secret :
          (wants : Bool)
          → Permits (if wants then choose_psk env.pre_shared_key else choose_nk env.pre_shared_key)
      secret wants =
          if-holds Permits wants _ _ (choose_psk-Permits env.pre_shared_key refl)
            (choose_nk-Permits env.pre_shared_key refl)

      by_key : (key : Option String) (wants : Bool) → Permits (choose_by env key wants)
      by_key none wants = secret wants
      by_key (some key) wants =
          if-holds Permits (str_eq key "") _ _ (secret wants)
            (choose_kk-Permits (env.client_key key))

  -- What a paired frame leaves, with or without an error.
  abbrev Begun : Conn × Option Failure → Type 0
  Begun (c, some f) = Ordered c
  Begun (c, none) =
      Ordered c
      × ((c.state ≡ handshaking) × ((h : Handshake) × (c.handshake ≡ some h) × IsAllowed h.pattern))

  started-Begun :
      (r : Result Handshake) (p : Pattern) (c : Conn)
      → Keeps p r
      → IsAllowed p
      → Ordered c
      → Begun (started env r c)
  unfolding started
  started-Begun (fault x) p c k a v = v
  started-Begun (ok h) p c k a v = (v, (refl, (h, refl, subst IsAllowed (sym k) a)))

  refusal-Ordered : (f : Failure) (c : Conn) → Ordered c → Ordered (audit_refusal f c)
  refusal-Ordered Failure.no_psk_loaded c v = emit-Ordered (psk_attempt false "-") c tt v
  refusal-Ordered Failure.psk_expected c v = emit-Ordered (psk_attempt false "-") c tt v
  refusal-Ordered _ c v = v

  begin-Begun :
      (choice : Choice) (c : Conn) → Permits choice → Ordered c → Begun (begin env choice c)
  unfolding begin
  begin-Begun (refused f) c p v = refusal-Ordered f c v
  begin-Begun (chosen pattern remote secret) c p v = started-Begun _ pattern _ (make-Keeps _) p v

  paired_by-Inv :
      (meta : PairedMeta) (r : Conn × Option Failure) → Begun r → Inv (paired_by env meta r)
  unfolding paired_by
  paired_by-Inv meta (c, some f) b = close-Inv _ (emit-Ordered (on_error f) c tt b)
  paired_by-Inv meta (c, none) b = (
    emit-Ordered (on_paired meta) c tt b.0,
    subst (λ s. At s (emit (on_paired meta) c)) (sym b.1.0) b.1.1,
  )

  on_type-Inv : (o : Option String) (fs : Fields) (c : Conn) → Inv c → Inv (on_type env o fs c)
  unfolding on_type on_paired_frame begin_handshake
  on_type-Inv none fs c v = v
  on_type-Inv (some type) fs c v =
      if-holds Inv (str_eq type "paired") _ _
        (paired_by-Inv _ _ (begin-Begun _ c (choose-Permits (paired_meta env fs)) v.0))
        (if-holds Inv (str_eq type "peer_disconnected") _ _
          (emit-Ordered on_peer_disconnected c tt v.0, tt)
          (if-holds Inv (str_eq type "error") _ _
            (quiet-Inv (on_error _) c (λ live. tt) (λ live. refl) v)
            (if-holds Inv (str_eq type "revoked") _ c
              (quiet-Inv on_revoked c (λ live. tt) (λ live. refl) v) v)))

  on_text-Inv : (o : Option Json) (c : Conn) → Inv c → Inv (on_text env o c)
  unfolding on_text
  on_text-Inv none c v = v
  on_text-Inv (some null) c v = quiet-Inv uncaught c (λ live. tt) (λ live. refl) v
  on_text-Inv (some (obj o)) c v = on_type-Inv (string_at "type" o) o c v
  on_text-Inv (some (Json.bool b)) c v = v
  on_text-Inv (some (Json.num n)) c v = v
  on_text-Inv (some (Json.str s)) c v = v
  on_text-Inv (some (Json.arr xs)) c v = v

  sent_by-Inv :
      (r : Transport × Result Bytes) (c : Conn) → c.state ≡ ready → Inv c → Inv (sent_by env r c).0
  unfolding sent_by
  sent_by-Inv (t, fault x) c e v =
      (v.0, subst (λ s. At s (record c { transport = some t })) (sym e) (ups c e v, (t, refl)))
  sent_by-Inv (t, ok bs) c e v =
      quiet-Inv (Output.sent_frame bs) (record c { transport = some t }) (λ live. tt) (λ live. refl)
        (v.0, subst (λ s. At s (record c { transport = some t })) (sym e) (ups c e v, (t, refl)))

  send_ready-Inv :
      (s : State) (o : Option Transport) (plaintext : Bytes) (c : Conn)
      → c.state ≡ s
      → Inv c
      → Inv (send_ready env s o plaintext c).0
  unfolding send_ready
  send_ready-Inv ready (some t) plaintext c e v =
      if-holds (λ (r : Conn × Option Failure). Inv r.0) c.has_socket _ _ (sent_by-Inv _ c e v) v
  send_ready-Inv ready none plaintext c e v = v
  send_ready-Inv connecting o plaintext c e v = v
  send_ready-Inv waiting o plaintext c e v = v
  send_ready-Inv handshaking o plaintext c e v = v
  send_ready-Inv closed o plaintext c e v = v

  socket_closed-Inv :
      (s : State) (code : Option ℕ) (c : Conn) → Inv c → Inv (socket_closed env s code c)
  unfolding socket_closed
  socket_closed-Inv closed code c v = v
  socket_closed-Inv connecting code c v = (emit-Ordered (on_close code) c tt v.0, tt)
  socket_closed-Inv waiting code c v = (emit-Ordered (on_close code) c tt v.0, tt)
  socket_closed-Inv handshaking code c v = (emit-Ordered (on_close code) c tt v.0, tt)
  socket_closed-Inv ready code c v = (emit-Ordered (on_close code) c tt v.0, tt)

  step-Inv : (e : Event) (c : Conn) → Inv c → Inv (step env e c)
  unfolding step send
  step-Inv call_connect c v = (v.0, tt)
  step-Inv (call_send plaintext) c v = send_ready-Inv c.state c.transport plaintext c refl v
  step-Inv call_close c v = close-Inv c v.0
  step-Inv socket_open c v = (emit-Ordered on_connected c tt v.0, tt)
  step-Inv (text t) c v = on_text-Inv (env.parse t) c v
  step-Inv (binary bs) c v = binary-Inv c.state bs c refl v
  step-Inv (socket_close code) c v = socket_closed-Inv c.state code c v
  step-Inv socket_failed c v = quiet-Inv (on_error _) c (λ live. tt) (λ live. refl) v
  step-Inv (rejected status) c v = (
    emit-Ordered (on_close status) (emit (on_error Failure.upgrade_rejected) c) tt
        (emit-Ordered (on_error _) c tt v.0),
    tt,
  )

  -- Over any events every plaintext is given to the daemon after a completed handshake, with no
  -- paired frame, end of the peer or close in between; a ready connection has a transport, and the
  -- pattern of a running handshake is KK, or NKpsk2 if the daemon has a pre-shared key and NK if
  -- not.
  pub run_in_order : (es : List Event) (c : Conn) → Inv c → Inv (run env es c)
  unfolding run
  run_in_order [] c v = v
  run_in_order (e ∷ es) c v = run_in_order es (step env e c) (step-Inv e c v)
