-- ===== src/Relay/Connection/Hello.antt =====
-- The handshake through a connection: a client's hello, and the daemon's welcome.
use pty_relay.Base.{
  ℕ, String, Bool, true, false, not, Option, none, some, [], ◌≡◌, refl, sym, subst, ap, ◌∙◌, inl,
  Bytes, Occurs, Occurs-append_left, Occurs-append_right, str_eq, if-holds,
}
use pty_relay.Crypto.Primitives.{Result, ok, fault}
use pty_relay.Crypto.CipherState.{Transport}
use pty_relay.Crypto.CipherState.Stream.{Opens}
use pty_relay.Crypto.Pattern.{KeyPair}
use pty_relay.Crypto.Handshake.{Handshake, and_then, read_message, write_message, split}
use pty_relay.Crypto.Handshake.Mirror.{DhLaws, Mirror}
use pty_relay.Crypto.Handshake.Session.{SplitAgree, read_message-write_message, split-Mirror}
use pty_relay.Relay.Connection.{
  handshaking, ready, closed, sent_frame, closed_socket, Env, Conn, emit, close, audit, failed,
  finished, welcomed, answered, on_handshake_frame, on_binary, binary, step,
}

not-not : (b : Bool) → b ≡ not (not b)
not-not true = refl
not-not false = refl

Mirror-sym : {IsPair : KeyPair → Type 0} {a b : Handshake} → Mirror IsPair a b → Mirror IsPair b a
Mirror-sym {a} m = record {
  pattern = sym m.pattern;
  roles = not-not a.initiator ∙ ap not (sym m.roles);
  own = m.remote;
  remote = m.own;
  ephemeral = m.remote_ephemeral;
  remote_ephemeral = m.ephemeral;
  secret = sym m.secret;
  symmetric = sym m.symmetric;
  next_index = sym m.next_index;
}

close-closed : (c : Conn) → (close c).state ≡ closed
unfolding close
close-closed c =
    if-holds (λ (d : Conn). d.state ≡ closed) c.has_socket
      (emit closed_socket (record c { state = closed })) (record c { state = closed }) refl refl

module _ (env : Env) where
  -- What the daemon does with a handshake after the hello: write the welcome, then split.
  abbrev pub reply : ℕ → Handshake → Handshake × Result Transport
  reply n h =
      and_then (write_message env.crypto (env.draw n) [] h) (λ welcome s. split env.crypto s)

  -- The client that read the welcome has the transport that fits the daemon's.
  abbrev pub IsJoined : Handshake → Bytes → Handshake × Result Transport → Type 0
  IsJoined client welcome r =
      (client' : Handshake) × (read_message env.crypto welcome client ≡ (client', ok []))
      × SplitAgree (split env.crypto client') r

  -- The connection after the hello: closed because the reply threw, or ready with the transport and
  -- the welcome on its way.
  abbrev pub IsAnswered : Handshake → Handshake × Result Transport → Conn → Type 0
  IsAnswered client (h, fault x) v = v.state ≡ closed
  IsAnswered client (h, ok t) v =
      (v.state ≡ ready)
      × ((v.transport ≡ some t)
          × ((welcome : Bytes) × Occurs (sent_frame welcome) v.out
              × IsJoined client welcome (h, ok t)))

  module _ (IsPair : KeyPair → Type 0) (opens : Opens env.crypto) (laws : DhLaws env.crypto IsPair)
      (gen : ℕ → KeyPair) (pairs : (i : ℕ) → IsPair (gen i))
      (drawn : (n i : ℕ) → IsPair (env.draw n i)) where
    audit-keeps :
        (o : Option String) (b : Bool) (t : Transport) (welcome : Bytes) (c : Conn)
        → c.state ≡ ready
        → c.transport ≡ some t
        → Occurs (sent_frame welcome) c.out
        → ((audit o b c).state ≡ ready)
          × (((audit o b c).transport ≡ some t) × Occurs (sent_frame welcome) (audit o b c).out)
    unfolding audit
    audit-keeps none b t welcome c e f w = (e, (f, w))
    audit-keeps (some x) b t welcome c e f w =
        if-holds
          (λ (d : Conn).
            (d.state ≡ ready) × ((d.transport ≡ some t) × Occurs (sent_frame welcome) d.out))
          (str_eq x "") c _ (e, (f, w)) (e, (f, Occurs-append_left (sent_frame welcome) c.out _ w))

    finished-IsAnswered :
        (r : Handshake × Result Transport) (a : Handshake) (welcome : Bytes) (c : Conn)
        → ((t : Transport) → r.1 ≡ ok t → IsJoined a welcome (r.0, ok t))
        → Occurs (sent_frame welcome) c.out
        → IsAnswered a r (finished env r c)
    unfolding finished failed
    finished-IsAnswered (h, fault x) a welcome c j w = close-closed _
    finished-IsAnswered (h, ok t) a welcome c j w =
        let c1 : Conn = record c { transport = some t; state = ready; handshake = none } in
        let (e, (f, o)) = audit-keeps c.psk_fingerprint true t welcome c1 refl refl w in
        (e, (f, (welcome, (Occurs-append_left (sent_frame welcome) _ _ o), j t refl)))

    -- The client's transport fits what the daemon splits into.
    joined :
        (h a : Handshake) (welcome : Bytes) (a'' : Handshake)
        → read_message env.crypto welcome a ≡ (a'', ok [])
        → Mirror IsPair a'' h
        → (t : Transport) → (split env.crypto h).1 ≡ ok t
        → IsJoined a welcome ((split env.crypto h).0, ok t)
    joined h a welcome a'' read m t done = (
      a'',
      read,
      subst (λ r. SplitAgree (split env.crypto a'') ((split env.crypto h).0, r)) done
          (split-Mirror env.crypto IsPair opens laws gen pairs a'' h m),
    )

    welcomed-IsAnswered :
        (r : Handshake × Result Bytes) (h a : Handshake) (c : Conn)
        → write_message env.crypto (env.draw c.begun) [] h ≡ r
        → Mirror IsPair h a
        → IsAnswered a (and_then r (λ welcome s. split env.crypto s)) (welcomed env r c)
    unfolding welcomed failed
    welcomed-IsAnswered (h', fault x) h a c e m = close-closed _
    welcomed-IsAnswered (h', ok welcome) h a c e m =
        let (a'', read, m') =
          read_message-write_message env.crypto IsPair opens laws (env.draw c.begun) (drawn c.begun)
            [] welcome h a h' m e in
        finished-IsAnswered (split env.crypto h') a welcome _
          (joined h' a welcome a'' read (Mirror-sym m'))
          (Occurs-append_right (sent_frame welcome) c.out _ (inl refl))

    -- When a connection's handshake is in step with a client's, the client's hello is answered:
    -- when writing the welcome or splitting throws, the connection closes; and else it is ready,
    -- the welcome is sent, and the client that reads it splits into a transport whose sending and
    -- receiving cipher states are the daemon's receiving and sending ones, given that the cipher
    -- opens what it sealed and that Diffie-Hellman agrees.
    pub step-hello :
        (c : Conn) (h client client' : Handshake) (payload hello : Bytes)
        → c.state ≡ handshaking
        → c.handshake ≡ some h
        → Mirror IsPair client h
        → write_message env.crypto gen payload client ≡ (client', ok hello)
        → (h' : Handshake) × (read_message env.crypto hello h ≡ (h', ok payload))
          × IsAnswered client' (reply c.begun h') (step env (binary hello) c)
    unfolding step on_binary on_handshake_frame answered
    step-hello c h client client' payload hello state running m wrote =
        let (h', read, m') =
          read_message-write_message env.crypto IsPair opens laws gen pairs payload hello client h
            client' m wrote in
        (
          h',
          read,
          subst (λ x. IsAnswered client' (reply c.begun h') (on_binary env x hello c)) (sym state)
              (subst (λ o. IsAnswered client' (reply c.begun h') (on_handshake_frame env o hello c))
                (sym running)
                (subst (λ r. IsAnswered client' (reply c.begun h') (answered env r c)) (sym read)
                  (welcomed-IsAnswered _ h' client' c refl (Mirror-sym m')))),
        )
