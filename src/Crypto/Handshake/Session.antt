-- ===== src/Crypto/Handshake/Session.antt =====
-- Whole messages, the constructor and the split of two parties in step.
use pty_relay.Base.{
  ℕ, ◌+◌, ◌%◌, Bool, true, false, not, ◌++◌, Option, none, some, length, Bytes, leb, ◌==◌, ◌≡◌,
  refl, sym, subst, ◌∙◌, ap, if◌then◌else◌,
}
use pty_relay.Crypto.Primitives.{Crypto, Result, ok, fault}
use pty_relay.Crypto.CipherState.{CipherState, Transport, encrypt_with_ad}
use pty_relay.Crypto.CipherState.Stream.{Opens, decrypt_with_ad-encrypt_with_ad}
use pty_relay.Crypto.SymmetricState
use pty_relay.Crypto.SymmetricState.{
  SymmetricState, mix_hash, encrypt_and_hash, encrypt_and_hash_by, decrypt_and_hash,
  decrypt_and_hash_by, sealed, mixed,
}
use pty_relay.Crypto.Pattern.{KeyPair, nth}
use pty_relay.Crypto.Handshake.{
  Handshake, and_then, with_symmetric, next_message, write_tokens, write_payload, write_message,
  read_tokens, read_payload, read_message, is_complete, is_my_turn, is_sender, split, transport_of,
}
use pty_relay.Crypto.Handshake.Mirror.{DhLaws, Mirror, Matches, write_tokens-Matches}

-- A text that one symmetric state encrypts is decrypted by the same state, which changes alike.
abbrev Opened : Crypto → Bytes → SymmetricState → SymmetricState × Result Bytes → Type 0
Opened c p s (s', fault x) = Unit
Opened c p s (s', ok text) = decrypt_and_hash c text s ≡ (s', ok p)

module _ (c : Crypto) (opens : Opens c) where
  sealed-Opened :
      (w : CipherState × Result Bytes) (k p : Bytes) (s : SymmetricState)
      → s.cipher.k ≡ some k
      → encrypt_with_ad c s.h p s.cipher ≡ w
      → Opened c p s (sealed c w s)
  unfolding sealed mixed decrypt_and_hash decrypt_and_hash_by
  sealed-Opened (u, fault x) k p s key made = tt
  sealed-Opened (u, ok text) k p s key made =
      simp (key, decrypt_with_ad-encrypt_with_ad c opens s.h p text s.cipher u made)

  by_key-Opened :
      (o : Option Bytes) (p : Bytes) (s : SymmetricState)
      → s.cipher.k ≡ o
      → Opened c p s (encrypt_and_hash_by c o p s)
  unfolding encrypt_and_hash_by decrypt_and_hash decrypt_and_hash_by
  by_key-Opened none p s key = simp (key)
  by_key-Opened (some k) p s key = sealed-Opened _ k p s key refl

  encrypt_and_hash-Opened : (p : Bytes) (s : SymmetricState) → Opened c p s (encrypt_and_hash c p s)
  unfolding encrypt_and_hash
  encrypt_and_hash-Opened p s = by_key-Opened s.cipher.k p s refl

-- Both sides fail, or what one sends with is what the other receives with.
abbrev pub SplitAgree : Handshake × Result Transport → Handshake × Result Transport → Type 0
SplitAgree (a, ok s) (b, ok t) = (s.send ≡ t.recv) × (s.recv ≡ t.send)
SplitAgree (a, fault x) (b, fault y) = x ≡ y
SplitAgree _ _ = ⊥

module _ (c : Crypto) (IsPair : KeyPair → Type 0) (opens : Opens c) (laws : DhLaws c IsPair)
    (gen : ℕ → KeyPair) (pairs : (i : ℕ) → IsPair (gen i)) where
  -- What the writer made is read by `b`, which gets the payload and stays in step.
  abbrev pub Delivers :
      Bytes → (Bytes → Handshake × Result Bytes) → Handshake × Result Bytes → Type 0
  Delivers payload read (s, fault x) = Unit
  Delivers payload read (s, ok message) =
      (b' : Handshake) × (read message ≡ (b', ok payload)) × Mirror IsPair s b'

  payload-Delivers :
      (w : SymmetricState × Result Bytes) (payload parts : Bytes) (a : Handshake)
      (read : Bytes → Handshake × Result Bytes)
      → ((rest : Bytes)
          → (b : Handshake) × (read (parts ++ rest) ≡ (b, ok rest)) × Mirror IsPair a b)
      → Opened c payload a.symmetric w
      → Delivers payload
          (λ l. and_then (read l) (read_payload c))
          (and_then (with_symmetric c w a) (λ encrypted. next_message c (parts ++ encrypted)))
  unfolding read_payload
  payload-Delivers (u, fault x) payload parts a read reads opened = tt
  payload-Delivers (u, ok text) payload parts a read reads opened =
      let (b, same, m) = reads text in
      let opened_b : decrypt_and_hash c text b.symmetric ≡ (u, ok payload) =
        ap (decrypt_and_hash c text) (sym m.symmetric) ∙ opened in
      (
        record b { symmetric = u; next_index = b.next_index + 1 },
        ap (λ v. and_then v (read_payload c)) same
            ∙ ap (λ v. and_then (with_symmetric c v b) (next_message c)) opened_b,
        record {
          pattern = m.pattern;
          roles = m.roles;
          own = m.own;
          remote = m.remote;
          ephemeral = m.ephemeral;
          remote_ephemeral = m.remote_ephemeral;
          secret = m.secret;
          symmetric = refl;
          next_index = ap (λ n. n + 1) m.next_index;
        },
      )

  parts-Delivers :
      (w : Handshake × Result Bytes) (payload : Bytes) (read : Bytes → Handshake × Result Bytes)
      → Matches c IsPair laws w read
      → Delivers payload
          (λ l. and_then (read l) (read_payload c))
          (and_then w (write_payload c payload))
  unfolding write_payload
  parts-Delivers (a, fault x) payload read reads = tt
  parts-Delivers (a, ok parts) payload read reads =
      payload-Delivers _ payload parts a read reads
        (encrypt_and_hash-Opened c opens payload a.symmetric)

  -- Both sides agree on whether the handshake is complete, and on whose turn it is.
  is_complete-Mirror : (a b : Handshake) → Mirror IsPair a b → is_complete b ≡ is_complete a
  unfolding is_complete
  is_complete-Mirror a b m =
      ap (λ p. leb (length p.messages) b.next_index) (sym m.pattern)
      ∙ ap (λ n. leb (length a.pattern.messages) n) (sym m.next_index)

  other_side :
      (even i : Bool) → (if even then not i else not (not i)) ≡ not (if even then i else not i)
  other_side true i = refl
  other_side false i = refl

  is_sender-Mirror : (a b : Handshake) → Mirror IsPair a b → is_sender b ≡ not (is_sender a)
  unfolding is_sender
  is_sender-Mirror a b m =
      ap (λ n. if n % 2 == 0 then b.initiator else not b.initiator) (sym m.next_index)
      ∙ ap (λ i. if a.next_index % 2 == 0 then i else not i) m.roles
      ∙ other_side (a.next_index % 2 == 0) a.initiator

  tokens-Mirror :
      (a b : Handshake)
      → Mirror IsPair a b
      → nth a.next_index a.pattern.messages ≡ nth b.next_index b.pattern.messages
  tokens-Mirror a b m =
      ap (λ p. nth a.next_index p.messages) m.pattern
      ∙ ap (λ n. nth n b.pattern.messages) m.next_index

  by_turn-Delivers :
      (complete turn : Bool) (payload : Bytes) (a b : Handshake)
      → is_complete a ≡ complete
      → is_sender a ≡ turn
      → Mirror IsPair a b
      → Delivers payload (λ l. read_message c l b) (write_message c gen payload a)
  unfolding write_message read_message is_my_turn
  by_turn-Delivers true turn payload a b done sender m = simp (done) tt
  by_turn-Delivers false false payload a b done sender m = simp (done, sender) tt
  by_turn-Delivers false true payload a b done sender m =
      let done_b : is_complete b ≡ false = is_complete-Mirror a b m ∙ done in
      let sender_b : is_sender b ≡ false = is_sender-Mirror a b m ∙ ap not sender in
      simp (done, sender, done_b, sender_b)
        (parts-Delivers _ payload (λ l. read_tokens c (nth b.next_index b.pattern.messages) l b)
          (subst
            (λ ts.
              Matches c IsPair laws (write_tokens c gen (nth a.next_index a.pattern.messages) a)
                (λ l. read_tokens c ts l b))
            (tokens-Mirror a b m)
            (write_tokens-Matches c IsPair laws gen pairs (nth a.next_index a.pattern.messages) a b
              m)))

  -- When two handshakes are in step, for any pattern, a message that one writes is read by the
  -- other, which gets the payload, and the two are in step again; given that the cipher opens what
  -- it sealed and that Diffie-Hellman agrees.
  pub read_message-write_message :
      (payload message : Bytes) (a b a' : Handshake)
      → Mirror IsPair a b
      → write_message c gen payload a ≡ (a', ok message)
      → (b' : Handshake) × (read_message c message b ≡ (b', ok payload)) × Mirror IsPair a' b'
  read_message-write_message payload message a b a' m e =
      subst (Delivers payload (λ l. read_message c l b)) e
        (by_turn-Delivers _ _ payload a b refl refl m)

  turns :
      (done sender : Bool) {r : Bool}
      → r ≡ (if done then false else not sender)
      → r ≡ (if done then false else not (if done then false else sender))
  turns true sender h = h
  turns false sender h = h

  -- Of two handshakes in step exactly one may write until the handshake is complete, and none
  -- afterwards.
  is_my_turn-Mirror :
      (a b : Handshake)
      → Mirror IsPair a b
      → is_my_turn b ≡ (if is_complete a then false else not (is_my_turn a))
  unfolding is_my_turn
  is_my_turn-Mirror a b m = turns (is_complete a) (is_sender a) (
      ap (λ x. if x then false else is_sender b) (is_complete-Mirror a b m)
      ∙ ap (λ x. if is_complete a then false else x) (is_sender-Mirror a b m))

  transports : Bool → SymmetricState → Transport
  transports i s = let (_, c1, c2) = SymmetricState.split c s in transport_of c i c1 c2

  crossed :
      (i : Bool) (s : SymmetricState)
      → ((transports i s).send ≡ (transports (not i) s).recv)
        × ((transports i s).recv ≡ (transports (not i) s).send)
  unfolding transports
  crossed true s = (refl, refl)
  crossed false s = (refl, refl)

  transports-Mirror :
      (a b : Handshake)
      → Mirror IsPair a b
      → ((transports a.initiator a.symmetric).send ≡ (transports b.initiator b.symmetric).recv)
        × ((transports a.initiator a.symmetric).recv ≡ (transports b.initiator b.symmetric).send)
  transports-Mirror a b m =
      let same : transports (not a.initiator) a.symmetric ≡ transports b.initiator b.symmetric =
        ap (λ s. transports (not a.initiator) s) m.symmetric
        ∙ ap (λ i. transports i b.symmetric) (sym m.roles) in
      let (sends, recvs) = crossed a.initiator a.symmetric in
      (sends ∙ ap (λ t. t.recv) same, recvs ∙ ap (λ t. t.send) same)

  split_by-Mirror :
      (complete : Bool) (a b : Handshake)
      → is_complete a ≡ complete
      → Mirror IsPair a b
      → SplitAgree (split c a) (split c b)
  unfolding split transports
  split_by-Mirror false a b done m = simp (done, is_complete-Mirror a b m) refl
  split_by-Mirror true a b done m = simp (done, is_complete-Mirror a b m) (transports-Mirror a b m)

  -- Two handshakes in step both refuse to split, or derive transports whose sending and receiving
  -- cipher states are each other's.
  pub split-Mirror : (a b : Handshake) → Mirror IsPair a b → SplitAgree (split c a) (split c b)
  split-Mirror a b m = split_by-Mirror _ a b refl m
