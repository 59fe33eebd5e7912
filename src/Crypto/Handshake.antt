-- ===== src/Crypto/Handshake.antt =====
-- The `Handshake` of src/crypto/noise.ts.
pub mod Mirror
pub mod Session
pub mod Start
use pty_relay.Base.{
  ℕ, ◌+◌, ◌%◌, Bool, true, false, not, List, [], ◌∷◌, ◌++◌, Option, none, some, leb, ltb, ◌==◌,
  length, Bytes, if◌then◌else◌,
}
use pty_relay.Crypto.Primitives.{
  Crypto, Fault, Result, ok, fault, already_complete, not_our_turn, not_complete, truncated, no_psk,
  missing_key, pre_message, weak_key, dh_len, take, drop,
}
use pty_relay.Crypto.CipherState.{CipherState, Transport}
use pty_relay.Crypto.SymmetricState
use pty_relay.Crypto.SymmetricState.{
  SymmetricState, initialize, mix_hash, mix_key, mix_key_and_hash, encrypt_and_hash,
  decrypt_and_hash,
}
use pty_relay.Crypto.Pattern.{
  DhToken, ee, es, se, ss, Token, e, psk, dh, PreMessageToken, pre_s, pre_e, Pattern, KeyPair,
  Options, nth, uses_psk, public_of, psk_fault, key_fault, first_fault,
}

-- `drawn` counts the key pairs that were asked of libsodium.
pub record Handshake : Type 0 where
  pub pattern : Pattern
  pub initiator : Bool
  pub own : Option KeyPair
  pub remote : Option Bytes
  pub secret : Option Bytes
  pub symmetric : SymmetricState
  pub ephemeral : Option KeyPair
  pub remote_ephemeral : Option Bytes
  pub next_index : ℕ
  pub drawn : ℕ

-- Code on the handshake; a fault is an exception.
abbrev pub M : Type 0 → Type 0
M A = Handshake → Handshake × Result A

abbrev pub and_then : {A B : Type 0} → Handshake × Result A → (A → M B) → Handshake × Result B
and_then (s, fault x) f = (s, fault x)
and_then (s, ok a) f = f a s

module _ (c : Crypto) where
  -- A loop over the pre-messages of one side, whose static public key is given.
  unfoldable pub mix_pre :
      List PreMessageToken → Option Bytes → SymmetricState → Result SymmetricState
  mix_pre [] key s = ok s
  mix_pre (pre_e ∷ ts) key s = fault pre_message
  mix_pre (pre_s ∷ ts) none s = fault missing_key
  mix_pre (pre_s ∷ ts) (some k) s = mix_pre ts (some k) (mix_hash c k s)

  unfoldable pub mix_both :
      Result SymmetricState → List PreMessageToken → Option Bytes → Result SymmetricState
  mix_both (fault x) ts key = fault x
  mix_both (ok s) ts key = mix_pre ts key s

  -- The static public key of the initiator, and that of the responder, as this party has them.
  abbrev pub initiator_static : Options → Option Bytes
  initiator_static o = if o.initiator then public_of o.static_keys else o.remote_static

  abbrev pub responder_static : Options → Option Bytes
  responder_static o = if o.initiator then o.remote_static else public_of o.static_keys

  unfoldable pub first_symmetric : Options → Result SymmetricState
  first_symmetric o =
      mix_both (mix_pre o.pattern.pre_initiator (initiator_static o) (initialize c o.pattern.name))
        o.pattern.pre_responder (responder_static o)

  abbrev pub start_with : Options → Result SymmetricState → Result Handshake
  start_with o (fault x) = fault x
  start_with o (ok s) = ok (record {
    pattern = o.pattern;
    initiator = o.initiator;
    own = o.static_keys;
    remote = o.remote_static;
    secret = o.pre_shared_key;
    symmetric = s;
    ephemeral = none;
    remote_ephemeral = none;
    next_index = 0;
    drawn = 0;
  })

  -- The constructor, by the result of its checks.
  unfoldable pub make_checked : Option Fault → Options → Result Handshake
  make_checked (some x) o = fault x
  make_checked none o = start_with o (first_symmetric o)

  unfoldable pub make : Options → Result Handshake
  make o =
      make_checked
        (first_fault (psk_fault (uses_psk o.pattern.messages) o.pre_shared_key) (key_fault o)) o

unfoldable pub is_complete : Handshake → Bool
is_complete s = leb (length s.pattern.messages) s.next_index

-- `(nextMessageIndex % 2 === 0) === initiator`
unfoldable pub is_sender : Handshake → Bool
is_sender s = if s.next_index % 2 == 0 then s.initiator else not s.initiator

unfoldable pub is_my_turn : Handshake → Bool
unfolding is_complete is_sender
is_my_turn s = if is_complete s then false else is_sender s

-- The private and the public key of a DH token.
abbrev pub key_pair : Option KeyPair → Option Bytes → Option (Bytes × Bytes)
key_pair none q = none
key_pair (some k) none = none
key_pair (some k) (some q) = some (k.private_key, q)

unfoldable pub dh_keys : DhToken → Bool → Handshake → Option (Bytes × Bytes)
dh_keys ee initiator s = key_pair s.ephemeral s.remote_ephemeral
dh_keys es true s = key_pair s.ephemeral s.remote
dh_keys es false s = key_pair s.own s.remote_ephemeral
dh_keys se true s = key_pair s.own s.remote_ephemeral
dh_keys se false s = key_pair s.ephemeral s.remote
dh_keys ss initiator s = key_pair s.own s.remote

abbrev pub strong : Option Bytes → Result Bytes
strong none = fault weak_key
strong (some d) = ok d

module _ (c : Crypto) where
  unfoldable pub dh_value : Option (Bytes × Bytes) → Result Bytes
  dh_value none = fault missing_key
  dh_value (some (p, q)) = strong (c.scalarmult p q)

  -- `mixDh(token)`
  unfoldable pub mix_dh_value : Result Bytes → M Bytes
  mix_dh_value (fault x) s = (s, fault x)
  mix_dh_value (ok d) s = (record s { symmetric = mix_key c d s.symmetric }, ok [])

  unfoldable pub mix_dh : DhToken → M Bytes
  mix_dh t s = mix_dh_value (dh_value (dh_keys t s.initiator s)) s

  -- `mixPsk()`
  unfoldable pub mix_psk_by : Option Bytes → M Bytes
  mix_psk_by none s = (s, fault no_psk)
  mix_psk_by (some k) s =
      (record s { secret = none; symmetric = mix_key_and_hash c k s.symmetric }, ok [])

  unfoldable pub mix_psk : M Bytes
  mix_psk s = mix_psk_by s.secret s

  abbrev pub with_symmetric : SymmetricState × Result Bytes → M Bytes
  with_symmetric (symmetric', r) s = (record s { symmetric = symmetric' }, r)

  abbrev pub next_message : Bytes → M Bytes
  next_message bs s = (record s { next_index = s.next_index + 1 }, ok bs)

  -- The loop of `writeMessage`: a step gives the part that it pushes. `gen` is `crypto_box_keypair`.
  unfoldable pub write_token : (ℕ → KeyPair) → Token → M Bytes
  write_token gen e s = (
    record s {
      ephemeral = some (gen s.drawn);
      symmetric = mix_hash c (gen s.drawn).public_key s.symmetric;
      drawn = s.drawn + 1;
    },
    ok (gen s.drawn).public_key,
  )
  write_token gen psk s = mix_psk s
  write_token gen (dh t) s = mix_dh t s

  unfoldable pub write_tokens : (ℕ → KeyPair) → List Token → M Bytes
  write_tokens gen [] s = (s, ok [])
  write_tokens gen (t ∷ ts) s =
      and_then (write_token gen t s)
        (λ part s'. and_then (write_tokens gen ts s') (λ rest s''. (s'', ok (part ++ rest))))

  unfoldable pub write_payload : Bytes → Bytes → M Bytes
  write_payload payload parts s =
      and_then (with_symmetric (encrypt_and_hash c payload s.symmetric) s)
        (λ encrypted. next_message (parts ++ encrypted))

  unfoldable pub write_message : (ℕ → KeyPair) → Bytes → M Bytes
  write_message gen payload s =
      if is_complete s
      then (s, fault already_complete)
      else (if is_my_turn s
          then and_then (write_tokens gen (nth s.next_index s.pattern.messages) s)
              (write_payload payload)
          else (s, fault not_our_turn))

  -- The loop of `readMessage`: a step gives what is left of the message.
  unfoldable pub read_token : Token → Bytes → M Bytes
  read_token e rest s = if ltb (length rest) dh_len then (s, fault truncated) else (
    record s {
      remote_ephemeral = some (take dh_len rest);
      symmetric = mix_hash c (take dh_len rest) s.symmetric;
    },
    ok (drop dh_len rest),
  )
  read_token psk rest s = and_then (mix_psk s) (λ _ s'. (s', ok rest))
  read_token (dh t) rest s = and_then (mix_dh t s) (λ _ s'. (s', ok rest))

  unfoldable pub read_tokens : List Token → Bytes → M Bytes
  read_tokens [] rest s = (s, ok rest)
  read_tokens (t ∷ ts) rest s = and_then (read_token t rest s) (read_tokens ts)

  unfoldable pub read_payload : Bytes → M Bytes
  read_payload rest s =
      and_then (with_symmetric (decrypt_and_hash c rest s.symmetric) s) next_message

  unfoldable pub read_message : Bytes → M Bytes
  read_message message s =
      if is_complete s
      then (s, fault already_complete)
      else (if is_my_turn s
          then (s, fault not_our_turn)
          else and_then (read_tokens (nth s.next_index s.pattern.messages) message s) read_payload)

  -- `split()`
  abbrev pub transport_of : Bool → CipherState → CipherState → Transport
  transport_of true c1 c2 = record { send = c1; recv = c2 }
  transport_of false c1 c2 = record { send = c2; recv = c1 }

  unfoldable pub split : M Transport
  split s =
      if is_complete s
      then (let (symmetric', c1, c2) = SymmetricState.split c s.symmetric in
          (
            record s {
              ephemeral = none;
              remote_ephemeral = none;
              secret = none;
              symmetric = symmetric';
            },
            ok (transport_of s.initiator c1 c2),
          ))
      else (s, fault not_complete)
