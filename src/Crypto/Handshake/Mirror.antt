-- ===== src/Crypto/Handshake/Mirror.antt =====
-- Two handshakes in step, token by token (src/crypto/noise.ts).
use pty_relay.Base.{
  ℕ, zero, suc, Bool, true, false, not, List, [], ◌∷◌, ◌++◌, Option, none, some, length, Bytes, ◌≡◌,
  refl, sym, ◌∙◌, ap, arith, append_assoc, length-append, ltb,
}
use pty_relay.Crypto.Primitives.{Crypto, Result, ok, fault, take, drop}
use pty_relay.Crypto.SymmetricState.{mix_hash, mix_key, mix_key_and_hash}
use pty_relay.Crypto.Pattern.{DhToken, ee, es, se, ss, Token, e, psk, dh, KeyPair}
use pty_relay.Crypto.Handshake.{
  Handshake, M, and_then, key_pair, dh_keys, dh_value, mix_dh_value, mix_dh, mix_psk_by, mix_psk,
  write_token, write_tokens, read_token, read_tokens, strong,
}

-- What Diffie-Hellman promises: two key pairs give the same secret from either side.
pub record DhLaws (c : Crypto) (IsPair : KeyPair → Type 0) : Type 0 where
  pub agrees :
      (x y : KeyPair)
      → IsPair x
      → IsPair y
      → c.scalarmult x.private_key y.public_key ≡ c.scalarmult y.private_key x.public_key
  pub public_length : (x : KeyPair) → IsPair x → length x.public_key ≡ 32

-- One side holds a key pair exactly when the other side holds its public key.
abbrev pub Known : (KeyPair → Type 0) → Option KeyPair → Option Bytes → Type 0
Known IsPair none none = Unit
Known IsPair none (some q) = ⊥
Known IsPair (some k) none = ⊥
Known IsPair (some k) (some q) = (q ≡ k.public_key) × IsPair k

pub record Mirror (IsPair : KeyPair → Type 0) (a b : Handshake) : Type 0 where
  pub pattern : a.pattern ≡ b.pattern
  pub roles : b.initiator ≡ not a.initiator
  pub own : Known IsPair a.own b.remote
  pub remote : Known IsPair b.own a.remote
  pub ephemeral : Known IsPair a.ephemeral b.remote_ephemeral
  pub remote_ephemeral : Known IsPair b.ephemeral a.remote_ephemeral
  pub secret : a.secret ≡ b.secret
  pub symmetric : a.symmetric ≡ b.symmetric
  pub next_index : a.next_index ≡ b.next_index

and_then_ok :
    {A B : Type 0} (m : Handshake × Result A) (f : A → M B) (s' : Handshake) (b : B)
    → and_then m f ≡ (s', ok b)
    → (x : A) × (s : Handshake) × (m ≡ (s, ok x)) × (f x s ≡ (s', ok b))
and_then_ok (s, fault x) f s' b h = absurd (ground arith)
and_then_ok (s, ok x) f s' b h = (x, s, refl, h)

take_public : (k rest : Bytes) (n : ℕ) → length k ≡ n → take n (k ++ rest) ≡ k
take_public [] rest zero h = refl
take_public (x ∷ k) rest (suc n) h = ap (λ l. x ∷ l) (take_public k rest n (omega (arith, h)))
take_public [] rest (suc n) h = absurd (omega (arith, h))
take_public (x ∷ k) rest zero h = absurd (omega (arith, h))

drop_public : (k rest : Bytes) (n : ℕ) → length k ≡ n → drop n (k ++ rest) ≡ rest
drop_public [] rest zero h = refl
drop_public (x ∷ k) rest (suc n) h = drop_public k rest n (omega (arith, h))
drop_public [] rest (suc n) h = absurd (omega (arith, h))
drop_public (x ∷ k) rest zero h = absurd (omega (arith, h))

module _ (c : Crypto) (IsPair : KeyPair → Type 0) (laws : DhLaws c IsPair) where
  key_pair-agrees :
      (x y : Option KeyPair) (p q : Option Bytes)
      → Known IsPair x p
      → Known IsPair y q
      → dh_value c (key_pair x q) ≡ dh_value c (key_pair y p)
  unfolding dh_value
  key_pair-agrees none none none none h k = refl
  key_pair-agrees none (some y) none (some q) h k = refl
  key_pair-agrees (some x) none (some p) none h k = refl
  key_pair-agrees (some x) (some y) (some p) (some q) h k =
      ap (λ v. strong (c.scalarmult x.private_key v)) k.0
      ∙ ap strong (laws.agrees x y h.1 k.1)
      ∙ sym (ap (λ v. strong (c.scalarmult y.private_key v)) h.0)
  key_pair-agrees x y p q h k = ground arith

  dh_value-roles :
      (t : DhToken) (i : Bool) (a b : Handshake)
      → Mirror IsPair a b
      → dh_value c (dh_keys t i a) ≡ dh_value c (dh_keys t (not i) b)
  unfolding dh_keys
  dh_value-roles ee i a b m =
      key_pair-agrees a.ephemeral b.ephemeral b.remote_ephemeral a.remote_ephemeral m.ephemeral
        m.remote_ephemeral
  dh_value-roles es true a b m =
      key_pair-agrees a.ephemeral b.own b.remote_ephemeral a.remote m.ephemeral m.remote
  dh_value-roles es false a b m =
      key_pair-agrees a.own b.ephemeral b.remote a.remote_ephemeral m.own m.remote_ephemeral
  dh_value-roles se true a b m =
      key_pair-agrees a.own b.ephemeral b.remote a.remote_ephemeral m.own m.remote_ephemeral
  dh_value-roles se false a b m =
      key_pair-agrees a.ephemeral b.own b.remote_ephemeral a.remote m.ephemeral m.remote
  dh_value-roles ss i a b m = key_pair-agrees a.own b.own b.remote a.remote m.own m.remote

  dh_value-agrees :
      (t : DhToken) (a b : Handshake)
      → Mirror IsPair a b
      → dh_value c (dh_keys t a.initiator a) ≡ dh_value c (dh_keys t b.initiator b)
  dh_value-agrees t a b m =
      dh_value-roles t a.initiator a b m ∙ ap (λ i. dh_value c (dh_keys t i b)) (sym m.roles)

  -- The reader follows the writer: it reads the part that was written, and leaves the rest.
  abbrev pub Matches : Handshake × Result Bytes → (Bytes → Handshake × Result Bytes) → Type 0
  Matches (s, fault x) read = Unit
  Matches (s, ok part) read =
      (rest : Bytes) → (b' : Handshake) × (read (part ++ rest) ≡ (b', ok rest)) × Mirror IsPair s b'

  mix_dh-Matches :
      (r q : Result Bytes) (a b : Handshake)
      → r ≡ q
      → Mirror IsPair a b
      → Matches (mix_dh_value c r a) (λ l. and_then (mix_dh_value c q b) (λ _ s'. (s', ok l)))
  unfolding mix_dh_value
  mix_dh-Matches (fault x) q a b same m = tt
  mix_dh-Matches (ok d) (fault x) a b same m = absurd (ground arith)
  mix_dh-Matches (ok d) (ok d') a b same m = λ rest. (
    record b { symmetric = mix_key c d' b.symmetric },
    refl,
    record {
      pattern = m.pattern;
      roles = m.roles;
      own = m.own;
      remote = m.remote;
      ephemeral = m.ephemeral;
      remote_ephemeral = m.remote_ephemeral;
      secret = m.secret;
      symmetric =
          let same_key : d ≡ d' = ground arith in
          ap (λ v. mix_key c d v) m.symmetric ∙ ap (λ v. mix_key c v b.symmetric) same_key;
      next_index = m.next_index;
    },
  )

  mix_psk-Matches :
      (r q : Option Bytes) (a b : Handshake)
      → r ≡ q
      → Mirror IsPair a b
      → Matches (mix_psk_by c r a) (λ l. and_then (mix_psk_by c q b) (λ _ s'. (s', ok l)))
  unfolding mix_psk_by
  mix_psk-Matches none q a b same m = tt
  mix_psk-Matches (some k) none a b same m = absurd (ground arith)
  mix_psk-Matches (some k) (some k') a b same m = λ rest. (
    record b { secret = none; symmetric = mix_key_and_hash c k' b.symmetric },
    refl,
    record {
      pattern = m.pattern;
      roles = m.roles;
      own = m.own;
      remote = m.remote;
      ephemeral = m.ephemeral;
      remote_ephemeral = m.remote_ephemeral;
      secret = refl;
      symmetric =
          let same_key : k ≡ k' = ground arith in
          ap (λ v. mix_key_and_hash c k v) m.symmetric
          ∙ ap (λ v. mix_key_and_hash c v b.symmetric) same_key;
      next_index = m.next_index;
    },
  )

  read_token-public :
      (k rest : Bytes) (b : Handshake)
      → length k ≡ 32
      → read_token c e (k ++ rest) b
        ≡ (record b { remote_ephemeral = some k; symmetric = mix_hash c k b.symmetric }, ok rest)
  unfolding read_token
  read_token-public k rest b h =
      let long : ltb (length (k ++ rest)) 32 ≡ false = ground (arith, length-append k rest) in
      simp (long, take_public k rest 32 h, drop_public k rest 32 h)

  module _ (gen : ℕ → KeyPair) (pairs : (i : ℕ) → IsPair (gen i)) where
    write_token-Matches :
        (t : Token) (a b : Handshake)
        → Mirror IsPair a b
        → Matches (write_token c gen t a) (λ l. read_token c t l b)
    unfolding write_token read_token mix_dh mix_psk
    write_token-Matches (dh t) a b m = mix_dh-Matches _ _ a b (dh_value-agrees t a b m) m
    write_token-Matches psk a b m = mix_psk-Matches _ _ a b m.secret m
    write_token-Matches e a b m = λ rest. (
      record b {
        remote_ephemeral = some (gen a.drawn).public_key;
        symmetric = mix_hash c (gen a.drawn).public_key b.symmetric;
      },
      read_token-public (gen a.drawn).public_key rest b (laws.public_length _ (pairs a.drawn)),
      record {
        pattern = m.pattern;
        roles = m.roles;
        own = m.own;
        remote = m.remote;
        ephemeral = (refl, pairs a.drawn);
        remote_ephemeral = m.remote_ephemeral;
        secret = m.secret;
        symmetric = ap (mix_hash c (gen a.drawn).public_key) m.symmetric;
        next_index = m.next_index;
      },
    )

    follow :
        {s : Handshake} (w : Handshake × Result Bytes) (part : Bytes) (ts : List Token)
        (read : Bytes → Handshake × Result Bytes)
        → ((rest : Bytes)
            → (b' : Handshake) × (read (part ++ rest) ≡ (b', ok rest)) × Mirror IsPair s b')
        → ((b : Handshake) → Mirror IsPair s b → Matches w (λ l. read_tokens c ts l b))
        → Matches
            (and_then w (λ rest s''. (s'', ok (part ++ rest))))
            (λ l. and_then (read l) (read_tokens c ts))
    follow (u, fault x) part ts read first later = tt
    follow (u, ok more) part ts read first later = λ rest.
        let (b', reads, m') = first (more ++ rest) in
        let (b'', rest_reads, m'') = later b' m' rest in
        (
          b'',
          ap (λ l. and_then (read l) (read_tokens c ts)) (append_assoc part more rest)
              ∙ ap (λ v. and_then v (read_tokens c ts)) reads
              ∙ rest_reads,
          m'',
        )

    sequence-Matches :
        (w : Handshake × Result Bytes) (ts : List Token) (read : Bytes → Handshake × Result Bytes)
        (next : Handshake → Handshake × Result Bytes)
        → Matches w read
        → ((s b : Handshake) → Mirror IsPair s b → Matches (next s) (λ l. read_tokens c ts l b))
        → Matches
            (and_then w (λ part s'. and_then (next s') (λ rest s''. (s'', ok (part ++ rest)))))
            (λ l. and_then (read l) (read_tokens c ts))
    sequence-Matches (s, fault x) ts read next first later = tt
    sequence-Matches (s, ok part) ts read next first later =
        follow (next s) part ts read (λ rest. first rest) (λ b' m'. later s b' m')

    pub write_tokens-Matches :
        (ts : List Token) (a b : Handshake)
        → Mirror IsPair a b
        → Matches (write_tokens c gen ts a) (λ l. read_tokens c ts l b)
    unfolding write_tokens read_tokens
    write_tokens-Matches [] a b m = λ rest. (b, refl, m)
    write_tokens-Matches (t ∷ ts) a b m =
        sequence-Matches _ ts (λ l. read_token c t l b) (write_tokens c gen ts)
          (write_token-Matches t a b m) (write_tokens-Matches ts)
