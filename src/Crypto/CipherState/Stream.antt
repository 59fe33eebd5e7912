-- ===== src/Crypto/CipherState/Stream.antt =====
-- Nonces, and a stream of messages through a transport (src/crypto/noise.ts, src/crypto/transport.ts).
use pty_relay.Base.{
  ℕ, ◌<◌, ◌≡◌, ◌≢◌, refl, sym, subst, ◌∙◌, ap, List, [], ◌∷◌, Option, none, some, Bytes, arith,
}
use pty_relay.Crypto.Primitives.{Crypto, Result, ok, fault}
use pty_relay.Crypto.CipherState.{
  CipherState, Transport, nonce_from_counter, encrypt_by, encrypt_with_ad, decrypt_by,
  decrypt_with_ad, encrypt, decrypt,
}

nonce_from_counter-injective :
    (n m : ℕ)
    → n < 18446744073709551616
    → m < 18446744073709551616
    → nonce_from_counter n ≡ nonce_from_counter m
    → n ≡ m
unfolding nonce_from_counter
nonce_from_counter-injective n m hn hm e = ground arith

-- Two different counters below 2^64 give two different nonces.
pub nonce_from_counter-distinct :
    (n m : ℕ)
    → n < 18446744073709551616
    → m < 18446744073709551616
    → n ≢ m
    → nonce_from_counter n ≢ nonce_from_counter m
nonce_from_counter-distinct n m hn hm h = λ e. h (nonce_from_counter-injective n m hn hm e)

-- What the sender and the receiver do with a sequence of messages; `none` is an exception.
abbrev cons_of : Bytes → Option (List Bytes × Transport) → Option (List Bytes × Transport)
cons_of b none = none
cons_of b (some (bs, t)) = some (b ∷ bs, t)

abbrev result_of :
    Transport × Result Bytes
    → (Transport → Option (List Bytes × Transport))
    → Option (List Bytes × Transport)
result_of (t, fault e) f = none
result_of (t, ok b) f = cons_of b (f t)

module _ (c : Crypto) where
  unfoldable pub encrypt_each : List Bytes → Transport → Option (List Bytes × Transport)
  encrypt_each [] t = some ([], t)
  encrypt_each (p ∷ ps) t = result_of (encrypt c p t) (encrypt_each ps)

  unfoldable pub decrypt_each : List Bytes → Transport → Option (List Bytes × Transport)
  decrypt_each [] t = some ([], t)
  decrypt_each (b ∷ bs) t = result_of (decrypt c b t) (decrypt_each bs)

-- What an authenticated cipher promises.
abbrev pub Opens : Crypto → Type 0
Opens c =
    (p ad nonce key : Bytes) → c.aead_decrypt (c.aead_encrypt p ad nonce key) ad nonce key ≡ some p

module _ (c : Crypto) (opens : Opens c) where
  by_key :
      (o : Option Bytes) (ad p b : Bytes) (s s' : CipherState)
      → encrypt_by c o ad p s ≡ (s', ok b)
      → decrypt_by c o ad b s ≡ (s', ok p)
  unfolding encrypt_by decrypt_by
  by_key none ad p b s s' e = ground arith
  by_key (some k) ad p b s s' e = ground (arith, opens p ad (nonce_from_counter s.n) k)

  pub decrypt_with_ad-encrypt_with_ad :
      (ad p b : Bytes) (s s' : CipherState)
      → encrypt_with_ad c ad p s ≡ (s', ok b)
      → decrypt_with_ad c ad b s ≡ (s', ok p)
  unfolding encrypt_with_ad decrypt_with_ad
  decrypt_with_ad-encrypt_with_ad ad p b s s' e = by_key s.k ad p b s s' e

  decrypt-encrypt :
      (p b : Bytes) (s r s' : Transport)
      → s.send ≡ r.recv
      → encrypt c p s ≡ (s', ok b)
      → (r' : Transport) × (decrypt c b r ≡ (r', ok p)) × (s'.send ≡ r'.recv)
  unfolding encrypt decrypt
  decrypt-encrypt p b s r s' same e =
      let d = decrypt_with_ad-encrypt_with_ad [] p b s.send s'.send (ap (λ x. (x.0.send, x.1)) e) in
      (
        record r { recv = s'.send },
        ap (λ x. (record r { recv = x.0 }, x.1)) (ap (decrypt_with_ad c [] b) (sym same) ∙ d),
        refl,
      )

  abbrev Decrypts : List Bytes → List Bytes → Transport → Transport → Type 0
  Decrypts ps bs r s' =
      (r' : Transport) × (decrypt_each c bs r ≡ some (ps, r')) × (s'.send ≡ r'.recv)

  Decrypts-cons :
      (p b : Bytes) (ps bs : List Bytes) (r r' s' : Transport)
      → decrypt c b r ≡ (r', ok p)
      → Decrypts ps bs r' s'
      → Decrypts (p ∷ ps) (b ∷ bs) r s'
  unfolding decrypt_each
  Decrypts-cons p b ps bs r r' s' e (last, rest, same) = (last, rw e (rw rest refl), same)

  by_rest :
      (o : Option (List Bytes × Transport)) (p b : Bytes) (ps bs : List Bytes) (t r s' : Transport)
      → (r' : Transport) → decrypt c b r ≡ (r', ok p)
      → encrypt_each c ps t ≡ o
      → cons_of b o ≡ some (bs, s')
      → ((bs' : List Bytes) → encrypt_each c ps t ≡ some (bs', s') → Decrypts ps bs' r' s')
      → Decrypts (p ∷ ps) bs r s'
  by_rest none p b ps bs t r s' r' d same e rest = absurd (ground arith)
  by_rest (some (bs', u)) p b ps bs t r s' r' d same e rest =
      let heads : b ∷ bs' ≡ bs = ground arith in
      let last : u ≡ s' = ground arith in
      subst (λ l. Decrypts (p ∷ ps) l r s') heads
        (Decrypts-cons p b ps bs' r r' s' d (rest bs' (same ∙ ap (λ v. some (bs', v)) last)))

  by_first :
      (m : Transport × Result Bytes) (ps bs : List Bytes) (p : Bytes) (s r s' : Transport)
      → s.send ≡ r.recv
      → encrypt c p s ≡ m
      → result_of m (encrypt_each c ps) ≡ some (bs, s')
      → ((bs' : List Bytes) (s r s' : Transport)
          → s.send ≡ r.recv
          → encrypt_each c ps s ≡ some (bs', s')
          → Decrypts ps bs' r s')
      → Decrypts (p ∷ ps) bs r s'
  by_first (t, fault x) ps bs p s r s' same e f rest = absurd (ground arith)
  by_first (t, ok b) ps bs p s r s' same e f rest =
      let (r', d, same') = decrypt-encrypt p b s r t same e in
      by_rest _ p b ps bs t r s' r' d refl f (λ bs' h. rest bs' t r' s' same' h)

  -- Messages that one end of a transport encrypts in order are decrypted in that order by the other
  -- end, when its receiving cipher state equals the sending one, and the states are equal again
  -- afterwards; given that the cipher opens what it sealed.
  pub decrypt_each-encrypt_each :
      (ps bs : List Bytes) (s r s' : Transport)
      → s.send ≡ r.recv
      → encrypt_each c ps s ≡ some (bs, s')
      → (r' : Transport) × (decrypt_each c bs r ≡ some (ps, r')) × (s'.send ≡ r'.recv)
  unfolding encrypt_each decrypt_each
  decrypt_each-encrypt_each [] bs s r s' same e =
      let none_left : [] ≡ bs = ground arith in
      let kept : s ≡ s' = ground arith in
      (
        r,
        subst (λ l. decrypt_each c l r ≡ some ([], r)) none_left refl,
        ap (λ t. t.send) (sym kept) ∙ same,
      )
  decrypt_each-encrypt_each (p ∷ ps) bs s r s' same e =
      by_first (encrypt c p s) ps bs p s r s' same refl e (decrypt_each-encrypt_each ps)
