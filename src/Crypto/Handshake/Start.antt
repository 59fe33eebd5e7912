-- ===== src/Crypto/Handshake/Start.antt =====
-- The options of two parties and the constructor of `Handshake` (src/crypto/noise.ts).
use pty_relay.Base.{
  Bool, true, false, not, Option, none, some, Bytes, ◌≡◌, refl, sym, subst, ◌∙◌, ap, arith,
  if◌then◌else◌, if-holds, List, [], ◌∷◌, length, ◌==◌,
}
use pty_relay.Crypto.Primitives.{
  Crypto, Fault, Result, ok, fault, missing_own, missing_remote, psk_length,
}
use pty_relay.Crypto.SymmetricState.{SymmetricState, initialize, mix_hash}
use pty_relay.Crypto.Pattern.{
  KeyPair, Options, Pattern, psk_fault, uses_psk, key_missing, key_fault, first_fault, public_of,
  is_some, includes_s, PreMessageToken, pre_s, pre_e,
}
use pty_relay.Crypto.Handshake.{
  Handshake, make, make_checked, first_symmetric, start_with, initiator_static, responder_static,
  mix_both, mix_pre,
}
use pty_relay.Crypto.Handshake.Mirror.{Known, Mirror}

-- The options of two parties that mean to talk to each other.
pub record Counterparts (IsPair : KeyPair → Type 0) (a b : Options) : Type 0 where
  pub pattern : a.pattern ≡ b.pattern
  pub roles : b.initiator ≡ not a.initiator
  pub own : Known IsPair a.static_keys b.remote_static
  pub remote : Known IsPair b.static_keys a.remote_static
  pub pre_shared_key : a.pre_shared_key ≡ b.pre_shared_key

module _ (c : Crypto) (IsPair : KeyPair → Type 0) where
  public_of-Known : (k : Option KeyPair) (q : Option Bytes) → Known IsPair k q → public_of k ≡ q
  public_of-Known none none h = refl
  public_of-Known (some k) (some q) h = ap some (sym h.0)
  public_of-Known k q h = ground arith

  is_some-public_of : (k : Option KeyPair) → is_some k ≡ is_some (public_of k)
  is_some-public_of none = refl
  is_some-public_of (some k) = refl

  -- The two static public keys, as both parties have them.
  statics :
      (i : Bool) (a b : Options)
      → Counterparts IsPair a b
      → ((if i then public_of a.static_keys else a.remote_static)
          ≡ (if not i then public_of b.static_keys else b.remote_static))
        × ((if i then a.remote_static else public_of a.static_keys)
            ≡ (if not i then b.remote_static else public_of b.static_keys))
  statics true a b h = (
    public_of-Known a.static_keys b.remote_static h.own,
    sym (public_of-Known b.static_keys a.remote_static h.remote),
  )
  statics false a b h = (
    sym (public_of-Known b.static_keys a.remote_static h.remote),
    public_of-Known a.static_keys b.remote_static h.own,
  )

  statics_agree :
      (a b : Options)
      → Counterparts IsPair a b
      → (initiator_static c a ≡ initiator_static c b)
        × (responder_static c a ≡ responder_static c b)
  statics_agree a b h =
      let (x, y) = statics a.initiator a b h in
      (
        x ∙ ap (λ i. if i then public_of b.static_keys else b.remote_static) (sym h.roles),
        y ∙ ap (λ i. if i then b.remote_static else public_of b.static_keys) (sym h.roles),
      )

  first_symmetric-agree :
      (a b : Options) → Counterparts IsPair a b → first_symmetric c a ≡ first_symmetric c b
  unfolding first_symmetric
  first_symmetric-agree a b h =
      let (x, y) = statics_agree a b h in
      ap
        (λ k.
          mix_both c (mix_pre c a.pattern.pre_initiator k (initialize c a.pattern.name))
            a.pattern.pre_responder (responder_static c a))
        x
      ∙ ap
          (λ k.
            mix_both c
              (mix_pre c a.pattern.pre_initiator (initiator_static c b)
                (initialize c a.pattern.name))
              a.pattern.pre_responder k)
          y
      ∙ ap
          (λ p.
            mix_both c (mix_pre c p.pre_initiator (initiator_static c b) (initialize c p.name))
              p.pre_responder (responder_static c b))
          h.pattern

  -- What the other party throws: its own key is the other's remote one.
  abbrev pub across : Fault → Fault
  across (missing_own whose) = missing_remote whose
  across (missing_remote whose) = missing_own whose
  across x = x

  abbrev across_all : Option Fault → Option Fault
  across_all none = none
  across_all (some x) = some (across x)

  key_missing-across :
      (whose includes i own remote : Bool)
      → key_missing whose includes (not i) remote own
        ≡ across_all (key_missing whose includes i own remote)
  unfolding key_missing
  key_missing-across whose false i own remote = refl
  key_missing-across true true true true remote = refl
  key_missing-across true true true false remote = refl
  key_missing-across true true false own true = refl
  key_missing-across true true false own false = refl
  key_missing-across false true true own true = refl
  key_missing-across false true true own false = refl
  key_missing-across false true false true remote = refl
  key_missing-across false true false false remote = refl

  first_fault-across :
      (f g : Option Fault)
      → first_fault (across_all f) (across_all g) ≡ across_all (first_fault f g)
  unfolding first_fault
  first_fault-across none g = refl
  first_fault-across (some x) g = refl

  is_some-Known : (k : Option KeyPair) (q : Option Bytes) → Known IsPair k q → is_some k ≡ is_some q
  is_some-Known none none h = refl
  is_some-Known none (some q) h = absurd h
  is_some-Known (some k) none h = absurd h
  is_some-Known (some k) (some q) h = refl

  abbrev keys_of : Pattern → (i own remote : Bool) → Option Fault
  keys_of p i own remote =
      first_fault (key_missing true (includes_s p.pre_initiator) i own remote)
        (key_missing false (includes_s p.pre_responder) i own remote)

  keys_of-across :
      (p : Pattern) (i own remote : Bool)
      → keys_of p (not i) remote own ≡ across_all (keys_of p i own remote)
  keys_of-across p i own remote =
      ap (λ f. first_fault f (key_missing false (includes_s p.pre_responder) (not i) remote own))
        (key_missing-across true (includes_s p.pre_initiator) i own remote)
      ∙ ap (first_fault (across_all (key_missing true (includes_s p.pre_initiator) i own remote)))
          (key_missing-across false (includes_s p.pre_responder) i own remote)
      ∙ first_fault-across _ _

  key_fault-across :
      (a b : Options) → Counterparts IsPair a b → key_fault b ≡ across_all (key_fault a)
  unfolding key_fault
  key_fault-across a b h =
      let own = is_some-Known a.static_keys b.remote_static h.own in
      let remote = is_some-Known b.static_keys a.remote_static h.remote in
      ap (λ p. keys_of p b.initiator (is_some b.static_keys) (is_some b.remote_static))
        (sym h.pattern)
      ∙ ap (λ i. keys_of a.pattern i (is_some b.static_keys) (is_some b.remote_static)) h.roles
      ∙ ap (λ x. keys_of a.pattern (not a.initiator) x (is_some b.remote_static)) remote
      ∙ ap (keys_of a.pattern (not a.initiator) (is_some a.remote_static)) (sym own)
      ∙ keys_of-across a.pattern a.initiator (is_some a.static_keys) (is_some a.remote_static)

  -- A fault that both parties throw alike.
  abbrev IsCommon : Fault → Type 0
  IsCommon x = across x ≡ x

  abbrev CommonIn : Result SymmetricState → Type 0
  CommonIn (fault x) = IsCommon x
  CommonIn (ok s) = Unit

  mix_pre-Common :
      (ts : List PreMessageToken) (k : Option Bytes) (s : SymmetricState)
      → CommonIn (mix_pre c ts k s)
  unfolding mix_pre
  mix_pre-Common [] k s = tt
  mix_pre-Common (pre_e ∷ ts) k s = refl
  mix_pre-Common (pre_s ∷ ts) none s = refl
  mix_pre-Common (pre_s ∷ ts) (some k) s = mix_pre-Common ts (some k) (mix_hash c k s)

  mix_both-Common :
      (r : Result SymmetricState) (ts : List PreMessageToken) (k : Option Bytes)
      → CommonIn r
      → CommonIn (mix_both c r ts k)
  unfolding mix_both
  mix_both-Common (fault x) ts k h = h
  mix_both-Common (ok s) ts k h = mix_pre-Common ts k s

  psk_fault-Common :
      (uses : Bool) (k : Option Bytes) → across_all (psk_fault uses k) ≡ psk_fault uses k
  unfolding psk_fault
  psk_fault-Common true none = refl
  psk_fault-Common true (some k) =
      if-holds (λ f. across_all f ≡ f) (length k == 32) none (some psk_length) refl refl
  psk_fault-Common false none = refl
  psk_fault-Common false (some k) = refl

  -- Both constructors throw, the one what the other does across the two roles, or both give a
  -- handshake and the two are in step.
  abbrev pub Starts : Result Handshake → Result Handshake → Type 0
  Starts (fault x) r = r ≡ fault (across x)
  Starts (ok a) r = (b : Handshake) × (r ≡ ok b) × Mirror IsPair a b

  start_with-Starts :
      (r : Result SymmetricState) (a b : Options)
      → CommonIn r
      → Counterparts IsPair a b
      → Starts (start_with c a r) (start_with c b r)
  start_with-Starts (fault x) a b k h = ap fault (sym k)
  start_with-Starts (ok s) a b k h = (
    _,
    refl,
    record {
      pattern = h.pattern;
      roles = h.roles;
      own = h.own;
      remote = h.remote;
      ephemeral = tt;
      remote_ephemeral = tt;
      secret = h.pre_shared_key;
      symmetric = refl;
      next_index = refl;
    },
  )

  checked-Starts :
      (f : Option Fault) (a b : Options)
      → Counterparts IsPair a b
      → Starts (make_checked c f a) (make_checked c (across_all f) b)
  unfolding make_checked
  checked-Starts (some x) a b h = refl
  checked-Starts none a b h =
      subst (λ r. Starts (start_with c a (first_symmetric c a)) (start_with c b r))
        (first_symmetric-agree a b h)
        (start_with-Starts (first_symmetric c a) a b
          (unfold first_symmetric in mix_both-Common _ _ _ (mix_pre-Common _ _ _)) h)

  -- When the options of two parties fit, either both Handshake constructors throw, the same error
  -- or, when a key is missing, the error of the one for its own static keys and that of the other
  -- for the remote public key, of the same pre-message; or both give a handshake and the two are in
  -- step.
  pub make-Counterparts : (a b : Options) → Counterparts IsPair a b → Starts (make c a) (make c b)
  unfolding make
  make-Counterparts a b h =
      let own : Option Fault = psk_fault (uses_psk a.pattern.messages) a.pre_shared_key in
      let same : psk_fault (uses_psk b.pattern.messages) b.pre_shared_key ≡ across_all own =
        ap (psk_fault (uses_psk b.pattern.messages)) (sym h.pre_shared_key)
        ∙ ap (λ p. psk_fault (uses_psk p.messages) a.pre_shared_key) (sym h.pattern)
        ∙ sym (psk_fault-Common (uses_psk a.pattern.messages) a.pre_shared_key) in
      subst (λ f. Starts (make_checked c (first_fault own (key_fault a)) a) (make_checked c f b))
        (sym (
          ap (λ f. first_fault f (key_fault b)) same
          ∙ ap (first_fault (across_all own)) (key_fault-across a b h)
          ∙ first_fault-across own (key_fault a)))
        (checked-Starts (first_fault own (key_fault a)) a b h)
