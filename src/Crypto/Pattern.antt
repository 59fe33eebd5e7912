-- ===== src/Crypto/Pattern.antt =====
-- The patterns of src/crypto/noise.ts, and the options of a handshake with their checks.
use pty_relay.Base.{
  ℕ, zero, suc, String, Bool, true, false, ◌||◌, List, [], ◌∷◌, Option, none, some, ◌==◌, length,
  Bytes, if◌then◌else◌,
}
use pty_relay.Crypto.Primitives.{
  Fault, psk_required, psk_length, psk_unexpected, missing_own, missing_remote,
}

-- The DH tokens apart from `e` and `psk`.
pub data DhToken : Type 0 where
  ee es se ss : DhToken

pub data Token : Type 0 where
  e psk : Token
  dh : DhToken → Token

pub data PreMessageToken : Type 0 where
  pre_s pre_e : PreMessageToken

pub record Pattern : Type 0 where
  pub name : String
  pub pre_initiator : List PreMessageToken
  pub pre_responder : List PreMessageToken
  pub messages : List (List Token)

abbrev pub nk : Pattern
nk = record {
  name = "Noise_NK_25519_ChaChaPoly_BLAKE2b";
  pre_initiator = [];
  pre_responder = pre_s ∷ [];
  messages = (e ∷ dh es ∷ []) ∷ (e ∷ dh ee ∷ []) ∷ [];
}

abbrev pub kk : Pattern
kk = record {
  name = "Noise_KK_25519_ChaChaPoly_BLAKE2b";
  pre_initiator = pre_s ∷ [];
  pre_responder = pre_s ∷ [];
  messages = (e ∷ dh es ∷ dh ss ∷ []) ∷ (e ∷ dh ee ∷ dh se ∷ []) ∷ [];
}

abbrev pub nk_psk2 : Pattern
nk_psk2 = record {
  name = "Noise_NKpsk2_25519_ChaChaPoly_BLAKE2b";
  pre_initiator = [];
  pre_responder = pre_s ∷ [];
  messages = (e ∷ dh es ∷ []) ∷ (e ∷ dh ee ∷ psk ∷ []) ∷ [];
}

pub record KeyPair : Type 0 where
  pub public_key : Bytes
  pub private_key : Bytes

-- `HandshakeOptions`
pub record Options : Type 0 where
  pub pattern : Pattern
  pub initiator : Bool
  pub static_keys : Option KeyPair
  pub remote_static : Option Bytes
  pub pre_shared_key : Option Bytes

-- `list[i]`
abbrev pub nth : ℕ → List (List Token) → List Token
nth i [] = []
nth zero (ts ∷ tss) = ts
nth (suc i) (ts ∷ tss) = nth i tss

abbrev is_psk : Token → Bool
is_psk psk = true
is_psk _ = false

unfoldable pub some_psk : List Token → Bool
some_psk [] = false
some_psk (t ∷ ts) = is_psk t || some_psk ts

-- `patternUsesPsk`
unfoldable pub uses_psk : List (List Token) → Bool
uses_psk [] = false
uses_psk (ts ∷ tss) = some_psk ts || uses_psk tss

-- `tokens.includes("s")` of a pre-message
unfoldable pub includes_s : List PreMessageToken → Bool
includes_s [] = false
includes_s (pre_s ∷ ts) = true
includes_s (pre_e ∷ ts) = includes_s ts

abbrev pub is_some : {A : Type 0} → Option A → Bool
is_some none = false
is_some (some a) = true

abbrev pub public_of : Option KeyPair → Option Bytes
public_of none = none
public_of (some k) = some k.public_key

-- The check of the pre-shared key, `none` when it passes.
unfoldable pub psk_fault : Bool → Option Bytes → Option Fault
psk_fault true none = some psk_required
psk_fault true (some k) = if length k == 32 then none else some psk_length
psk_fault false none = none
psk_fault false (some k) = some psk_unexpected

-- The check of the keys for one pre-message, the initiator's if `whose` is `true`: whether it has `s`,
-- this party's role, and whether its own static keys and the other's public key are given.
unfoldable pub key_missing : (whose includes initiator own remote : Bool) → Option Fault
key_missing whose false initiator own remote = none
key_missing true true true own remote = if own then none else some (missing_own true)
key_missing true true false own remote = if remote then none else some (missing_remote true)
key_missing false true false own remote = if own then none else some (missing_own false)
key_missing false true true own remote = if remote then none else some (missing_remote false)

-- The first of two checks that throws.
unfoldable pub first_fault : Option Fault → Option Fault → Option Fault
first_fault (some x) f = some x
first_fault none f = f

-- The check of the keys that the pre-messages ask for.
unfoldable pub key_fault : Options → Option Fault
key_fault o =
    first_fault
      (key_missing true (includes_s o.pattern.pre_initiator) o.initiator (is_some o.static_keys)
        (is_some o.remote_static))
      (key_missing false (includes_s o.pattern.pre_responder) o.initiator (is_some o.static_keys)
        (is_some o.remote_static))
