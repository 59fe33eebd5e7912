-- ===== src/Crypto/Primitives.antt =====
-- What the Noise code calls (libsodium, TextEncoder), the results of fallible code, and HKDF.
use pty_relay.Base.{
  Bool, ℕ, zero, suc, ◌+◌, ◌*◌, ◌/◌, ◌%◌, String, [], ◌∷◌, ◌++◌, Option, ltb, length, Bytes, ◌==◌,
  if◌then◌else◌, map,
}

-- The errors that the code throws, or that libsodium throws through it.
-- `missing_own` and `missing_remote` are the key that the initiator's (`true`) or the responder's
-- pre-message asks of this party's own keys, or of what it knows of the other.
pub data Fault : Type 0 where
  no_key nonce_exhausted bad_tag weak_key : Fault
  already_complete not_our_turn not_complete truncated no_psk missing_key : Fault
  psk_required psk_length psk_unexpected pre_message : Fault
  missing_own missing_remote : Bool → Fault

pub data Result (A : Type 0) : Type 0 where
  ok : A → Result A
  fault : Fault → Result A

-- The primitives of libsodium and `TextEncoder`; `none` is an exception.
pub record Crypto : Type 0 where
  pub generichash : Bytes → Bytes
  pub aead_encrypt : (plaintext ad nonce key : Bytes) → Bytes
  pub aead_decrypt : (ciphertext ad nonce key : Bytes) → Option Bytes
  pub scalarmult : (private_key public_key : Bytes) → Option Bytes
  pub utf8_encode : String → Bytes

abbrev pub key_len : ℕ
key_len = 32

abbrev pub dh_len : ℕ
dh_len = 32

abbrev pub hash_len : ℕ
hash_len = 64

abbrev pub block_size : ℕ
block_size = 128

-- `a.slice(0, n)` and `a.subarray(n)`
abbrev pub take : ℕ → Bytes → Bytes
take zero bs = []
take (suc n) [] = []
take (suc n) (b ∷ bs) = b ∷ take n bs

abbrev pub drop : ℕ → Bytes → Bytes
drop zero bs = bs
drop (suc n) [] = []
drop (suc n) (b ∷ bs) = drop n bs

-- `new Uint8Array(n)` with the bytes set at its start
abbrev pub padded : ℕ → Bytes → Bytes
padded zero bs = []
padded (suc n) [] = 0 ∷ padded n []
padded (suc n) (b ∷ bs) = b ∷ padded n bs

-- `sodium.memzero`
abbrev pub zeroed : Bytes → Bytes
zeroed bs = map (λ b. 0) bs

-- `a ^ b` on `n` bits
unfoldable pub xor_bits : ℕ → ℕ → ℕ → ℕ
xor_bits zero a b = 0
xor_bits (suc n) a b =
    let rest = xor_bits n (a / 2) (b / 2) in (if a % 2 == b % 2 then 2 * rest else 2 * rest + 1)

unfoldable pub xor_all : ℕ → Bytes → Bytes
xor_all pad [] = []
xor_all pad (b ∷ bs) = xor_bits 8 b pad ∷ xor_all pad bs

module _ (c : Crypto) where
  -- `hmacBlake2b(key, data)`
  unfoldable pub key_block : Bytes → Bytes
  key_block key =
      if ltb block_size (length key)
      then padded block_size (c.generichash key)
      else padded block_size key

  unfoldable pub hmac_blake2b : Bytes → Bytes → Bytes
  hmac_blake2b key input =
      c.generichash
        (xor_all 0x5c (key_block key) ++ c.generichash (xor_all 0x36 (key_block key) ++ input))

  -- `hkdf2`
  unfoldable pub hkdf2 : Bytes → Bytes → Bytes × Bytes
  hkdf2 chaining_key input_key_material =
      let temp_key = hmac_blake2b chaining_key input_key_material in
      let output1 = hmac_blake2b temp_key (1 ∷ []) in
      (output1, hmac_blake2b temp_key (output1 ++ 2 ∷ []))

  -- `hkdf3`
  unfoldable pub hkdf3 : Bytes → Bytes → Bytes × Bytes × Bytes
  hkdf3 chaining_key input_key_material =
      let temp_key = hmac_blake2b chaining_key input_key_material in
      let output1 = hmac_blake2b temp_key (1 ∷ []) in
      let output2 = hmac_blake2b temp_key (output1 ++ 2 ∷ []) in
      (output1, output2, hmac_blake2b temp_key (output2 ++ 3 ∷ []))
