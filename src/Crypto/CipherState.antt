-- ===== src/Crypto/CipherState.antt =====
-- `CipherState` of src/crypto/noise.ts and `Transport` of src/crypto/transport.ts.
pub mod Stream
use pty_relay.Base.{
  ℕ, ◌+◌, ◌/◌, ◌%◌, Bool, true, false, List, [], ◌∷◌, Option, none, some, leb, Bytes, if◌then◌else◌,
}
use pty_relay.Crypto.Primitives.{Crypto, Result, ok, fault, no_key, nonce_exhausted, bad_tag}

abbrev pub max_nonce : ℕ
max_nonce = 18446744073709551615

pub record CipherState : Type 0 where
  pub k : Option Bytes
  pub n : ℕ

abbrev pub with_key : Bytes → CipherState
with_key k = record { k = some k; n = 0 }

abbrev pub without_key : CipherState
without_key = record { k = none; n = 0 }

-- `view.setUint32(offset, n, true)`
abbrev pub set_uint32_le : ℕ → Bytes → Bytes
set_uint32_le n rest = (n % 256) ∷ (n / 256 % 256) ∷ (n / 65536 % 256) ∷ (n / 16777216 % 256) ∷ rest

-- `nonceFromCounter(n)`
unfoldable pub nonce_from_counter : ℕ → Bytes
nonce_from_counter n =
    0 ∷ 0 ∷ 0 ∷ 0 ∷ set_uint32_le (n % 4294967296) (set_uint32_le (n / 4294967296 % 4294967296) [])

abbrev pub opened_or_fault : Option Bytes → Result Bytes
opened_or_fault none = fault bad_tag
opened_or_fault (some p) = ok p

abbrev pub bump : CipherState → CipherState
bump s = record s { n = s.n + 1 }

module _ (c : Crypto) where
  -- `encryptWithAd(ad, plaintext)`, by `this.k`
  unfoldable pub encrypt_by :
      Option Bytes → Bytes → Bytes → CipherState → CipherState × Result Bytes
  encrypt_by none ad plaintext s = (s, fault no_key)
  encrypt_by (some k) ad plaintext s =
      if leb max_nonce s.n
      then (s, fault nonce_exhausted)
      else (bump s, ok (c.aead_encrypt plaintext ad (nonce_from_counter s.n) k))

  unfoldable pub encrypt_with_ad : Bytes → Bytes → CipherState → CipherState × Result Bytes
  encrypt_with_ad ad plaintext s = encrypt_by s.k ad plaintext s

  -- `decryptWithAd(ad, ciphertext)`: the counter moves on also when the tag is wrong
  unfoldable pub decrypt_by :
      Option Bytes → Bytes → Bytes → CipherState → CipherState × Result Bytes
  decrypt_by none ad ciphertext s = (s, fault no_key)
  decrypt_by (some k) ad ciphertext s =
      if leb max_nonce s.n
      then (s, fault nonce_exhausted)
      else (bump s, opened_or_fault (c.aead_decrypt ciphertext ad (nonce_from_counter s.n) k))

  unfoldable pub decrypt_with_ad : Bytes → Bytes → CipherState → CipherState × Result Bytes
  decrypt_with_ad ad ciphertext s = decrypt_by s.k ad ciphertext s

-- `Transport`
pub record Transport : Type 0 where
  pub send : CipherState
  pub recv : CipherState

module _ (c : Crypto) where
  unfoldable pub encrypt : Bytes → Transport → Transport × Result Bytes
  encrypt plaintext t =
      let (send', r) = encrypt_with_ad c [] plaintext t.send in (record t { send = send' }, r)

  unfoldable pub decrypt : Bytes → Transport → Transport × Result Bytes
  decrypt ciphertext t =
      let (recv', r) = decrypt_with_ad c [] ciphertext t.recv in (record t { recv = recv' }, r)
