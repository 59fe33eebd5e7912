-- ===== src/Crypto/SymmetricState.antt =====
-- `SymmetricState` of src/crypto/noise.ts (Noise specification, section 5.2).
use pty_relay.Base.{String, [], ◌++◌, Option, none, some, leb, length, Bytes, if◌then◌else◌}
use pty_relay.Crypto.Primitives.{
  Crypto, Result, ok, fault, hkdf2, hkdf3, key_len, hash_len, take, padded, zeroed,
}
use pty_relay.Crypto.CipherState.{
  CipherState, with_key, without_key, encrypt_with_ad, decrypt_with_ad,
}

pub record SymmetricState : Type 0 where
  pub ck : Bytes
  pub h : Bytes
  pub cipher : CipherState

module _ (c : Crypto) where
  -- The constructor.
  unfoldable pub initial_hash : Bytes → Bytes
  initial_hash name =
      if leb (length name) hash_len then padded hash_len name else c.generichash name

  unfoldable pub initialize : String → SymmetricState
  initialize protocol_name =
      let h = initial_hash (c.utf8_encode protocol_name) in
      record { ck = h; h = h; cipher = without_key }

  unfoldable pub mix_hash : Bytes → SymmetricState → SymmetricState
  mix_hash input s = record s { h = c.generichash (s.h ++ input) }

  unfoldable pub mix_key : Bytes → SymmetricState → SymmetricState
  mix_key input_key_material s =
      let (new_ck, temp_k) = hkdf2 c s.ck input_key_material in
      record { ck = new_ck; h = s.h; cipher = with_key (take key_len temp_k) }

  unfoldable pub mix_key_and_hash : Bytes → SymmetricState → SymmetricState
  mix_key_and_hash input_key_material s =
      let (new_ck, temp_h, temp_k) = hkdf3 c s.ck input_key_material in
      record {
        ck = new_ck;
        h = c.generichash (s.h ++ temp_h);
        cipher = with_key (take key_len temp_k);
      }

  -- The ciphertext is mixed in after it was made or opened.
  unfoldable pub mixed :
      Bytes → CipherState × Result Bytes → SymmetricState → SymmetricState × Result Bytes
  mixed ciphertext (cipher', fault e) s = (record s { cipher = cipher' }, fault e)
  mixed ciphertext (cipher', ok text) s =
      (mix_hash ciphertext (record s { cipher = cipher' }), ok text)

  unfoldable pub sealed :
      CipherState × Result Bytes → SymmetricState → SymmetricState × Result Bytes
  sealed (cipher', fault e) s = (record s { cipher = cipher' }, fault e)
  sealed (cipher', ok ciphertext) s =
      (mix_hash ciphertext (record s { cipher = cipher' }), ok ciphertext)

  -- `encryptAndHash(plaintext)`, by the key of the cipher
  unfoldable pub encrypt_and_hash_by :
      Option Bytes → Bytes → SymmetricState → SymmetricState × Result Bytes
  encrypt_and_hash_by none plaintext s = (mix_hash plaintext s, ok plaintext)
  encrypt_and_hash_by (some k) plaintext s = sealed (encrypt_with_ad c s.h plaintext s.cipher) s

  unfoldable pub encrypt_and_hash : Bytes → SymmetricState → SymmetricState × Result Bytes
  encrypt_and_hash plaintext s = encrypt_and_hash_by s.cipher.k plaintext s

  -- `decryptAndHash(ciphertext)`
  unfoldable pub decrypt_and_hash_by :
      Option Bytes → Bytes → SymmetricState → SymmetricState × Result Bytes
  decrypt_and_hash_by none ciphertext s = (mix_hash ciphertext s, ok ciphertext)
  decrypt_and_hash_by (some k) ciphertext s =
      mixed ciphertext (decrypt_with_ad c s.h ciphertext s.cipher) s

  unfoldable pub decrypt_and_hash : Bytes → SymmetricState → SymmetricState × Result Bytes
  decrypt_and_hash ciphertext s = decrypt_and_hash_by s.cipher.k ciphertext s

  -- `split()`: the two cipher states, and the state with its keys zeroed
  unfoldable pub split : SymmetricState → SymmetricState × CipherState × CipherState
  split s =
      let (k1, k2) = hkdf2 c s.ck [] in
      (
        record s { ck = zeroed s.ck; h = zeroed s.h },
        with_key (take key_len k1),
        with_key (take key_len k2),
      )
