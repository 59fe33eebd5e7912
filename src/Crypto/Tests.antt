-- ===== src/Crypto/Tests.antt =====
-- The theorems on the Noise code at concrete inputs, over a toy cryptography.
use pty_relay.Base.{
  ℕ, ◌+◌, ◌*◌, true, false, Option, none, some, [], ◌∷◌, ◌++◌, ◌≡◌, ◌≢◌, refl, ap, Bytes, length,
  arith,
}
use pty_relay.Crypto.Primitives.{Crypto, ok, padded}
use pty_relay.Crypto.CipherState.{
  Transport, with_key, nonce_from_counter, encrypt, encrypt_with_ad, encrypt_by,
}
use pty_relay.Crypto.CipherState.Stream.{
  Opens, nonce_from_counter-distinct, encrypt_each, decrypt_each, decrypt_each-encrypt_each,
}
use pty_relay.Crypto.SymmetricState.{
  SymmetricState, initialize, mix_hash, encrypt_and_hash, encrypt_and_hash_by, mix_key, sealed,
}
use pty_relay.Crypto.Pattern.{KeyPair, Options, nk}
use pty_relay.Crypto.Handshake.{
  Handshake, make, write_message, read_message, split, is_my_turn, is_complete, write_tokens,
  write_token, mix_dh, mix_dh_value, dh_value, dh_keys, write_payload,
}
use pty_relay.Crypto.Handshake.Mirror.{DhLaws, Mirror}
use pty_relay.Crypto.Handshake.Session.{SplitAgree, read_message-write_message, split-Mirror}
use pty_relay.Crypto.Handshake.Start.{Counterparts, Starts, make-Counterparts}

-- The secret of the private key `x` and the public key `y, 0, …, 0` is `x * y`.
abbrev product : Bytes → Bytes → Option Bytes
product (x ∷ xs) (y ∷ ys) = some ((x * y) ∷ [])
product _ _ = none

abbrev pub toy : Crypto
toy = record {
  generichash = λ bs. [];
  aead_encrypt = λ p ad n k. p;
  aead_decrypt = λ b ad n k. some b;
  scalarmult = product;
  utf8_encode = λ s. [];
}

abbrev key_of : ℕ → KeyPair
key_of x = record { public_key = x ∷ padded 31 []; private_key = x ∷ [] }

abbrev pub IsToyPair : KeyPair → Type 0
IsToyPair k = (x : ℕ) × (k ≡ key_of x)

pub toy-Opens : Opens toy
toy-Opens p ad n k = refl

product_comm : (x y : ℕ) → product (x ∷ []) (y ∷ padded 31 []) ≡ product (y ∷ []) (x ∷ padded 31 [])
product_comm x y = ap (λ n. some (n ∷ [])) (omega arith)

toy-agrees :
    (x y : KeyPair)
    → IsToyPair x
    → IsToyPair y
    → product x.private_key y.public_key ≡ product y.private_key x.public_key
toy-agrees x y (i, hi) (j, hj) = simp (hi, hj) (product_comm i j)

toy-length : (x : KeyPair) → IsToyPair x → length x.public_key ≡ 32
toy-length x (i, hi) = simp (hi)

pub toy-DhLaws : DhLaws toy IsToyPair
toy-DhLaws = record { agrees = toy-agrees; public_length = toy-length }

abbrev pub gen : ℕ → KeyPair
gen n = key_of (n + 5)

pub gen-IsToyPair : (i : ℕ) → IsToyPair (gen i)
gen-IsToyPair i = (i + 5, refl)

abbrev pub static : KeyPair
static = key_of 3

abbrev client : Options
client = record {
  pattern = nk;
  initiator = true;
  static_keys = none;
  remote_static = some static.public_key;
  pre_shared_key = none;
}

abbrev daemon : Options
daemon = record {
  pattern = nk;
  initiator = false;
  static_keys = some static;
  remote_static = none;
  pre_shared_key = none;
}

client-Counterparts : Counterparts IsToyPair client daemon
client-Counterparts = record {
  pattern = refl;
  roles = refl;
  own = tt;
  remote = (refl, (3, refl));
  pre_shared_key = refl;
}

make-Counterparts_example : Starts toy IsToyPair (make toy client) (make toy daemon)
make-Counterparts_example = make-Counterparts toy IsToyPair client daemon client-Counterparts

abbrev symmetric : SymmetricState
symmetric = mix_hash toy static.public_key (initialize toy nk.name)

abbrev pub client_hs : Handshake
client_hs = record {
  pattern = nk;
  initiator = true;
  own = none;
  remote = some static.public_key;
  secret = none;
  symmetric = symmetric;
  ephemeral = none;
  remote_ephemeral = none;
  next_index = 0;
  drawn = 0;
}

abbrev pub daemon_hs : Handshake
daemon_hs = record client_hs { initiator = false; own = some static; remote = none }

pub start-Mirror : Mirror IsToyPair client_hs daemon_hs
start-Mirror = record {
  pattern = refl;
  roles = refl;
  own = tt;
  remote = (refl, (3, refl));
  ephemeral = tt;
  remote_ephemeral = tt;
  secret = refl;
  symmetric = refl;
  next_index = refl;
}

abbrev pub after_first : Handshake
after_first = (write_message toy gen (42 ∷ []) client_hs).0

pub first_message :
    write_message toy gen (42 ∷ []) client_hs ≡ (after_first, ok ((gen 0).public_key ++ 42 ∷ []))
unfolding write_message is_complete is_my_turn write_tokens write_token mix_dh mix_dh_value dh_value
    dh_keys write_payload encrypt_and_hash encrypt_and_hash_by mix_key sealed encrypt_with_ad
    encrypt_by
first_message = refl

read_message-write_message_example :
    (b' : Handshake) × (read_message toy ((gen 0).public_key ++ 42 ∷ []) daemon_hs
      ≡ (b', ok (42 ∷ [])))
    × Mirror IsToyPair after_first b'
read_message-write_message_example =
    read_message-write_message toy IsToyPair toy-Opens toy-DhLaws gen gen-IsToyPair (42 ∷ [])
      ((gen 0).public_key ++ 42 ∷ []) client_hs daemon_hs after_first start-Mirror first_message

abbrev client_done : Handshake
client_done = record client_hs { next_index = 2 }

abbrev daemon_done : Handshake
daemon_done = record daemon_hs { next_index = 2 }

done-Mirror : Mirror IsToyPair client_done daemon_done
done-Mirror = record {
  pattern = refl;
  roles = refl;
  own = tt;
  remote = (refl, (3, refl));
  ephemeral = tt;
  remote_ephemeral = tt;
  secret = refl;
  symmetric = refl;
  next_index = refl;
}

split-Mirror_example : SplitAgree (split toy client_done) (split toy daemon_done)
split-Mirror_example =
    split-Mirror toy IsToyPair toy-Opens toy-DhLaws gen gen-IsToyPair client_done daemon_done
      done-Mirror

nonce_from_counter-distinct_example : nonce_from_counter 258 ≢ nonce_from_counter 1
nonce_from_counter-distinct_example =
    nonce_from_counter-distinct 258 1 (ground arith) (ground arith) (ground arith)

abbrev sender : Transport
sender = record { send = with_key (1 ∷ []); recv = with_key (2 ∷ []) }

abbrev receiver : Transport
receiver = record { send = with_key (2 ∷ []); recv = with_key (1 ∷ []) }

abbrev sent_two : Transport
sent_two = record sender { send = record { k = some (1 ∷ []); n = 2 } }

two-encrypted :
    encrypt_each toy ((9 ∷ []) ∷ (8 ∷ []) ∷ []) sender ≡ some ((9 ∷ []) ∷ (8 ∷ []) ∷ [], sent_two)
unfolding encrypt_each encrypt encrypt_with_ad encrypt_by
two-encrypted = refl

decrypt_each-encrypt_each_example :
    (r' : Transport) × (decrypt_each toy ((9 ∷ []) ∷ (8 ∷ []) ∷ []) receiver
      ≡ some ((9 ∷ []) ∷ (8 ∷ []) ∷ [], r'))
    × (sent_two.send ≡ r'.recv)
decrypt_each-encrypt_each_example =
    decrypt_each-encrypt_each toy toy-Opens ((9 ∷ []) ∷ (8 ∷ []) ∷ []) ((9 ∷ []) ∷ (8 ∷ []) ∷ [])
      sender receiver sent_two refl two-encrypted
