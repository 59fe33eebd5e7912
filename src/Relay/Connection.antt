-- ===== src/Relay/Connection.antt =====
-- src/relay/relay-connection.ts: the daemon's WebSocket for one client, and its Noise responder. The
-- callbacks of the daemon are outputs; what they call back is an event of its own.
pub mod Order
pub mod Hello
use pty_relay.Base.{
  ℕ, ◌+◌, String, Bool, true, false, Option, none, some, List, [], ◌∷◌, ◌++◌, Bytes, str_eq,
  if◌then◌else◌,
}
use pty_relay.Js.{Json, null, str, obj, Fields, prop, truthy, string_at}
use pty_relay.Crypto.Primitives.{Crypto, Fault, Result, ok, fault}
use pty_relay.Crypto.CipherState.{Transport, encrypt, decrypt}
use pty_relay.Crypto.Pattern.{KeyPair, Pattern, Options, nk, kk, nk_psk2}
use pty_relay.Crypto.Handshake.{Handshake, make, read_message, write_message, split}

-- `PairedMeta`; a `noise_pattern` is "NKpsk2" or undefined.
pub record PairedMeta : Type 0 where
  pub pairing_hash_id : Option String
  pub client_public_key : Option String
  pub wants_psk : Bool

pub data State : Type 0 where
  connecting waiting handshaking ready closed : State

-- The errors that the connection reports or throws.
pub data Failure : Type 0 where
  noise : Fault → Failure
  no_psk_loaded psk_expected bad_client_key not_ready upgrade_rejected socket_error : Failure
  relay_error : Json → Failure

-- The calls of the socket and of the callbacks. `uncaught` is an exception out of a socket listener.
pub data Output : Type 0 where
  sent_frame : Bytes → Output
  closed_socket : Output
  on_connected : Output
  on_paired : PairedMeta → Output
  on_handshake_complete : Output
  on_encrypted_message : Bytes → Output
  on_peer_disconnected : Output
  on_error : Failure → Output
  on_close : Option ℕ → Output
  on_revoked : Output
  psk_attempt : Bool → String → Output
  uncaught : Output

-- The `Config`, the `RelayAuth`, and the calls of libsodium: the fingerprint of a key, the Curve25519
-- key of a base64 text (`none` when that throws), and the key pairs drawn for each handshake.
pub record Env : Type 0 where
  pub crypto : Crypto
  pub key_pair : KeyPair
  pub pre_shared_key : Option Bytes
  pub fingerprint : Bytes → String
  pub client_key : String → Option Bytes
  pub draw : ℕ → ℕ → KeyPair
  pub parse : String → Option Json

pub record Conn : Type 0 where
  pub state : State
  pub has_socket : Bool
  pub transport : Option Transport
  pub handshake : Option Handshake
  pub psk_fingerprint : Option String
  -- how many handshakes were begun
  pub begun : ℕ
  pub out : List Output

abbrev pub emit : Output → Conn → Conn
emit o c = record c { out = c.out ++ (o ∷ []) }

-- `close()`
unfoldable pub close : Conn → Conn
close c = let c' = record c { state = closed } in if c.has_socket then emit closed_socket c' else c'

-- `connect()`
abbrev pub connect : Conn → Conn
connect c = record c { state = connecting; has_socket = true; transport = none; handshake = none }

-- What a paired frame leads to: a pattern with the client's key and the pre-shared key, or an error.
pub data Choice : Type 0 where
  chosen : Pattern → Option Bytes → Option Bytes → Choice
  refused : Failure → Choice

unfoldable pub choose_kk : Option Bytes → Choice
choose_kk none = refused bad_client_key
choose_kk (some k) = chosen kk (some k) none

unfoldable pub choose_psk : Option Bytes → Choice
choose_psk none = refused no_psk_loaded
choose_psk (some k) = chosen nk_psk2 none (some k)

unfoldable pub choose_nk : Option Bytes → Choice
choose_nk none = chosen nk none none
choose_nk (some k) = refused psk_expected

abbrev pub audit_refusal : Failure → Conn → Conn
audit_refusal no_psk_loaded c = emit (psk_attempt false "-") c
audit_refusal psk_expected c = emit (psk_attempt false "-") c
audit_refusal _ c = c

abbrev pub fingerprint_of : (Bytes → String) → Option Bytes → Option String → Option String
fingerprint_of f none old = old
fingerprint_of f (some k) old = some (f k)

-- `if (this.pskAuthFingerprint) this.auth.onPskAuthAttempt(…)`
unfoldable pub audit : Option String → Bool → Conn → Conn
audit none success c = c
audit (some f) success c =
    if str_eq f "" then c else record (emit (psk_attempt success f) c) { psk_fingerprint = none }

module _ (env : Env) where
  unfoldable pub choose_by : Option String → Bool → Choice
  choose_by none wants =
      if wants then choose_psk env.pre_shared_key else choose_nk env.pre_shared_key
  choose_by (some key) wants =
      if str_eq key ""
      then (if wants then choose_psk env.pre_shared_key else choose_nk env.pre_shared_key)
      else choose_kk (env.client_key key)

  unfoldable pub choose : PairedMeta → Choice
  choose meta = choose_by meta.client_public_key meta.wants_psk

  abbrev pub options : Pattern → Option Bytes → Option Bytes → Options
  options pattern remote secret = record {
    pattern = pattern;
    initiator = false;
    static_keys = some env.key_pair;
    remote_static = remote;
    pre_shared_key = secret;
  }

  -- The end of `beginHandshake`, which may throw.
  unfoldable pub started : Result Handshake → Conn → Conn × Option Failure
  started (fault x) c = (c, some (noise x))
  started (ok h) c =
      (record c { handshake = some h; state = handshaking; begun = c.begun + 1 }, none)

  unfoldable pub begin : Choice → Conn → Conn × Option Failure
  begin (refused f) c = (audit_refusal f c, some f)
  begin (chosen pattern remote secret) c =
      started (make env.crypto (options pattern remote secret))
        (record c { psk_fingerprint = fingerprint_of env.fingerprint secret c.psk_fingerprint })

  -- `beginHandshake(meta)`
  unfoldable pub begin_handshake : PairedMeta → Conn → Conn × Option Failure
  begin_handshake meta c = begin (choose meta) c

  unfoldable pub paired_by : PairedMeta → Conn × Option Failure → Conn
  paired_by meta (c, some f) = close (emit (on_error f) c)
  paired_by meta (c, none) = emit (on_paired meta) c

  unfoldable pub on_paired_frame : PairedMeta → Conn → Conn
  on_paired_frame meta c = paired_by meta (begin_handshake meta c)

  abbrev pub peer_gone : Conn → Conn
  peer_gone c =
      emit on_peer_disconnected (record c { transport = none; handshake = none; state = waiting })

  -- `msg.message || "Relay error"`
  abbrev pub message_or_default : Option Json → Json
  message_or_default none = str "Relay error"
  message_or_default (some j) = if truthy (some j) then j else str "Relay error"

  abbrev pub is_nkpsk2 : Option String → Bool
  is_nkpsk2 none = false
  is_nkpsk2 (some s) = str_eq s "NKpsk2"

  abbrev pub paired_meta : Fields → PairedMeta
  paired_meta o = record {
    pairing_hash_id = string_at "pairing_hash_id" o;
    client_public_key = string_at "client_public_key" o;
    wants_psk = is_nkpsk2 (string_at "noise_pattern" o);
  }

  unfoldable pub on_type : Option String → Fields → Conn → Conn
  on_type none o c = c
  on_type (some type) o c =
      if str_eq type "paired"
      then on_paired_frame (paired_meta o) c
      else (if str_eq type "peer_disconnected"
          then peer_gone c
          else (if str_eq type "error"
              then emit (on_error (relay_error (message_or_default (prop "message" o)))) c
              else (if str_eq type "revoked" then emit on_revoked c else c)))

  -- `handleTextMessage`, by the result of `JSON.parse`; `null.type` throws.
  unfoldable pub on_text : Option Json → Conn → Conn
  on_text none c = c
  on_text (some null) c = emit uncaught c
  on_text (some (obj o)) c = on_type (string_at "type" o) o c
  on_text (some _) c = c

  -- The `catch` around the handshake.
  unfoldable pub failed : Handshake × Fault → Conn → Conn
  failed (h, x) c =
      close (
        emit (on_error (noise x)) (audit c.psk_fingerprint false (record c { handshake = some h })))

  unfoldable pub finished : Handshake × Result Transport → Conn → Conn
  finished (h, fault x) c = failed (h, x) c
  finished (h, ok t) c = emit on_handshake_complete (
      audit c.psk_fingerprint true
        (record c { transport = some t; state = ready; handshake = none }))

  unfoldable pub welcomed : Handshake × Result Bytes → Conn → Conn
  welcomed (h, fault x) c = failed (h, x) c
  welcomed (h, ok welcome) c = finished (split env.crypto h) (emit (sent_frame welcome) c)

  unfoldable pub answered : Handshake × Result Bytes → Conn → Conn
  answered (h, fault x) c = failed (h, x) c
  answered (h, ok payload) c = welcomed (write_message env.crypto (env.draw c.begun) [] h) c

  unfoldable pub on_handshake_frame : Option Handshake → Bytes → Conn → Conn
  on_handshake_frame none bs c = c
  on_handshake_frame (some h) bs c = answered (read_message env.crypto bs h) c

  unfoldable pub opened : Transport × Result Bytes → Conn → Conn
  opened (t, fault x) c = close (emit (on_error (noise x)) (record c { transport = some t }))
  opened (t, ok plaintext) c =
      emit (on_encrypted_message plaintext) (record c { transport = some t })

  unfoldable pub on_tunnel_frame : Option Transport → Bytes → Conn → Conn
  on_tunnel_frame none bs c = c
  on_tunnel_frame (some t) bs c = opened (decrypt env.crypto bs t) c

  -- `handleBinaryMessage`
  unfoldable pub on_binary : State → Bytes → Conn → Conn
  on_binary handshaking bs c = on_handshake_frame c.handshake bs c
  on_binary ready bs c = on_tunnel_frame c.transport bs c
  on_binary _ bs c = c

  unfoldable pub sent_by : Transport × Result Bytes → Conn → Conn × Option Failure
  sent_by (t, fault x) c = (record c { transport = some t }, some (noise x))
  sent_by (t, ok ciphertext) c =
      (emit (sent_frame ciphertext) (record c { transport = some t }), none)

  -- `send(plaintext)`
  unfoldable pub send_ready : State → Option Transport → Bytes → Conn → Conn × Option Failure
  send_ready ready (some t) plaintext c =
      if c.has_socket then sent_by (encrypt env.crypto plaintext t) c else (c, some not_ready)
  send_ready _ _ plaintext c = (c, some not_ready)

  unfoldable pub send : Bytes → Conn → Conn × Option Failure
  send plaintext c = send_ready c.state c.transport plaintext c

  -- The listener on the socket's close; after a rejected upgrade there is nothing left to do.
  unfoldable pub socket_closed : State → Option ℕ → Conn → Conn
  socket_closed closed code c = c
  socket_closed _ code c = emit (on_close code) (record c { state = closed })

-- The calls of the daemon, and the events of the socket.
pub data Event : Type 0 where
  call_connect : Event
  call_send : Bytes → Event
  call_close : Event
  socket_open : Event
  text : String → Event
  binary : Bytes → Event
  socket_close : Option ℕ → Event
  socket_failed : Event
  rejected : Option ℕ → Event

module _ (env : Env) where
  unfoldable pub step : Event → Conn → Conn
  step call_connect c = connect c
  step (call_send plaintext) c = (send env plaintext c).0
  step call_close c = close c
  step socket_open c = emit on_connected (record c { state = waiting })
  step (text t) c = on_text env (env.parse t) c
  step (binary bs) c = on_binary env c.state bs c
  step (socket_close code) c = socket_closed env c.state code c
  step socket_failed c = emit (on_error socket_error) c
  step (rejected status) c =
      emit (on_close status) (record (emit (on_error upgrade_rejected) c) { state = closed })

  unfoldable pub run : List Event → Conn → Conn
  run [] c = c
  run (e ∷ es) c = run es (step e c)

-- A connection when it is made.
abbrev pub fresh : Conn
fresh = record {
  state = connecting;
  has_socket = false;
  transport = none;
  handshake = none;
  psk_fingerprint = none;
  begun = 0;
  out = [];
}
