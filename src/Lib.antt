-- ===== src/Lib.antt =====
-- pty-relay gives a client an encrypted tunnel to the terminal sessions of a daemon. A client and a
-- daemon run a Noise handshake through a relay that sees only ciphertext, and the tunnel then
-- carries frames of many channels: channel 0 for JSON messages, channel 1 for the attached
-- terminal, others for the processes that the daemon starts for the client.
--
-- Base holds the shared names and lemmas: tests on native numbers and strings, lists with a native
-- length, and Base/Assoc, JavaScript's Map with number keys as an association list in insertion order,
-- and Base/Dict, the same with string keys. Js is what
-- `JSON.parse` gives: numbers that are naturals, negative integers or other doubles, and objects as
-- lists of properties.
--
-- Channel models the multiplexer, one module for one file:
--   Channel/Framing      src/relay/channel-framing.ts, encodeFrame and decodeFrame on lists of bytes
--   Channel/AllowList    src/relay/exec-allow-list.ts, checkArgvAllowed
--   Channel/Registry     src/relay/channel-registry.ts, the open channels and the cascade of closes
--   Channel/Exec         src/relay/exec-bridge.ts, one process: a handler gives its actions in order
--   Channel/Control      src/relay/channel-control.ts, with Parse and Encode for the JSON objects
--   Channel/Dispatcher   src/relay/channel-dispatcher.ts, where a plaintext goes
--   Channel/Connection   src/relay/channel-connection.ts: registry, bridges and output of a connection
--   Channel/SessionBridge  src/relay/session-bridge.ts, a pty session over its Unix socket
--   Channel/OpenHandler  src/relay/channel-open-handler.ts, and runs of a connection over its events
-- A bridge lives at a reference and outlives its registration, as the object does in the code; an
-- exception is the `none` of the monad of Channel/Connection, with the state at the throw. It ends
-- the handling of one event. The code of a handler's close that throws is cut off, and the registry
-- goes on. A pty bridge in the registry is a reference, whose frames and closes are outputs there and
-- events of Channel/SessionBridge; its sockets are numbers, with the events of the platform.
--
-- Crypto models src/crypto/noise.ts and src/crypto/transport.ts: Crypto/Primitives (HKDF over the
-- hash), Crypto/CipherState (with Transport), Crypto/SymmetricState, Crypto/Pattern and
-- Crypto/Handshake, which runs any pattern of the five Diffie-Hellman and ephemeral tokens and the
-- pre-shared key. Two handshakes are in step when they are Mirror of each other: opposite roles,
-- equal symmetric states, and each key of one known to the other. The primitives of libsodium are
-- the record Crypto; what is asked of them is in Opens (the AEAD opens what it sealed) and DhLaws
-- (two key pairs give one secret from either side, and a public key has 32 bytes). Random key pairs
-- are a function of a counter.
--
-- Hosts models src/relay/known-hosts.ts, with the store as the list of its entries: Hosts/Label is
-- about pickUniqueLabel, Hosts/Stored about the saves, remove and rename, Hosts/Merge about the
-- peers file, Hosts/Load about reading and writing the JSON of the entries, and Hosts/Resolve models
-- src/relay/host-resolve.ts, what a label stands for. The texts are lists of
-- characters, where JavaScript counts UTF-16 units; URL parsing and the text of a number are
-- parameters, and different numbers have different texts.
--
-- Pairing models src/serve/pairing.ts, the registry of the self-hosted relay: which client socket is
-- joined to which socket of a daemon. Sockets are numbers, entries are objects at references, and the
-- listeners on a socket are data that an event runs in order. Pairing/Isolation says between which
-- sockets it forwards, Pairing/Link that a pairing lasts, Pairing/Ending what the end of a daemon does.
--
-- Relay models the two WebSockets of a daemon: Relay/Primary (src/relay/primary-connection.ts) hears of
-- waiting clients, and Relay/Connection (src/relay/relay-connection.ts) is the Noise responder for one
-- client, with the handshake of Crypto. Relay/Connection/Order is about the order of its callbacks,
-- Relay/Connection/Hello about the handshake through it, and Relay/Agreement about what Pairing sends
-- and these two understand. Callbacks are outputs; what they call back is an event of its own.
--
-- Approval models whom the daemon lets in: Approval/Tokens (src/relay/clients.ts and
-- src/commands/clients.ts) has the stored tokens with their lookup and commands, Approval/Queue the
-- queue of updateClients as a step relation, with its specification in Approval/Queue/Atomic, and
-- Approval/Daemon (src/commands/start.ts) the daemon. What follows an `await` there is a task, and the tasks go on in
-- any order; another process may write the tokens at any time. The random ids are a function of a
-- counter. Sanitize models src/sanitize.ts.
--
-- Prediction models browser/src/predict-input.ts, the characters that the web terminal shows before
-- the server's echo. The terminal is a parameter of Prediction/Terminal: what a write and the two escape
-- sequences of a rollback do to it, its cursor, and the room in a row. Prediction/Screen asks that the
-- cursor that is read is behind what was written, which a batch of characters need not keep, and that
-- the predictions stay in one row, since the source erases one row only.
--
-- The loops are structural recursion, on the bytes, the tokens, the events, the ids or the listeners, but for two
-- in Hosts with fuel: the widening of a prefix by four characters has the length of the
-- distinguisher, which is enough since the prefix then is the whole of it; the search for a number
-- has one more than there are labels in use, which is enough since different numbers give different
-- labels.
--
-- Left out: sockets and timers, the HTTP side of the relay server, the other commands, the encrypted
-- store, the lines of the peers file, the listing of clients and their latency
-- reports, log lines, and the zeroing of buffers that nothing reads afterwards. A load or a save of
-- the tokens that fails is modelled in Approval/Queue only. UTF-8, JSON, `child_process.spawn`, `trim`,
-- base64 and the cryptography are parameters.
pub mod Base
pub mod Js
pub mod Channel
pub mod Crypto
pub mod Hosts
pub mod Approval
pub mod Pairing
pub mod Prediction
pub mod Relay
pub mod Sanitize
