-- ===== src/Crypto.antt =====
-- src/crypto/noise.ts and src/crypto/transport.ts: the Noise handshake and the encrypted transport.
pub mod Primitives
pub mod CipherState
pub mod SymmetricState
pub mod Pattern
pub mod Handshake
pub mod Tests
