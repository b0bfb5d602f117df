-- ===== src/Link.antt =====
-- The two ends of a connection, sslEncode.c and sslDecode.c: what the encoder writes, the decoder reads.
pub mod Peer
pub mod Sealed
pub mod Opened
pub mod Sent
pub mod Data
pub mod Alert
mod Tests
pub mod Rc4
pub mod Exchange
mod Rc4Tests
pub mod Hello
