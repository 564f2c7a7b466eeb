-- ===== src/Noise.antt =====
-- ghostbro-server/src/noise.rs: the Noise listener, from the socket to the sessions.
pub mod Socket
pub mod Framing
pub mod Stream
pub mod Sessions
pub mod Connection
pub mod Handler
