-- ===== src/Examples.antt =====
-- The theorems at concrete values: stand-ins for the parameters, and runs of the code with them.
pub mod Parts
pub mod Packets
pub mod Verifying
pub mod Frames
pub mod Revoking
pub mod Enrolling
pub mod Sessions
pub mod Relaying
pub mod Connecting
