-- ===== src/Lib.antt =====
-- Ghostbro: single-packet authorization in front of a proxy. A client sends one sealed and signed packet;
-- the kernel's XDP program hands it to the server; the server verifies it and opens the kernel's allow list
-- for the sender for a while; everything else that arrives for the proxy port is dropped in the kernel.
--
-- The parts, their files here, and the code (paths from the repository's root):
--   Base        tests, lists, maps, bytes and results that the other files share
--   Protocol    ghostbro-common/src/protocol.rs: sizes and flag bits
--   Crypto      the cryptographic crates: a record of operations, and one of their documented laws
--   Seal        ghostbro-common/src/seal.rs: seal_with_ephemeral and open (open_seal)
--   Packet      ghostbro-common/src/spa.rs: build, build_with_padding, open (open_packet, parse_inner,
--               parse_fields), verify (verify_packet)
--   Keys        ghostbro-common/src/keys.rs, ghostbro-server/src/keys.rs: key ids and enrolled clients
--   Disk        the file system and the TOML crate, with the faults of a run and documented laws
--   Verifier    ghostbro-server/src/spa.rs: SpaVerifier; verify is identify (seal, client, signature), then
--               admit (tier, clock, address, counter), then advance and persist_counters
--   LruMap      the kernel's LRU hash map: operations of both halves, and documented laws
--   Gate        ghostbro-ebpf/src/main.rs, ghostbro-bpf-common/src/lib.rs: ghostbro_xdp and all below it
--   Control     ghostbro-server/src/ebpf.rs: allow_source, purge_key_id, reap_expired_sources and the
--               handling of one candidate in run_spa (handle_candidate); Control/Event: parse_spa_event
--               and the handling of one item of the ring (handle_item); Control/Reload: the
--               reload of the key file (handle_reload); Control/Connections: both maps with the
--               connections of Noise
--   Noise       ghostbro-server/src/noise.rs. Socket: what polls of a TCP stream find. Framing:
--               poll_read_outer_frame. Stream: the rest of NoiseFramedStream. Sessions: acquire_session and
--               SessionSlot. Connection: read_frame and write_frame. Handler: handle_connection
--   Relay       ghostbro-server/src/relay.rs. Wire: RelayCursor and the responses. Guard: resolve_guard.
--               Package: PackageSpec. Path: metadata_path and the paths of the objects. Store: the spool,
--               enqueue, download and delete. Listing: list. Dispatch: dispatch. Worker: process_job_inner,
--               process_job, reap_expired, recover_pending. Client: the relay requests of
--               ghostbro-client/src/main.rs and its download loop
--   Examples    stand-ins for the parameters that have the laws, and the theorems at concrete values
--
-- State is a record that a function takes and returns with its result; a handler that mutates through
-- a reference returns the new value. Errors are values of Result, or none where the code's error says
-- nothing. A history is a list of events that a function runs; the one task of run_spa and the lock on
-- its state let none of these events interleave with another. Numbers are natural numbers; where the
-- code wraps or saturates, `% 2 ^ w` or `min` is written. The kernel runs the XDP program on several
-- processors at once and the program's updates of a token bucket are not atomic; here packets are
-- handled one after another. Bytes and text are lists of numbers. Two loops run on fuel: that of
-- poll_read (read_loop), which needs more fuel than bytes have come, and that of relay_download, which
-- needs a round for each 8192 bytes of the object. Every other loop is over a list or a number. A
-- buffer with a position in it is the bytes that are left, or those that have come. A job of the relay
-- is worked on in three steps, before its fetch, after it under the quota lock, and after the release
-- of the lock, with requests and other workers between them; finish_job is the last two with nothing
-- between. A request for a job reads and removes what the path with the bytes of its id reaches; the
-- metadata and objects that the server writes itself are written under the id, whose digits it makes.
-- A connection of Noise is handled from its accept to its end in one step, where the code lets others
-- in at each await; of what they share, the session slots are also modelled with any order of opening
-- and closing. Clocks, random bytes and the faults of the system are arguments.
--
-- Not modelled: the handshake and the sessions of the snow crate, the SOCKS5 crate, HTTP, git and the
-- package registries (parameters, or not followed), the key file of ghostbro-server/src/noise.rs, failing
-- system calls on the relay's spool, ghostbro-server/src/relay/normalize.rs, the decoy, the configuration,
-- privileges, the client program but for its relay requests, and xtask. Of ghostbro-server/src/ebpf.rs,
-- loading of the object, the watcher of the key file, the order in which run_spa polls, and the log lines; of
-- the key modules, key files and their generation. Padding bytes of the shared structs, and the zeroing of
-- secrets, have no counterpart.
pub mod Base
pub mod Protocol
pub mod Crypto
pub mod Seal
pub mod Packet
pub mod Keys
pub mod Disk
pub mod Verifier
pub mod LruMap
pub mod Gate
pub mod Control
pub mod Noise
pub mod Relay
pub mod Examples
