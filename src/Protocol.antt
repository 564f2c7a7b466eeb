-- ===== src/Protocol.antt =====
-- ghostbro-common/src/protocol.rs: the sizes and flag bits of the sealed SPA packet, and the first
-- byte of a tunnelled request.
use ghostbro.Base.{ℕ, ◌+◌, ◌-◌, List, [], ◌∷◌}

abbrev pub version_prefix : List ℕ
version_prefix = 0x47 ∷ 0x50 ∷ []

abbrev pub key_id_len : ℕ
key_id_len = 8

abbrev pub timestamp_len : ℕ
timestamp_len = 8

abbrev pub counter_len : ℕ
counter_len = 8

abbrev pub allow_ip_len : ℕ
allow_ip_len = 4

abbrev pub signature_len : ℕ
signature_len = 64

abbrev pub spa_inner_signed_len : ℕ
spa_inner_signed_len = 2 + 1 + key_id_len + timestamp_len + counter_len + allow_ip_len

abbrev pub spa_inner_len : ℕ
spa_inner_len = spa_inner_signed_len + signature_len

abbrev pub spa_ephemeral_len : ℕ
spa_ephemeral_len = 32

abbrev pub spa_aead_tag_len : ℕ
spa_aead_tag_len = 16

abbrev pub spa_sealed_core_len : ℕ
spa_sealed_core_len = spa_ephemeral_len + spa_inner_len + spa_aead_tag_len

abbrev pub spa_min_len : ℕ
spa_min_len = spa_sealed_core_len

abbrev pub spa_max_len : ℕ
spa_max_len = 176

abbrev pub spa_max_padding : ℕ
spa_max_padding = spa_max_len - spa_min_len

abbrev pub spa_flag_https : ℕ
spa_flag_https = 0b0000_0001

abbrev pub spa_flag_use_packet_source : ℕ
spa_flag_use_packet_source = 0b0000_0010

-- `!(SPA_FLAG_HTTPS | SPA_FLAG_USE_PACKET_SOURCE)` on a byte
abbrev pub spa_reserved_flags : ℕ
spa_reserved_flags = 0b1111_1100

abbrev pub protocol_socks5 : ℕ
protocol_socks5 = 0x05

abbrev pub protocol_ghost_relay : ℕ
protocol_ghost_relay = 0x47
