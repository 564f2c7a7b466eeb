-- ===== src/Relay/Guard.antt =====
-- ghostbro-server/src/relay.rs: resolve_guard and the checks of URLs. The classes of addresses are those
-- that std::net documents.
pub mod Addresses
use ghostbro.Base.{
  ℕ, ◌/◌, ◌^◌, Option, none, some, List, [], ◌∷◌, Bool, true, false, ◌&&◌, ◌||◌, not, if◌then◌else◌,
  nat_beq, bytes_beq,
}
use ghostbro.Base.Result.{Result, ok, err, ◌>>=◌, ◌>>◌, fail_if, ok_or}
use ghostbro.Relay.{
  Ip, v4, v6, Url, External, RelayError, invalid_url, unsupported_scheme, no_host, no_port,
  not_resolved, disallowed_address,
}

abbrev pub is_unspecified : Ip → Bool
is_unspecified (v4 a) = nat_beq a 0
is_unspecified (v6 a) = nat_beq a 0

-- 224.0.0.0/4, ff00::/8
abbrev pub is_multicast : Ip → Bool
is_multicast (v4 a) = nat_beq (a / 2 ^ 28) 0xe
is_multicast (v6 a) = nat_beq (a / 2 ^ 120) 0xff

-- 127.0.0.0/8, ::1
abbrev pub is_loopback : Ip → Bool
is_loopback (v4 a) = nat_beq (a / 2 ^ 24) 127
is_loopback (v6 a) = nat_beq a 1

-- 10.0.0.0/8, 172.16.0.0/12, 192.168.0.0/16 and 169.254.0.0/16; fc00::/7 and fe80::/10
abbrev pub is_private_ip : Ip → Bool
is_private_ip (v4 a) =
    (nat_beq (a / 2 ^ 24) 10 || nat_beq (a / 2 ^ 20) 0xac1 || nat_beq (a / 2 ^ 16) 0xc0a8)
    || nat_beq (a / 2 ^ 16) 0xa9fe
is_private_ip (v6 a) = nat_beq (a / 2 ^ 121) 0x7e || nat_beq (a / 2 ^ 118) 0x3fa

abbrev pub is_disallowed : Bool → Ip → Bool
is_disallowed allow_loopback ip =
    is_unspecified ip
    || is_multicast ip
    || (not allow_loopback && is_loopback ip)
    || (not allow_loopback && is_private_ip ip)

-- The loop over the addresses.
unfoldable pub validated : Bool → List Ip → Result RelayError (List Ip)
validated allow_loopback [] = ok []
validated allow_loopback (ip ∷ ips) = do
  fail_if (is_disallowed allow_loopback ip) disallowed_address
  rest ← validated allow_loopback ips
  ok (ip ∷ rest)

abbrev pub is_empty : List Ip → Bool
is_empty [] = true
is_empty (ip ∷ ips) = false

abbrev http : List ℕ
http = b'h' ∷ b't' ∷ b't' ∷ b'p' ∷ []

abbrev https : List ℕ
https = b'h' ∷ b't' ∷ b't' ∷ b'p' ∷ b's' ∷ []

abbrev git : List ℕ
git = b'g' ∷ b'i' ∷ b't' ∷ []

abbrev is_web : List ℕ → Bool
is_web scheme = bytes_beq scheme http || bytes_beq scheme https

module _ (x : External) where
  unfoldable pub resolve_guard : Url → Bool → Result RelayError (List Ip)
  resolve_guard parsed allow_loopback = do
    host ← ok_or parsed.host no_host
    port ← ok_or parsed.port no_port
    addrs ← ok_or (x.to_socket_addrs host port) not_resolved
    ips ← validated allow_loopback addrs
    fail_if (is_empty ips) not_resolved
    ok ips

  unfoldable pub validate_public_url : List ℕ → Bool → Result RelayError (List Ip)
  validate_public_url url allow_loopback = do
    parsed ← ok_or (x.parse_url url) invalid_url
    fail_if (not (is_web parsed.scheme)) unsupported_scheme
    resolve_guard parsed allow_loopback

  unfoldable pub validate_git_url : List ℕ → Bool → Result RelayError (List Ip)
  validate_git_url url allow_loopback = do
    parsed ← ok_or (x.parse_url url) invalid_url
    fail_if (not (is_web parsed.scheme || bytes_beq parsed.scheme git)) unsupported_scheme
    resolve_guard parsed allow_loopback
