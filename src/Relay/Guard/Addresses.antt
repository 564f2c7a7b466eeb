-- ===== src/Relay/Guard/Addresses.antt =====
-- ghostbro-server/src/relay.rs: which addresses resolve_guard lets through.
use ghostbro.Base.{
  ℕ, ◌+◌, ◌-◌, ◌*◌, ◌<◌, ◌⊎◌, true, ◌^◌, ◌≡◌, ◌≢◌, refl, sym, ap, subst, ◌∙◌, some, Bool, false,
  List, [], ◌∷◌, arith, All,
}
use ghostbro.Base.Result.{Result, ok, fail_if, ok_or, >>=-eq-ok, fail_if-eq-ok, ok_or-eq-ok}
use ghostbro.Relay.{
  Ip, v4, v6, Url, External, RelayError, no_host, no_port, not_resolved, disallowed_address,
}
use ghostbro.Relay.Guard.{is_disallowed, validated, is_empty, resolve_guard}

-- a.b.c.d
abbrev pub dotted : ℕ → ℕ → ℕ → ℕ → ℕ
dotted a b c d = ((a * 256 + b) * 256 + c) * 256 + d

-- The first and the last address of an IPv6 block whose first 16 bits go from `lo` to `hi`.
abbrev pub lowest : ℕ → ℕ
lowest lo = lo * 2 ^ 112

abbrev pub highest : ℕ → ℕ
highest hi = (hi + 1) * 2 ^ 112 - 1

abbrev pub Outside : ℕ → ℕ → ℕ → Type 0
Outside a first last = (a < first) ⊎ (last < a)

-- Outside the unspecified address and the multicast block.
abbrev pub IsUnicast : Ip → Type 0
IsUnicast (v4 a) =
    Outside a (dotted 0 0 0 0) (dotted 0 0 0 0)
    × Outside a (dotted 224 0 0 0) (dotted 239 255 255 255)
IsUnicast (v6 a) = Outside a 0 0 × Outside a (lowest 0xff00) (highest 0xffff)

-- Outside the blocks for a host, a private network and a link: RFC 1122, 1918, 3927, 4193, 4291.
abbrev pub IsGlobal : Ip → Type 0
IsGlobal (v4 a) =
    Outside a (dotted 127 0 0 0) (dotted 127 255 255 255)
    × Outside a (dotted 10 0 0 0) (dotted 10 255 255 255)
    × Outside a (dotted 172 16 0 0) (dotted 172 31 255 255)
    × Outside a (dotted 192 168 0 0) (dotted 192 168 255 255)
    × Outside a (dotted 169 254 0 0) (dotted 169 254 255 255)
IsGlobal (v6 a) =
    Outside a 1 1
    × Outside a (lowest 0xfc00) (highest 0xfdff)
    × Outside a (lowest 0xfe80) (highest 0xfebf)

-- A destination that a relay may reach: by its address alone, and where local ones are refused.
abbrev pub IsAllowed : Bool → Ip → Type 0
IsAllowed true ip = IsUnicast ip
IsAllowed false ip = IsUnicast ip × IsGlobal ip

is_disallowed-IsAllowed :
    (allow : Bool) (ip : Ip) → is_disallowed allow ip ≡ false → IsAllowed allow ip
is_disallowed-IsAllowed true (v4 a) h = (ground (arith, h), ground (arith, h))
is_disallowed-IsAllowed true (v6 a) h = (ground (arith, h), ground (arith, h))
is_disallowed-IsAllowed false (v4 a) h = (
  (ground (arith, h), ground (arith, h)),
  (ground (arith, h), ground (arith, h), ground (arith, h), ground (arith, h), ground (arith, h)),
)
is_disallowed-IsAllowed false (v6 a) h = (
  (ground (arith, h), ground (arith, h)),
  (ground (arith, h), ground (arith, h), ground (arith, h)),
)

ok-injective : {A : Type 0} {a b : A} → ◌≡◌ {A = Result RelayError A} (ok a) (ok b) → a ≡ b
ok-injective e = cc

validated-eq-ok :
    (allow : Bool) (ips out : List Ip)
    → validated allow ips ≡ ok out
    → (out ≡ ips) × All (IsAllowed allow) out
unfolding validated
validated-eq-ok allow [] out e =
    let nothing : [] ≡ out = ok-injective e in
    (sym nothing, subst (All (IsAllowed allow)) nothing tt)
validated-eq-ok allow (ip ∷ ips) out e =
    let (u, passed, e') = >>=-eq-ok (fail_if (is_disallowed allow ip) disallowed_address) _ e in
    let (rest, checked, e'') = >>=-eq-ok (validated allow ips) _ e' in
    let (same, all) = validated-eq-ok allow ips rest checked in
    let whole : ip ∷ rest ≡ out = ok-injective e'' in
    (
      sym whole ∙ ap (λ l. ip ∷ l) same,
      subst (All (IsAllowed allow)) whole (
        is_disallowed-IsAllowed allow ip
            (fail_if-eq-ok (is_disallowed allow ip) disallowed_address passed),
        all,
      ),
    )

-- Where the guard succeeds, the addresses that it hands out for pinning are all those that the host resolves
-- to, at least one. None is the unspecified address or in the multicast block; and where loopback is not
-- allowed, none is in a loopback, private or link-local block, in its own family (IPv4 or IPv6).
pub resolve_guard-IsAllowed :
    (x : External) (parsed : Url) (allow : Bool) (ips : List Ip)
    → resolve_guard x parsed allow ≡ ok ips
    → (host : List ℕ) × (port : ℕ) × (parsed.host ≡ some host)
      × (parsed.port ≡ some port)
      × (x.to_socket_addrs host port ≡ some ips)
      × (ips ≢ [])
      × All (IsAllowed allow) ips
unfolding resolve_guard
resolve_guard-IsAllowed x parsed allow ips e =
    let (host, h, e₁) = >>=-eq-ok (ok_or parsed.host no_host) _ e in
    let (port, p, e₂) = >>=-eq-ok (ok_or parsed.port no_port) _ e₁ in
    let (addrs, a, e₃) = >>=-eq-ok (ok_or (x.to_socket_addrs host port) not_resolved) _ e₂ in
    let (out, v, e₄) = >>=-eq-ok (validated allow addrs) _ e₃ in
    let (u, some_left, e₅) = >>=-eq-ok (fail_if (is_empty out) not_resolved) _ e₄ in
    let same : out ≡ ips = ok-injective e₅ in
    let (all_of, all) = validated-eq-ok allow addrs out v in
    (
      host,
      port,
      ok_or-eq-ok parsed.host no_host h,
      ok_or-eq-ok parsed.port no_port p,
      ok_or-eq-ok (x.to_socket_addrs host port) not_resolved a ∙ ap some (sym all_of ∙ same),
      λ empty. absurd (cc (fail_if-eq-ok (is_empty out) not_resolved some_left, same ∙ empty)),
      rw (sym same) all,
    )

-- The IPv6 form of an IPv4 address, ::ffff:a.b.c.d.
abbrev pub mapped : ℕ → Ip
mapped a = v6 (281470681743360 + a)

-- Loopback addresses included, every IPv4 address passes the guard in its IPv6 form, where loopback is not
-- allowed and the host resolves to that form.
pub resolve_guard-mapped :
    (x : External) (parsed : Url) (host : List ℕ) (port a : ℕ)
    → a < 2 ^ 32
    → parsed.host ≡ some host
    → parsed.port ≡ some port
    → x.to_socket_addrs host port ≡ some (mapped a ∷ [])
    → resolve_guard x parsed false ≡ ok (mapped a ∷ [])
unfolding resolve_guard validated
resolve_guard-mapped x parsed host port a small h p s =
    let passes : is_disallowed false (mapped a) ≡ false = ground (arith, small) in
    rw (h, p, s, passes) refl
