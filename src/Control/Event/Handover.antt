-- ===== src/Control/Event/Handover.antt =====
-- From the XDP program to the verifier: what the kernel wrote into the ring is what user space handles.
use ghostbro.Base.{
  true, false, ℕ, suc, ◌+◌, ◌/◌, ◌%◌, ◌^◌, ◌≤◌, ◌<◌, ◌≡◌, refl, ap, some, List, [], ◌∷◌, ◌++◌,
  arith, length, drop, length-append, length-drop, take-append, le→ltb, nat_beq, if◌then◌else◌, ltb,
}
use ghostbro.Crypto.{Crypto}
use ghostbro.Disk.{FilePath, Faults, Toml}
use ghostbro.Gate.{AllowEntry, Helpers, emit_spa_event, overwrite, write_u16_ne, write_u32_ne}
use ghostbro.LruMap.{LruMap}
use ghostbro.Control.{Control, handle_candidate}
use ghostbro.Control.Event.{event_size, u16_at, u32_at, parse_spa_event, handle_item}

-- The fixed part of a buffer that is long enough.
record Front (xs : List ℕ) : Type 0 where
  a : ℕ
  b : ℕ
  c : ℕ
  d : ℕ
  e : ℕ
  f : ℕ
  g : ℕ
  h : ℕ
  rest : List ℕ
  parts : xs ≡ a ∷ b ∷ c ∷ d ∷ e ∷ f ∷ g ∷ h ∷ rest

front : (xs : List ℕ) → 8 ≤ length xs → Front xs
front [] n = absurd (omega arith)
front (a ∷ []) n = absurd (omega arith)
front (a ∷ b ∷ []) n = absurd (omega arith)
front (a ∷ b ∷ c ∷ []) n = absurd (omega arith)
front (a ∷ b ∷ c ∷ d ∷ []) n = absurd (omega arith)
front (a ∷ b ∷ c ∷ d ∷ e ∷ []) n = absurd (omega arith)
front (a ∷ b ∷ c ∷ d ∷ e ∷ f ∷ []) n = absurd (omega arith)
front (a ∷ b ∷ c ∷ d ∷ e ∷ f ∷ g ∷ []) n = absurd (omega arith)
front (a ∷ b ∷ c ∷ d ∷ e ∷ f ∷ g ∷ h ∷ rest) n = record {
  a = a;
  b = b;
  c = c;
  d = d;
  e = e;
  f = f;
  g = g;
  h = h;
  rest = rest;
  parts = refl;
}

-- The eight bytes of the header of an event.
abbrev header_of : ℕ → ℕ → ℕ → List ℕ → List ℕ
header_of src port n tail =
    src % 256
    ∷ src / 256 % 256
    ∷ src / 2 ^ 16 % 256
    ∷ src / 2 ^ 24 % 256
    ∷ port % 256
    ∷ port / 256 % 256
    ∷ n % 2 ^ 16 % 256
    ∷ n % 2 ^ 16 / 256 % 256
    ∷ tail

header_written :
    (event : List ℕ) (src port n : ℕ) (x : Front event)
    → write_u16_ne (write_u16_ne (write_u32_ne event 0 src) 4 port) 6 (n % 2 ^ 16)
      ≡ header_of src port n x.rest
header_written event src port n x = rw x.parts

drop_header :
    (src port n m : ℕ) (tail : List ℕ) → drop (8 + m) (header_of src port n tail) ≡ drop m tail
drop_header src port n m tail =
    let s : 8 + m ≡ suc (suc (suc (suc (suc (suc (suc (suc m))))))) = omega arith in rw s

module _ (h : Helpers) (src port n at : ℕ) (event payload : List ℕ) (ring : List (List ℕ))
    (ip : src < 2 ^ 32) (port16 : port < 2 ^ 16) (low : 143 ≤ n) (high : n ≤ 176)
    (reserved : h.reserve ≡ some event) (size : length event ≡ event_size)
    (loaded : h.load_bytes (at % 2 ^ 32) n ≡ some payload) (exact : length payload ≡ n) where
  x : Front event
  x = front event (omega arith)

  abbrev item : List ℕ
  item = header_of src port n (payload ++ drop n x.rest)

  emitted : emit_spa_event h at n src port ring ≡ ring ++ item ∷ []
  unfolding emit_spa_event
  emitted =
      let short : ltb 176 n ≡ false = le→ltb 176 n high in
      let long : ltb n 143 ≡ false = le→ltb n 143 low in
      let copied : (if ltb 176 n then 176 else n) ≡ n = rw short in
      let tail : drop (8 + length payload) (header_of src port n x.rest) ≡ drop n x.rest =
        rw exact (drop_header src port n n x.rest) in
      let item_written : overwrite (header_of src port n x.rest) 8 payload ≡ item =
        ap (λ r. header_of src port n (payload ++ r)) tail in
      simp (copied, long, reserved, loaded, header_written event src port n x, item_written)

  parsed :
      parse_spa_event item
      ≡ some (record {
        src_ip = src;
        src_port = port;
        payload_len = n;
        payload = payload ++ drop n x.rest;
      })
  unfolding parse_spa_event
  parsed =
      let whole : nat_beq (length item) event_size ≡ true =
        let sized : length event ≡ 8 + length x.rest = omega (arith, ap length x.parts) in
        let cut = length-append payload (drop n x.rest) in
        let left = length-drop n x.rest in ground (arith, cut, left, sized, size, exact, high) in
      let ip_back : u32_at item 0 ≡ src = omega (arith, ip) in
      let port_back : u16_at item 4 ≡ port = omega (arith, port16) in
      let len_back : u16_at item 6 ≡ n = omega (arith, high) in
      rw (whole, ip_back, port_back, len_back)

  -- A datagram of 143 to 176 bytes with a 32-bit source and a 16-bit port, for which the ring has room
  -- and whose bytes the kernel can load, when the checks of the port, the mode and the budgets have led to
  -- emit_spa_event: that call writes one event, and user space handles it as a candidate from that source
  -- with exactly those bytes.
  pub handed_over :
      (am : LruMap AllowEntry) (toml : Toml) (temp : FilePath → FilePath) (c : Crypto) (f : Faults)
      (now_ms now_ns ttl : ℕ) (s : Control am.Store)
      → (event' : List ℕ) × (emit_spa_event h at n src port ring ≡ ring ++ event' ∷ [])
        × (handle_item am toml temp c f now_ms now_ns ttl event' s
            ≡ handle_candidate am toml temp c f now_ms now_ns ttl payload src s)
  unfolding handle_item
  handed_over am toml temp c f now_ms now_ns ttl s =
      let short : ltb 176 n ≡ false = le→ltb 176 n high in
      (item, emitted, rw (parsed, handle_item, short, take-append n payload (drop n x.rest) exact))
