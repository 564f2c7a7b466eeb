-- ===== src/Gate/Spending.antt =====
-- ghostbro-ebpf/src/main.rs: how one packet uses the global token bucket and the ring, on every path
-- through the program.
use ghostbro.Base.{
  ℕ, ◌+◌, ◌-◌, ◌≤◌, ◌≡◌, ◌⊎◌, inl, inr, refl, Option, none, some, Bool, true, false, arith, leb,
  if◌then◌else◌, nat_beq, Option-cases, Bool-cases, List, ◌∙◌, ◌||◌, length, length-append,
}
use ghostbro.Base.Maybe.{◌>>=◌}
use ghostbro.LruMap.{LruMap}
use ghostbro.Gate.{
  Frame, Helpers, AllowEntry, RateState, State, Action, load_config, is_allowed, handle_tcp, offer,
  handle_udp, dispatch, try_ghostbro_xdp, ghostbro_xdp, emit_spa_event, charge, global_limit,
  rate_refill_ns, rate_limit_allows, global_rate_limit_allows, is_spa_length,
}

abbrev pub spent : Bool → ℕ
spent b = if b then 1 else 0

abbrev pub refills : ℕ → RateState → Bool
refills now slot = nat_beq slot.last_ns 0 || leb rate_refill_ns (now - slot.last_ns)

length-emit :
    (h : Helpers) (at n src port : ℕ) (ring : List (List ℕ))
    → length (emit_spa_event h at n src port ring) ≤ length ring + 1
unfolding emit_spa_event
length-emit h at n src port ring = grind (arith, length-append)

-- How one packet uses the global bucket: not at all, and the ring is as it was; or it is charged
-- once, and one event at most is written if that succeeds.
module _ (am : LruMap AllowEntry) (rm : LruMap RateState) where
  abbrev pub Charged : Helpers → State am rm → State am rm → Type 0
  Charged h s s' =
      let limit = global_limit (load_config am rm s).rate_limit_per_minute in
      (slot : RateState) × (s.global ≡ some slot)
      × (s'.global ≡ some (charge (refills h.now_global slot) limit h.now_global slot).1)
      × (length s'.ring
          ≤ length s.ring + spent (charge (refills h.now_global slot) limit h.now_global slot).0)

  abbrev pub Spends : Helpers → State am rm → State am rm → Type 0
  Spends h s s' =
      (s'.config ≡ s.config) × (((s'.global ≡ s.global) × (s'.ring ≡ s.ring)) ⊎ Charged h s s')

  rate_limit_allows-keeps :
      (h : Helpers) (src configured : ℕ) (s : State am rm)
      → ((rate_limit_allows am rm h src configured s).1.config ≡ s.config)
        × ((rate_limit_allows am rm h src configured s).1.global ≡ s.global)
        × ((rate_limit_allows am rm h src configured s).1.ring ≡ s.ring)
  unfolding rate_limit_allows
  rate_limit_allows-keeps h src configured s = (refl, refl, refl)

  no_bucket :
      (h : Helpers) (configured : ℕ) (s : State am rm)
      → s.global ≡ none
      → global_rate_limit_allows am rm h configured s ≡ (false, s)
  unfolding global_rate_limit_allows
  no_bucket h configured s absent = simp (absent, global_rate_limit_allows)

  one_bucket :
      (h : Helpers) (configured : ℕ) (s : State am rm) (slot : RateState)
      → s.global ≡ some slot
      → global_rate_limit_allows am rm h configured s ≡ (
        (charge (refills h.now_global slot) (global_limit configured) h.now_global slot).0,
        record s {
          global =
              some
                (charge (refills h.now_global slot) (global_limit configured) h.now_global slot).1;
        },
      )
  unfolding global_rate_limit_allows
  one_bucket h configured s slot present = rw (present, global_rate_limit_allows)

  offer-Spends :
      (h : Helpers) (at n src port : ℕ) (s : State am rm)
      → Spends h s (offer am rm h at n src port (load_config am rm s).rate_limit_per_minute s)
  unfolding offer
  offer-Spends h at n src port s =
      let per_ip = (load_config am rm s).rate_limit_per_minute in
      let s1 = (rate_limit_allows am rm h src per_ip s).1 in
      let (config, global, ring) = rate_limit_allows-keeps h src per_ip s in
      elim (Bool-cases (is_spa_length n)) [
        | inr odd ↦ rw odd (refl, inl (refl, refl))
        | inl fits ↦ elim (Bool-cases (rate_limit_allows am rm h src per_ip s).0) [
          | inr over ↦ rw (fits, over) (config, inl (global, ring))
          | inl within ↦ elim (Option-cases s.global) [
            | inl absent ↦
                rw (fits, within, no_bucket h per_ip s1 (global ∙ absent))
                  (config, inl (global, ring))
            | inr (slot, present) ↦
                elim (Bool-cases
                  (charge (refills h.now_global slot) (global_limit per_ip) h.now_global slot).0) [
                    | inl paid ↦
                        rw (fits, within, one_bucket h per_ip s1 slot (global ∙ present), paid)
                          (
                            config,
                            inr (
                              slot,
                              present,
                              refl,
                              rw (paid, ring) (length-emit h at n src port s.ring),
                            ),
                          )
                    | inr empty ↦
                        rw (fits, within, one_bucket h per_ip s1 slot (global ∙ present), empty)
                          (config, inr (slot, present, refl, rw (empty, ring) (omega arith)))
                  ]
          ]
        ]
      ]

  -- The state that a handler ends in, if it does not fail.
  unfoldable Ends : (State am rm → Type 0) → Option (Action × State am rm) → Type 0
  Ends P none = Unit {0}
  Ends P (some (action, s)) = P s

  Ends-some : (P : State am rm → Type 0) (a : Action) (s : State am rm) → P s → Ends P (some (a, s))
  unfolding Ends
  Ends-some P a s p = p

  Ends->>= :
      {A : Type 0} (P : State am rm → Type 0) (o : Option A)
      → (k : A → Option (Action × State am rm)) → ((a : A) → Ends P (k a))
      → Ends P (o >>= k)
  unfolding Ends
  Ends->>= P none k each = tt
  Ends->>= P (some a) k each = each a

  Ends-if :
      (P : State am rm → Type 0) (b : Bool) (x y : Option (Action × State am rm))
      → Ends P x
      → Ends P y
      → Ends P (if b then x else y)
  unfolding Ends
  Ends-if P true x y p q = p
  Ends-if P false x y p q = q

  Spends-same : (h : Helpers) (s : State am rm) → Spends h s s
  Spends-same h s = (refl, inl (refl, refl))

  is_allowed-Spends :
      (h : Helpers) (src : ℕ) (s : State am rm) → Spends h s (is_allowed am rm h src s).1
  unfolding is_allowed
  is_allowed-Spends h src s = elim (Option-cases (am.get s.allow src)) [
    | inl absent ↦ simp (absent, is_allowed) (refl, inl (refl, refl))
    | inr (entry, present) ↦ elim (Bool-cases (leb entry.expiry_ns h.now_allow)) [
      | inl old ↦ simp (present, is_allowed, old) (refl, inl (refl, refl))
      | inr live ↦ simp (present, is_allowed, live) (refl, inl (refl, refl))
    ]
  ]

  module _ (h : Helpers) (f : Frame) where
    handle_tcp-Spends :
        (at src port : ℕ) (s : State am rm) → Ends (Spends h s) (handle_tcp am rm h f at src port s)
    unfolding handle_tcp
    handle_tcp-Spends at src port s =
        search (Ends-if, Ends->>=, Ends-some, Spends-same, is_allowed-Spends) depth 12

    handle_udp-Spends :
        (at src port : ℕ) (s : State am rm)
        → Ends
            (Spends h s)
            (handle_udp am rm h f at src port (load_config am rm s).rate_limit_per_minute s)
    unfolding handle_udp
    handle_udp-Spends at src port s =
        search (Ends-if, Ends->>=, Ends-some, Spends-same, offer-Spends) depth 14

    try-Spends : (s : State am rm) → Ends (Spends h s) (try_ghostbro_xdp am rm h f s)
    unfolding try_ghostbro_xdp dispatch
    try-Spends s =
        search (Ends-if, Ends->>=, Ends-some, Spends-same, handle_tcp-Spends, handle_udp-Spends)
          depth 14

    pub ghostbro_xdp-Spends : (s : State am rm) → Spends h s (ghostbro_xdp am rm h f s).1
    unfolding ghostbro_xdp Ends
    ghostbro_xdp-Spends s =
        let ends = try-Spends s in
        elim (Option-cases (try_ghostbro_xdp am rm h f s)) [
          | inl failed ↦ rw failed (refl, inl (refl, refl))
          | inr (done, result) ↦ rw result (rw result at ends)
        ]
