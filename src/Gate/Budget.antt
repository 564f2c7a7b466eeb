-- ===== src/Gate/Budget.antt =====
-- ghostbro-ebpf/src/main.rs: what the global token bucket bounds, over whole runs of the program.
use ghostbro.Base.{
  ℕ, ◌+◌, ◌*◌, ◌≤◌, ◌<◌, ◌≡◌, inl, inr, refl, Option, none, some, Bool, arith, ltb, if◌then◌else◌,
  List, [], ◌∷◌, ◌∙◌, sym, length,
}
use ghostbro.LruMap.{LruMap}
use ghostbro.Gate.{
  Frame, Helpers, AllowEntry, RateState, State, load_config, ghostbro_xdp, charge, global_limit,
  rate_refill_ns,
}
use ghostbro.Gate.Spending.{spent, refills, Spends, ghostbro_xdp-Spends}

global_limit-le : (configured : ℕ) → global_limit configured ≤ 1_000_000
unfolding global_limit
global_limit-le configured = omega arith

-- What a bucket can still admit while the clock stays in the 60 seconds from `t`: its tokens, and one
-- more filling if it was last filled before.
unfoldable allowance : ℕ → ℕ → Option RateState → ℕ
allowance t limit none = 0
allowance t limit (some slot) = slot.tokens + (if ltb slot.last_ns t then limit else 0)

charge-pays :
    (t now limit : ℕ) (slot : RateState)
    → 0 < t
    → t ≤ now
    → now < t + rate_refill_ns
    → spent (charge (refills now slot) limit now slot).0
        + allowance t limit (some (charge (refills now slot) limit now slot).1)
      ≤ allowance t limit (some slot)
unfolding charge allowance
charge-pays t now limit slot h0 h1 h2 = ground arith

allowance-le :
    (t limit : ℕ) (o : Option RateState)
    → ((slot : RateState) → o ≡ some slot → slot.tokens ≤ limit)
    → allowance t limit o ≤ 2 * limit
unfolding allowance
allowance-le t limit none full = omega arith
allowance-le t limit (some slot) full = ground (arith, full slot refl)

charge-le :
    (refill : Bool) (limit now : ℕ) (slot : RateState)
    → slot.tokens ≤ limit
    → (charge refill limit now slot).1.tokens ≤ limit
unfolding charge
charge-le refill limit now slot h = ground arith

module _ (am : LruMap AllowEntry) (rm : LruMap RateState) where
  -- The program over a sequence of packets, each with what the helpers answer it.
  unfoldable pub run : List (Helpers × Frame) → State am rm → State am rm
  run [] s = s
  run ((h, f) ∷ packets) s = run packets (ghostbro_xdp am rm h f s).1

  abbrev pub Within : ℕ → List (Helpers × Frame) → Type 0
  Within t [] = Unit {0}
  Within t ((h, f) ∷ packets) =
      (t ≤ h.now_global) × (h.now_global < t + rate_refill_ns) × Within t packets

  abbrev limit_of : State am rm → ℕ
  limit_of s = global_limit (load_config am rm s).rate_limit_per_minute

  limit-same : (s s' : State am rm) → s'.config ≡ s.config → limit_of s' ≡ limit_of s
  unfolding load_config
  limit-same s s' e = rw e

  spend-pays :
      (t : ℕ) (h : Helpers) (s s' : State am rm)
      → 0 < t
      → t ≤ h.now_global
      → h.now_global < t + rate_refill_ns
      → Spends am rm h s s'
      → length s'.ring + allowance t (limit_of s') s'.global
        ≤ length s.ring + allowance t (limit_of s) s.global
  unfolding load_config
  spend-pays t h s s' h0 h1 h2 (config, inl (global, ring)) =
      rw (limit-same s s' config, global, ring) (omega arith)
  spend-pays t h s s' h0 h1 h2 (config, inr (slot, from, to, ring)) =
      let pays = charge-pays t h.now_global (limit_of s) slot h0 h1 h2 in
      rw (limit-same s s' config, from, to) (omega (arith, ring, pays))

  run-pays :
      (t : ℕ) (packets : List (Helpers × Frame)) (s : State am rm)
      → 0 < t
      → Within t packets
      → length (run packets s).ring ≤ length s.ring + allowance t (limit_of s) s.global
  unfolding run
  run-pays t [] s h0 all = omega arith
  run-pays t ((h, f) ∷ packets) s h0 (h1, h2, rest) =
      let s' = (ghostbro_xdp am rm h f s).1 in
      let pays = spend-pays t h s s' h0 h1 h2 (ghostbro_xdp-Spends am rm h f s) in
      omega (arith, run-pays t packets s' h0 rest, pays)

  -- The bucket never holds more than the limit.
  abbrev IsFilled : ℕ → State am rm → Type 0
  IsFilled limit s =
      (limit_of s ≡ limit) × ((slot : RateState) → s.global ≡ some slot → slot.tokens ≤ limit)

  spend-IsFilled :
      (limit : ℕ) (h : Helpers) (s s' : State am rm)
      → Spends am rm h s s'
      → IsFilled limit s
      → IsFilled limit s'
  spend-IsFilled limit h s s' (config, inl (global, ring)) (same, full) =
      (limit-same s s' config ∙ same, λ slot e. full slot (sym global ∙ e))
  spend-IsFilled limit h s s' (config, inr (slot, from, to, ring)) (same, full) = (
    limit-same s s' config ∙ same,
    λ slot' e.
        let charged : slot'
            ≡ (charge (refills h.now_global slot) (limit_of s) h.now_global slot).1 =
          cc in
        rw (charged, same)
          (charge-le (refills h.now_global slot) limit h.now_global slot (full slot from)),
  )

  run-IsFilled :
      (limit : ℕ) (packets : List (Helpers × Frame)) (s : State am rm)
      → IsFilled limit s
      → IsFilled limit (run packets s)
  unfolding run
  run-IsFilled limit [] s filled = filled
  run-IsFilled limit ((h, f) ∷ packets) s filled =
      run-IsFilled limit packets (ghostbro_xdp am rm h f s).1 (
        spend-IsFilled limit h s (ghostbro_xdp am rm h f s).1 (ghostbro_xdp-Spends am rm h f s)
          filled)

  -- From the start of the program, whatever packets came earlier, and with the packets handled
  -- one after another: those that come in 60 seconds from a time after zero, from any number of
  -- senders, add at most twice the global limit, and at most two million, to the events of the
  -- ring.
  pub burst_bounded :
      (t : ℕ) (earlier burst : List (Helpers × Frame)) (s : State am rm)
      → s.global ≡ some (record { tokens = 0; last_ns = 0 })
      → 0 < t
      → Within t burst
      → (length (run burst (run earlier s)).ring
          ≤ length (run earlier s).ring
            + 2 * global_limit (load_config am rm s).rate_limit_per_minute)
        × (2 * global_limit (load_config am rm s).rate_limit_per_minute ≤ 2_000_000)
  burst_bounded t earlier burst s fresh h0 all =
      let limit = limit_of s in
      let empty : (slot : RateState) → s.global ≡ some slot → slot.tokens ≤ limit =
        λ slot e. ground (arith, e, fresh) in
      let (same, full) = run-IsFilled limit earlier s (refl, empty) in
      let pays = run-pays t burst (run earlier s) h0 all in
      let most = allowance-le t limit (run earlier s).global full in
      let few = global_limit-le (load_config am rm s).rate_limit_per_minute in
      (omega (arith, rw same at pays, most), omega (arith, few))
