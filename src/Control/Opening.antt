-- ===== src/Control/Opening.antt =====
-- ghostbro-server/src/ebpf.rs: who is let into the kernel's map.
use ghostbro.Base.{
  ℕ, ◌≡◌, ◌≢◌, ◌⊎◌, inl, inr, ap, sym, ◌∙◌, some, List, nat_beq, nat_beq_iff, Bool-cases,
  Option-cases,
}
use ghostbro.Base.Bytes.{to_be_bytes}
use ghostbro.Base.Result.{Result-cases}
use ghostbro.Crypto.{Crypto}
use ghostbro.Disk.{FilePath, Faults, Toml}
use ghostbro.Gate.{AllowEntry}
use ghostbro.Keys.{AuthorizedClient}
use ghostbro.LruMap.{LruMap, LruMapLaws}
use ghostbro.Packet.{SpaPacket}
use ghostbro.Verifier.{SpaAccept, verify, accepted}
use ghostbro.Verifier.Authorize.{Authorized}
use ghostbro.Verifier.Counters.{verify_accepts}
use ghostbro.Control.{Control, allow_source, handle_candidate, expiry_after}

accepted_key :
    (a : SpaAccept) (p : SpaPacket) (client : AuthorizedClient)
    → a ≡ accepted p client
    → a.key_id ≡ p.key_id
unfolding accepted
accepted_key a p client h = rw h

accepted_id :
    (a : SpaAccept) (p : SpaPacket) (client : AuthorizedClient)
    → a ≡ accepted p client
    → a.client_id ≡ client.client_id
unfolding accepted
accepted_id a p client h = rw h

module _ (am : LruMap AllowEntry) (laws : LruMapLaws am) where
  -- The entry that an accept writes.
  abbrev entry_for : ℕ → SpaAccept → ℕ → AllowEntry
  entry_for now accept ttl = record {
    expiry_ns = expiry_after now ttl;
    key_id = accept.key_id;
    client_id = accept.client_id;
  }

  allow_source-opens :
      (now src_ip : ℕ) (accept : SpaAccept) (ttl : ℕ) (s : Control am.Store) (ip : ℕ)
      (e : AllowEntry)
      → am.get (allow_source am now src_ip accept ttl s).1.allow_map ip ≡ some e
      → (am.get s.allow_map ip ≡ some e) ⊎ ((ip ≡ src_ip) × (e ≡ entry_for now accept ttl))
  unfolding allow_source
  allow_source-opens now src_ip accept ttl s ip e h =
      let entry = entry_for now accept ttl in
      elim (Option-cases (am.update s.allow_map src_ip entry)) [
        | inl failed ↦ inl (rw (failed, allow_source) at h)
        | inr (written, updated) ↦
            let new : am.get written ip ≡ some e = rw (updated, allow_source) at h in
            elim (Bool-cases (nat_beq src_ip ip)) [
              | inl same ↦
                  let at_ip : src_ip ≡ ip = (nat_beq_iff src_ip ip).0 same in
                  let wrote = laws.get-update_self s.allow_map written src_ip entry updated in
                  inr (sym at_ip, cc (rw at_ip at wrote, new))
              | inr other ↦
                  let apart : src_ip ≢ ip = λ q. absurd (cc (other, (nat_beq_iff src_ip ip).1 q)) in
                  elim (laws.get-update_other s.allow_map written src_ip ip entry updated apart) [
                    | inl kept ↦ inl (sym kept ∙ new)
                    | inr evicted ↦ absurd (cc (evicted, new))
                  ]
            ]
      ]

  module _ (toml : Toml) (temp : FilePath → FilePath) (c : Crypto) where
    -- An address that is in the kernel's map after a candidate was handled was there before with the
    -- same entry, or is the address that the candidate came from, the policy authorizes the payload from
    -- that address at that time, and the entry names the packet's key and ends when the time to live
    -- has run out.
    pub candidate_opens :
        (f : Faults) (now_ms now_ns ttl : ℕ) (payload : List ℕ) (src_ip : ℕ) (s : Control am.Store)
        (ip : ℕ) (e : AllowEntry)
        → am.get
            (handle_candidate am toml temp c f now_ms now_ns ttl payload src_ip s).1.allow_map
            ip
          ≡ some e
        → (am.get s.allow_map ip ≡ some e)
          ⊎ ((ip ≡ src_ip)
              × (p : SpaPacket) × (client : AuthorizedClient) × Authorized c s.verifier payload
                  (to_be_bytes 4 src_ip)
                  now_ms
                  p
                  client
              × (e.key_id ≡ p.key_id)
              × (e.client_id ≡ client.client_id)
              × (e.expiry_ns ≡ expiry_after now_ns ttl))
    unfolding handle_candidate
    candidate_opens f now_ms now_ns ttl payload src_ip s ip e h =
        let out = verify toml temp c f s.verifier s.disk payload (to_be_bytes 4 src_ip) now_ms in
        elim (Result-cases out.0) [
          | inl (refused, result) ↦ inl (rw (result, handle_candidate) at h)
          | inr (accept, result) ↦
              elim (allow_source-opens now_ns src_ip accept ttl
                (record s { verifier = out.1; disk = out.2 }) ip e
                (rw (result, handle_candidate) at h)) [
                  | inl before ↦ inl before
                  | inr (at_source, written) ↦
                      let (p, client, allowed, same, _) =
                        verify_accepts toml temp c f s.verifier s.disk payload
                          (to_be_bytes 4 src_ip) now_ms accept result in
                      inr (
                        at_source,
                        p,
                        client,
                        allowed,
                        ap (λ (x : AllowEntry). x.key_id) written
                            ∙ accepted_key accept p client same,
                        ap (λ (x : AllowEntry). x.client_id) written
                            ∙ accepted_id accept p client same,
                        ap (λ (x : AllowEntry). x.expiry_ns) written,
                      )
                ]
        ]
