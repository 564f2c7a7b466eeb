-- ===== src/Noise/Handler/Admission.antt =====
-- ghostbro-server/src/noise.rs: whom handle_connection serves, and that it gives every slot back.
use ghostbro.Base.{
  ℕ, ◌≡◌, refl, sym, ◌∙◌, List, Option, Bool, true, false, arith, Bool-cases, inl, inr, nat_eq,
}
use ghostbro.Base.Result.{Result, ok, err}
use ghostbro.Control.{AllowedSource}
use ghostbro.Packet.{KeyId}
use ghostbro.Noise.Connection.{Refusal, Socket}
use ghostbro.Noise.Sessions.{acquire_session, count_of}
use ghostbro.Noise.Sessions.Live.{count_of-acquire, count_of-release}
use ghostbro.Base.{suc, ◌-◌, if◌then◌else◌, ◌==◌, ◌&&◌, bytes_eq}
use ghostbro.Control.{Mirror}
use ghostbro.Noise.Stream.{Transport}
use ghostbro.Noise.Handler.{
  PeerIp, Responder, Served, Shared, find_source, authenticate, take_slot, with_slot, admit_source,
  handle_connection,
}

module _ (t : Transport) (snow : Responder t) (relay : KeyId → List ℕ → List ℕ) where
  take_slot-counts :
      (source : AllowedSource) (h : snow.Handshake) (shared : Shared) (c : Socket) (k : KeyId)
      → count_of k (take_slot t snow relay source h shared c).1.sessions
        ≡ count_of k shared.sessions
  unfolding take_slot with_slot
  take_slot-counts source h shared c k =
      let key_id : KeyId = source.entry.key_id in
      let limit : Option ℕ = source.max_concurrent_sessions in
      let (answer, counts) = count_of-acquire key_id k limit shared.sessions in
      elim (Bool-cases (acquire_session shared.sessions key_id limit).0) [
        | inl granted ↦ simp (granted) (
            count_of-release key_id k (acquire_session shared.sessions key_id limit).1
            ∙ given_back key_id k (sym answer ∙ granted) counts)
        | inr refused ↦ simp (refused) (counts ∙ unchanged key_id k (sym answer ∙ refused))
      ]
    where
      given_back :
          (key_id k : KeyId) {granted : Bool} {n m : ℕ}
          → granted ≡ true
          → n ≡ (if key_id == k && granted then suc m else m)
          → (if key_id == k then n - 1 else n) ≡ m
      given_back key_id k g e = ground arith

      unchanged :
          (key_id k : KeyId) {granted : Bool} {m : ℕ}
          → granted ≡ false
          → (if key_id == k && granted then suc m else m) ≡ m
      unchanged key_id k g = ground arith

  admit_source-counts :
      (static_key : List ℕ) (source : AllowedSource) (shared : Shared) (c : Socket) (k : KeyId)
      → count_of k (admit_source t snow relay static_key source shared c).1.sessions
        ≡ count_of k shared.sessions
  unfolding admit_source
  admit_source-counts static_key source shared c k =
      answer (authenticate t snow relay static_key source c)
    where
      answer :
          (out : Result Refusal (snow.Handshake) × Socket)
          → let res : Result Refusal (Served t) × Shared × Socket = elim out.0 [
            | err e ↦ (err e, shared, out.1)
            | ok h ↦ take_slot t snow relay source h shared out.1
          ] in
            count_of k res.1.sessions ≡ count_of k shared.sessions
      answer (err e, c') = refl
      answer (ok h, c') = take_slot-counts source h shared c' k

  -- However a connection ends, refused, failed or served, it leaves no slot behind: the count of every key
  -- is what it was.
  pub handle_connection-counts :
      (peer : PeerIp) (now_ns : ℕ) (static_key : List ℕ) (shared : Shared) (c : Socket) (k : KeyId)
      → let out = handle_connection t snow relay peer now_ns static_key shared c in
        count_of k out.1.sessions ≡ count_of k shared.sessions
  unfolding handle_connection
  handle_connection-counts peer now_ns static_key shared c k =
      answer (find_source peer now_ns shared.sources)
    where
      answer :
          (out : Result Refusal AllowedSource × Mirror)
          → let shared' : Shared = record shared { sources = out.1 } in
            let res : Result Refusal (Served t) × Shared × Socket = elim out.0 [
              | err e ↦ (err e, shared', c)
              | ok source ↦ admit_source t snow relay static_key source shared' c
            ] in
            count_of k res.1.sessions ≡ count_of k shared.sessions
      answer (err e, sources) = refl
      answer (ok source, sources) =
          admit_source-counts static_key source (record shared { sources = sources }) c k
