-- ===== src/Relay/Client/Downloads.antt =====
-- ghostbro-client/src/main.rs, ghostbro-server/src/relay.rs: the chunks of a download make the object.
use ghostbro.Base.{
  ℕ, zero, suc, ◌+◌, ◌*◌, ◌-◌, ◌%◌, ◌^◌, ◌≤◌, ◌<◌, min, ◌≡◌, refl, sym, ap, ◌∙◌, subst, some, Bool,
  List, [], ◌∷◌, ◌++◌, true, false, not, ◌&&◌, length, take, drop, arith, take-append, drop-append,
  length-append, length-take, length-drop, le→ltb, leb, nat_beq, take_all, inl, inr, Bool-cases,
  if◌then◌else◌, bytes_eq,
}
use ghostbro.Base.Bytes.{to_be_bytes, from_be_bytes-to_be_bytes, length-to_be_bytes}
use ghostbro.Base.Dict.{lookup}
use ghostbro.Base.Result.{Result, ok}
use mathlib.Core.List.{append_assoc}
use ghostbro.Relay.{External, RelayConfig, RelayError}
use ghostbro.Relay.Wire.{op_download}
use ghostbro.Relay.Store.{
  Relay, client_dir, RelayJobMetadata, complete, validate_job_id, download_slice, download_object,
  download_job,
}
use ghostbro.Relay.Store.Files.{validate_job_id-IsPlain, read_metadata-own, read_object-primary}
use ghostbro.Relay.Dispatch.{download, dispatch_op, dispatch_request, respond}
use ghostbro.Relay.Client.{
  ClientError, relay_request, download_request, parse_slice, parse_relay_download_response,
  take_chunk, relay_download,
}
use ghostbro.Relay.Client.Requests.{
  pushed, relay_push_string-pushed, read_string-pushed, read_u16-to_be_bytes, read_u32-to_be_bytes,
}

-- What a slice of 8192 bytes from an offset holds.
abbrev chunk_at : List ℕ → ℕ → List ℕ
chunk_at body offset = take (min (length body) (offset + 8192) - offset) (drop offset body)

slice-parsed :
    (terminal total : ℕ) (chunk : List ℕ)
    → total < 2 ^ 32
    → length chunk < 2 ^ 32
    → parse_slice (terminal ∷ (to_be_bytes 4 total ++ (to_be_bytes 4 (length chunk) ++ chunk)))
      ≡ ok (not (nat_beq terminal 0), total, chunk)
unfolding parse_slice
slice-parsed terminal total chunk ht hc =
    let t : List ℕ = to_be_bytes 4 total in
    let n : List ℕ = to_be_bytes 4 (length chunk) in
    let rest : List ℕ = t ++ (n ++ chunk) in
    let lt : length t ≡ 4 = length-to_be_bytes 4 total in
    let ln : length n ≡ 4 = length-to_be_bytes 4 (length chunk) in
    let size : length rest ≡ 8 + length chunk =
      omega (arith, lt, ln, length-append t (n ++ chunk), length-append n chunk) in
    let back : drop 8 rest ≡ chunk =
      ap (drop 8) (sym (append_assoc t n chunk))
      ∙ drop-append 8 (t ++ n) chunk (omega (arith, lt, ln, length-append t n)) in
    let same : nat_beq (8 + length chunk) (8 + length chunk) ≡ true = ground arith in
    rw
      (
        size,
        le→ltb (8 + length chunk) 8 (omega arith),
        drop-append 4 t (n ++ chunk) lt,
        take-append 4 n chunk ln,
        from_be_bytes-to_be_bytes 4 (length chunk) hc,
        same,
        take-append 4 t (n ++ chunk) lt,
        from_be_bytes-to_be_bytes 4 total ht,
        back,
      )
      refl

take_nil : (n : ℕ) → take {A = ℕ} n [] ≡ []
take_nil zero = refl
take_nil (suc n) = refl

take-add : (n k : ℕ) (xs : List ℕ) → take n xs ++ take k (drop n xs) ≡ take (n + k) xs
take-add zero k xs = let e : zero + k ≡ k = omega arith in rw e refl
take-add (suc n) k [] = take_nil k ∙ sym (take_nil (suc n + k))
take-add (suc n) k (x ∷ xs) =
    let e : suc n + k ≡ suc (n + k) = omega arith in rw e (ap (◌∷◌ x) (take-add n k xs))

-- Whether a slice from an offset is the last.
abbrev is_last : List ℕ → ℕ → Bool
is_last body offset = leb (length body) (min (length body) (offset + 8192))

length-chunk_at :
    (body : List ℕ) (offset : ℕ)
    → offset ≤ length body
    → length (chunk_at body offset) ≡ min (length body) (offset + 8192) - offset
length-chunk_at body offset h = omega (
  arith,
  length-take (min (length body) (offset + 8192) - offset) (drop offset body),
  length-drop offset body,
)

flag : (b : Bool) → not (nat_beq (if b then 1 else 0) 0) ≡ b
flag true = refl
flag false = refl

download_slice-parsed :
    (body : List ℕ) (offset : ℕ)
    → length body < 2 ^ 32
    → offset ≤ length body
    → parse_relay_download_response (download_slice body offset 8192)
      ≡ ok (is_last body offset, length body, chunk_at body offset)
unfolding download_slice parse_relay_download_response
download_slice-parsed body offset small h =
    let start : min offset (length body) ≡ offset = omega (arith, h) in
    let n : length (chunk_at body offset) ≡ min (length body) (offset + 8192) - offset =
      length-chunk_at body offset h in
    let whole : length body % 2 ^ 32 ≡ length body = omega (arith, small) in
    let part : (min (length body) (offset + 8192) - offset) % 2 ^ 32
        ≡ length (chunk_at body offset) =
      omega (arith, small, n) in
    let last : ℕ = if is_last body offset then 1 else 0 in
    let parsed =
      slice-parsed last (length body) (chunk_at body offset) small (omega (arith, small, n)) in
    rw (start, whole, part, parsed, flag (is_last body offset)) refl

-- A job that a client may download: complete and not expired, with its object.
pub record Downloadable (x : External) (client : List ℕ) (now : ℕ) (r : Relay)
    (job_id body : List ℕ) : Type 0 where
  pub metadata : RelayJobMetadata
  pub short : length job_id ≤ 128
  pub utf8 : x.is_utf8 job_id ≡ true
  pub valid : validate_job_id job_id ≡ ok tt
  pub found : lookup job_id (client_dir client r).jobs ≡ some metadata
  pub live : leb metadata.expires_at_ms now ≡ false
  pub finished : metadata.status ≡ complete
  pub object : lookup job_id (client_dir client r).bodies ≡ some body
  pub small : length body < 2 ^ 32

-- A round of the loop, by what the client makes of the answer.
relay_download-step :
    (exchange : List ℕ → List ℕ) (fuel offset next : ℕ) (job_id got got' request : List ℕ)
    (last : Bool)
    → download_request job_id offset 0 ≡ ok request
    → take_chunk (exchange request) offset got ≡ ok (last, next, got')
    → relay_download exchange (suc fuel) job_id 0 offset got
      ≡ (if last then some (ok got') else relay_download exchange fuel job_id 0 next got')
unfolding relay_download
relay_download-step exchange fuel offset next job_id got got' request true asked answered =
    simp (asked, answered, relay_download)
relay_download-step exchange fuel offset next job_id got got' request false asked answered =
    simp (asked, answered, relay_download)

ok-injective : {A : Type 0} {a b : A} → ◌≡◌ {A = Result ClientError A} (ok a) (ok b) → a ≡ b
ok-injective e = cc

module _ (x : External) (config : RelayConfig) (key_id client : List ℕ) (now : ℕ) (r : Relay) where
  abbrev answer_to : List ℕ → List ℕ
  answer_to request = (respond x config key_id client now request r).0

  module _ (job_id body : List ℕ) (d : Downloadable x client now r job_id body) where
    download_job-slice :
        (offset : ℕ)
        → download_job x config client job_id offset 8192 0 now r
          ≡ ok (download_slice body offset 8192)
    unfolding download_job download_object
    download_job-slice offset =
        let plain = validate_job_id-IsPlain job_id d.valid in
        simp (
          read_metadata-own config.spool_dir client job_id plain r,
          read_object-primary config.spool_dir client job_id plain r,
          d.found,
          d.live,
          d.finished,
          d.object,
          download_job,
          download_object,
        )

    download-slice :
        (offset : ℕ)
        → offset < 2 ^ 32
        → download x config key_id client now
            (pushed job_id ++ (to_be_bytes 4 offset ++ (to_be_bytes 2 8192 ++ 0 ∷ [])))
            r
          ≡ ok (download_slice body offset 8192, r)
    unfolding download
    download-slice offset small =
        let tail : List ℕ = to_be_bytes 4 offset ++ (to_be_bytes 2 8192 ++ 0 ∷ []) in
        rw
          (
            read_string-pushed x 128 job_id tail d.short (omega arith) d.utf8,
            d.valid,
            read_u32-to_be_bytes offset (to_be_bytes 2 8192 ++ 0 ∷ []) small,
            read_u16-to_be_bytes 8192 (0 ∷ []) (omega arith),
            download_job-slice offset,
          )
          refl

    dispatched :
        (cursor : List ℕ) {answer : Result RelayError (List ℕ × Relay)}
        → download x config key_id client now cursor r ≡ answer
        → dispatch_request x config key_id client now (relay_request op_download ++ cursor) r
          ≡ answer
    unfolding dispatch_request dispatch_op
    dispatched cursor e = e

    -- The server answers a request of the loop with the slice that it asks for.
    answer-slice :
        (offset : ℕ) (request : List ℕ)
        → offset < 2 ^ 32
        → download_request job_id offset 0 ≡ ok request
        → answer_to request ≡ download_slice body offset 8192
    unfolding download_request respond
    answer-slice offset request small q =
        let tail : List ℕ = to_be_bytes 4 offset ++ (to_be_bytes 2 8192 ++ 0 ∷ []) in
        let fits : length job_id ≤ 65535 = omega (arith, d.short) in
        let sent : relay_request op_download ++ (pushed job_id ++ tail) ≡ request =
          ok-injective
            (rw (relay_push_string-pushed (relay_request op_download) job_id fits) at q) in
        subst (λ q. answer_to q ≡ download_slice body offset 8192) sent
          (simp
            (dispatched (pushed job_id ++ tail) (download-slice offset small), answer_to, respond))

    -- The client's side of a round: the chunk goes behind what it has.
    round :
        (offset : ℕ)
        → offset ≤ length body
        → let stop = min (length body) (offset + 8192) in
          take_chunk (download_slice body offset 8192) offset (take offset body)
          ≡ ok (is_last body offset, stop, take stop body)
    unfolding take_chunk
    round offset h =
        let stop : ℕ = min (length body) (offset + 8192) in
        let size = length-chunk_at body offset h in
        let joined : take offset body ++ chunk_at body offset ≡ take stop body =
          take-add offset (stop - offset) body ∙ ap (λ n. take n body) (omega (arith, h)) in
        let next : (offset + length (chunk_at body offset)) % 2 ^ 32 ≡ stop =
          omega (arith, d.small, size, h) in
        let whole : (is_last body offset && not (nat_beq (length (take stop body)) (length body)))
            ≡ false =
          ground (arith, length-take stop body) in
        rw (download_slice-parsed body offset d.small h, joined, next, whole) refl

    asked-request :
        (offset : ℕ)
        → download_request job_id offset 0
          ≡ ok (
              relay_request op_download
              ++ (pushed job_id ++ (to_be_bytes 4 offset ++ (to_be_bytes 2 8192 ++ 0 ∷ []))))
    unfolding download_request
    asked-request offset =
        rw (relay_push_string-pushed (relay_request op_download) job_id (omega (arith, d.short)))
          refl

    rounds :
        (fuel offset : ℕ)
        → 0 < fuel
        → offset ≤ length body
        → length body ≤ offset + fuel * 8192
        → relay_download answer_to fuel job_id 0 offset (take offset body) ≡ some (ok body)
    unfolding relay_download
    rounds zero offset pos h enough = absurd (omega (arith, pos))
    rounds (suc fuel) offset pos h enough =
        let stop : ℕ = min (length body) (offset + 8192) in
        let tail : List ℕ = to_be_bytes 4 offset ++ (to_be_bytes 2 8192 ++ 0 ∷ []) in
        let request : List ℕ = relay_request op_download ++ (pushed job_id ++ tail) in
        let asked = asked-request offset in
        let answered = answer-slice offset request (omega (arith, h, d.small)) asked in
        relay_download-step answer_to fuel offset stop job_id (take offset body) (take stop body)
          request (is_last body offset) asked
          (ap (λ response. take_chunk response offset (take offset body)) answered ∙ round offset h)
        ∙ elim (Bool-cases (is_last body offset)) [
          | inl last ↦
              let all : take stop body ≡ body = take_all stop body (ground (arith, last)) in
              rw (last, all) refl
          | inr more ↦
              let left : stop ≡ offset + 8192 = ground (arith, more) in
              rw more (
                rounds fuel stop (ground (arith, more, enough)) (omega arith)
                  (omega (arith, left, enough)))
        ]

  -- A job that is complete and not expired, with an object of less than 2^32 bytes: the client's loop, asking
  -- this server, ends with exactly the object, after at most as many rounds as the object has blocks of 8192
  -- bytes, and at least one.
  pub relay_download-object :
      (job_id body : List ℕ) (rounds_left : ℕ)
      → Downloadable x client now r job_id body
      → 0 < rounds_left
      → length body ≤ rounds_left * 8192
      → relay_download
          (λ request. (respond x config key_id client now request r).0)
          rounds_left
          job_id
          0
          0
          []
        ≡ some (ok body)
  relay_download-object job_id body rounds_left d pos enough =
      rounds job_id body d rounds_left 0 pos (omega arith) (omega (arith, enough))
