-- ===== src/Net/Link/Sent.antt =====
-- What `send` appends to the output, where memory is given.
use geminidb.Prelude.{
  ℕ, zero, suc, ◌+◌, ◌^◌, ◌<◌, ◌≤◌, ◌≡◌, refl, sym, ap, ◌∙◌, Bool, true, false, List, [], ◌∷◌, ◌++◌,
  append_assoc, append-nil, Octets, length, length-append, Bool-cases, inl, inr, arith,
}
use geminidb.Util.Number.RoundTrip.{length-decimal}
use geminidb.Util.Buffer.{
  Buffer, space, incr, grow, reserve, rounds, append, append_record, record_of, grown,
}
use geminidb.Util.Buffer.Room.{Ended, reserve-Ended, reserve-bytes}
use geminidb.Net.Link.{append_records, send, recv, received, max_packet_size}
use geminidb.Net.Link.Packet.{packet_of, records_of, recv-packet_of, length-record_of}

-- The bytes of the block that are taken, those before `data_` included.
abbrev pub used : Buffer → ℕ
used b = b.offset + length b.bytes

module _ (realloc : ℕ → Bool) (given : (n : ℕ) → realloc n ≡ true) where
  reserve-offset : (fuel size : ℕ) (b : Buffer) → (reserve realloc fuel size b).1.offset ≡ b.offset
  unfolding reserve grow
  reserve-offset zero size b = refl
  reserve-offset (suc fuel) size b =
      ground (arith, reserve-offset fuel size (record b { total = grown b.total }))

  -- Room for `size` bytes is made, as long as the block stays below 1 GB.
  reserve-given :
      (size : ℕ) (b : Buffer) → size + used b < 2 ^ 30 → (reserve realloc rounds size b).0 ≡ true
  unfolding grow grown space
  reserve-given size b small =
      let r = reserve realloc rounds size b in
      let bytes : r.1.bytes ≡ b.bytes = reserve-bytes realloc rounds size b in
      let offset : r.1.offset ≡ b.offset = reserve-offset rounds size b in
      elim (Bool-cases r.0) [
        | inl e ↦ e
        | inr e ↦ absurd (refused r (reserve-Ended realloc size b) e (rw (bytes, offset) small))
      ]
    where
      granted :
          (c : Buffer) → space c < size → size + used c < 2 ^ 30 → (grow realloc c).0 ≡ false → ⊥
      granted c h small' e = ground (arith, given (grown c.total))

      refused :
          (r : Bool × Buffer) → Ended realloc size r → r.0 ≡ false → size + used r.1 < 2 ^ 30 → ⊥
      refused (true, c) h e small' = ground arith
      refused (false, c) (h, f) e small' = granted c h small' (ap (λ r. r.0) f)

  append_record_lem :
      (x : Octets) (b : Buffer)
      → 17 + length x + used b < 2 ^ 30
      → ((append_record realloc x b).1.bytes ≡ b.bytes ++ record_of x)
        × ((append_record realloc x b).1.offset ≡ b.offset)
  unfolding append_record incr
  append_record_lem x b small =
      let room : (reserve realloc rounds (16 + length x + 1) b).0 ≡ true =
        reserve-given (16 + length x + 1) b (omega arith) in
      (
        rw (room, reserve-bytes realloc rounds (16 + length x + 1) b) refl,
        rw (room, reserve-offset rounds (16 + length x + 1) b) refl,
      )

  -- the bytes that a response takes at most
  abbrev pub bound : List Octets → ℕ
  bound [] = 1
  bound (x ∷ xs) = 17 + length x + bound xs

  bound-record :
      (x : Octets) (xs : List Octets) (b c : Buffer)
      → c.bytes ≡ b.bytes ++ record_of x
      → c.offset ≡ b.offset
      → bound (x ∷ xs) + used b < 2 ^ 30
      → bound xs + used c < 2 ^ 30
  bound-record x xs b c bytes offset small = omega (
    arith,
    ap length bytes,
    length-append b.bytes (record_of x),
    offset,
    length-record_of x,
    length-decimal 9 (length x) (omega arith),
  )

  append_records_lem :
      (xs : List Octets) (b : Buffer)
      → bound xs + used b < 2 ^ 30
      → ((append_records realloc xs b).bytes ≡ b.bytes ++ records_of xs)
        × (1 + used (append_records realloc xs b) < 2 ^ 30)
  unfolding append_records
  append_records_lem [] b small = (sym (append-nil b.bytes), small)
  append_records_lem (x ∷ xs) b small =
      let c : Buffer = (append_record realloc x b).1 in
      let (bytes, offset) : (c.bytes ≡ b.bytes ++ record_of x) × (c.offset ≡ b.offset) =
        append_record_lem x b (omega arith) in
      let rest : ((append_records realloc xs c).bytes ≡ c.bytes ++ records_of xs)
          × (1 + used (append_records realloc xs c) < 2 ^ 30) =
        append_records_lem xs c (bound-record x xs b c bytes offset small) in
      (
        rest.0
            ∙ ap (λ t. t ++ records_of xs) bytes
            ∙ append_assoc b.bytes (record_of x) (records_of xs),
        rest.1,
      )

  append-bytes :
      (p : Octets) (b : Buffer)
      → length p + used b < 2 ^ 30
      → (append realloc p b).1.bytes ≡ b.bytes ++ p
  unfolding append incr
  append-bytes p b small =
      rw (reserve-given (length p) b small, reserve-bytes realloc rounds (length p) b) refl

  -- `send` of a response that is not empty appends its packet to the output, if memory is given and
  -- the output block stays below 1 GB.
  pub send-bytes :
      (x : Octets) (xs : List Octets) (output : Buffer)
      → bound (x ∷ xs) + used output < 2 ^ 30
      → (send realloc (x ∷ xs) output).1.bytes ≡ output.bytes ++ packet_of (x ∷ xs)
  unfolding send
  send-bytes x xs output small =
      let (bytes, room) = append_records_lem (x ∷ xs) output small in
      append-bytes (b'\n' ∷ []) (append_records realloc (x ∷ xs) output) room
      ∙ ap (λ t. t ++ (b'\n' ∷ [])) bytes
      ∙ append_assoc output.bytes (records_of (x ∷ xs)) (b'\n' ∷ [])

  -- A peer whose input holds what `send` wrote to an empty output, and any bytes behind it,
  -- receives the response and keeps those bytes, if memory is given, the output block stays below 1
  -- GB and the packet is within the size limit.
  pub recv-send :
      (x : Octets) (xs : List Octets) (rest : Octets) (output input : Buffer)
      → output.bytes ≡ []
      → input.bytes ≡ (send realloc (x ∷ xs) output).1.bytes ++ rest
      → bound (x ∷ xs) + used output < 2 ^ 30
      → length (records_of (x ∷ xs)) ≤ max_packet_size
      → ((recv realloc input).0 ≡ received (x ∷ xs)) × ((recv realloc input).1.bytes ≡ rest)
  recv-send x xs rest output input fresh h small fits =
      recv-packet_of realloc x xs rest input
        (h
          ∙ ap (λ t. t ++ rest)
              (send-bytes x xs output small ∙ ap (λ t. t ++ packet_of (x ∷ xs)) fresh))
        fits
