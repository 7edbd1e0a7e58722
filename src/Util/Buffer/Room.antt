-- ===== src/Util/Buffer/Room.antt =====
-- The loop that makes room in a buffer ends, and what it leaves.
use geminidb.Prelude.{
  subst, ℕ, zero, suc, ◌+◌, ◌-◌, ◌*◌, ◌^◌, ◌<◌, ◌≤◌, ◌≡◌, refl, Bool, true, false, ◌++◌, Octets,
  length, ltb, leb, ◌&&◌, Bool-cases, inl, inr, arith,
}
use native.Mathlib.Nat.{pow-suc}
use geminidb.Util.Buffer.{
  Buffer, space, incr, grown, grow, reserve, rounds, append_record, record_of,
}

-- The loop has ended: there is room, or there is none and `grow` has refused.
abbrev pub Ended : (ℕ → Bool) → ℕ → Bool × Buffer → Type 0
Ended realloc size (true, b) = size ≤ space b
Ended realloc size (false, b) = (space b < size) × (grow realloc b ≡ (false, b))

scaled : (t n p : ℕ) → t * 2 ≤ n → t * (p * 2) ≤ n * p
scaled t n p h =
    let e : t * 2 + (n - t * 2) ≡ n = omega arith in
    subst (λ m. t * (p * 2) ≤ m * p) e (omega arith)

module _ (realloc : ℕ → Bool) where
  reserve-Ended-suc :
      (fuel size : ℕ) (b : Buffer)
      → Ended realloc size (reserve realloc fuel size (record b { total = grown b.total }))
      → Ended realloc size (reserve realloc (suc fuel) size b)
  unfolding reserve grow
  reserve-Ended-suc fuel size b h = elim (Bool-cases (leb size (space b))) [
    | inl e ↦ rw e (ground arith)
    | inr e ↦ elim (Bool-cases (ltb (grown b.total) (2 ^ 31) && realloc (grown b.total))) [
      | inl f ↦ rw e (rw f h)
      | inr f ↦ rw e (rw f (ground arith, rw f refl))
    ]
  ]

  -- A size of 8 KB and more doubles in a round, until it is refused.
  reserve-Ended_within :
      (fuel size : ℕ) (b : Buffer)
      → 2 ^ 13 ≤ b.total
      → 2 ^ 31 ≤ b.total * 2 ^ fuel
      → Ended realloc size (reserve realloc fuel size b)
  unfolding reserve grow grown
  reserve-Ended_within zero size b large h = elim (Bool-cases (leb size (space b))) [
    | inl e ↦ rw e (ground arith)
    | inr e ↦ rw e (ground arith)
  ]
  reserve-Ended_within (suc fuel) size b large h =
      let n = grown b.total in
      let rest : 2 ^ 31 ≤ n * 2 ^ fuel
          → Ended realloc size (reserve realloc fuel size (record b { total = n })) =
        reserve-Ended_within fuel size (record b { total = n }) (ground arith) in
      let doubled : b.total * (2 ^ fuel * 2) ≤ n * 2 ^ fuel =
        scaled b.total n (2 ^ fuel) (ground arith) in
      let enough : 2 ^ 31 ≤ n * 2 ^ fuel =
        omega (arith, subst (λ p. 2 ^ 31 ≤ b.total * p) (pow-suc 2 fuel) h) in
      reserve-Ended-suc fuel size b (rest enough)

  -- The loop that makes room in a buffer ends within 32 rounds: then there is room for the bytes,
  -- or there is none and `grow` has refused.
  pub reserve-Ended : (size : ℕ) (b : Buffer) → Ended realloc size (reserve realloc rounds size b)
  unfolding reserve grow grown
  reserve-Ended size b = elim (Bool-cases (ltb b.total (8 * 1024))) [
    | inl small ↦ reserve-Ended-suc 31 size b (
        reserve-Ended_within 31 size (record b { total = grown b.total }) (ground arith)
          (ground arith))
    | inr large ↦ reserve-Ended_within rounds size b (ground arith) (ground arith)
  ]

  -- Room is made without a change to the bytes.
  pub reserve-bytes : (fuel size : ℕ) (b : Buffer) → (reserve realloc fuel size b).1.bytes ≡ b.bytes
  unfolding reserve grow
  reserve-bytes zero size b = refl
  reserve-bytes (suc fuel) size b =
      ground (arith, reserve-bytes fuel size (record b { total = grown b.total }))

  pub append_record-bytes :
      (s : Octets) (b : Buffer)
      → (reserve realloc rounds (16 + length s + 1) b).0 ≡ true
      → (append_record realloc s b).1.bytes ≡ b.bytes ++ record_of s
  unfolding append_record incr
  append_record-bytes s b h = rw h (rw (reserve-bytes rounds (16 + length s + 1) b) refl)
