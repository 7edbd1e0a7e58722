-- ===== src/Util/Endian.antt =====
-- The byte swaps `big_endian` at the end of src/util/strings.h.
use Prim.Native.Nat.{bit_and, bit_or}
use geminidb.Prelude.{ℕ, ◌+◌, ◌*◌, ◌/◌, ◌%◌, ◌^◌, ◌<◌, ◌≡◌, refl, ◌∙◌, arith}
use geminidb.Prelude.Bits.{or_disjoint, and_ones, and_above}

-- `(v>>8) | (v<<8)` at `uint16_t`
unfoldable pub big_endian16 : ℕ → ℕ
big_endian16 v = bit_or (v / 2 ^ 8) (v * 2 ^ 8) % 2 ^ 16

-- at `uint32_t`; each `<<` drops what passes 32 bits
unfoldable pub big_endian32 : ℕ → ℕ
big_endian32 v =
    bit_or
      (bit_or (bit_or (v / 2 ^ 24) (bit_and (v / 2 ^ 8) 0xff00))
        (bit_and (v * 2 ^ 8 % 2 ^ 32) 0xff0000))
      (v * 2 ^ 24 % 2 ^ 32)

-- at `uint64_t`; `h` and `l` are `uint32_t`
unfoldable pub big_endian64 : ℕ → ℕ
big_endian64 v =
    let h = v / 2 ^ 32 % 2 ^ 32 in
    let l = bit_and v 0xffffffff % 2 ^ 32 in
    bit_or (big_endian32 h) (big_endian32 l * 2 ^ 32 % 2 ^ 64)

swap : big_endian64 0x0102030405060708 ≡ 0x0807060504030201
unfolding big_endian64 big_endian32
swap = refl

-- The bytes of a word, the lowest first, put together in the other order.
swapped32 : ℕ → ℕ
swapped32 v =
    v / 2 ^ 24 % 256 + v / 2 ^ 16 % 256 * 2 ^ 8 + v / 2 ^ 8 % 256 * 2 ^ 16 + v % 256 * 2 ^ 24

masked_low : (x : ℕ) → bit_and x 0xff00 ≡ x / 256 % 256 * 2 ^ 8
masked_low x = rw (and_above x 0xff, and_ones 8 (x / 256))

masked_high : (x : ℕ) → bit_and x 0xff0000 ≡ x / 256 / 256 % 256 * 2 ^ 16
masked_high x = rw (and_above x 0xff00, masked_low (x / 256)) (omega arith)

or_bytes :
    (a b c d : ℕ)
    → a < 256
    → b < 256
    → c < 256
    → bit_or (bit_or (bit_or a (b * 2 ^ 8)) (c * 2 ^ 16)) (d * 2 ^ 24)
      ≡ a + b * 2 ^ 8 + c * 2 ^ 16 + d * 2 ^ 24
or_bytes a b c d ha hb hc = rw (
  or_disjoint 8 a b ha,
  or_disjoint 16 (a + b * 2 ^ 8) c (omega arith),
  or_disjoint 24 (a + b * 2 ^ 8 + c * 2 ^ 16) d (omega arith),
)

big_endian32-swapped32 : (v : ℕ) → v < 2 ^ 32 → big_endian32 v ≡ swapped32 v
unfolding big_endian32 swapped32
big_endian32-swapped32 v h =
    let top : v * 2 ^ 24 % 2 ^ 32 ≡ v % 256 * 2 ^ 24 = omega arith in
    let second : v / 2 ^ 24 ≡ v / 2 ^ 24 % 256 = omega arith in
    let third : v * 2 ^ 8 % 2 ^ 32 / 256 / 256 % 256 ≡ v / 2 ^ 8 % 256 = omega arith in
    let fourth : v / 2 ^ 8 / 256 % 256 ≡ v / 2 ^ 16 % 256 = omega arith in
    rw (masked_low (v / 2 ^ 8), masked_high (v * 2 ^ 8 % 2 ^ 32), top, third, fourth)
      (or_bytes (v / 2 ^ 24) (v / 2 ^ 16 % 256) (v / 2 ^ 8 % 256) (v % 256) (omega arith)
          (omega arith) (omega arith)
        ∙ omega arith)

swapped32-lt : (v : ℕ) → swapped32 v < 2 ^ 32
unfolding swapped32
swapped32-lt v = omega arith

big_endian64-swapped32 :
    (v : ℕ) → v < 2 ^ 64 → big_endian64 v ≡ swapped32 (v / 2 ^ 32) + swapped32 (v % 2 ^ 32) * 2 ^ 32
unfolding big_endian64
big_endian64-swapped32 v h =
    let high : v / 2 ^ 32 % 2 ^ 32 ≡ v / 2 ^ 32 = omega arith in
    let low : v % 2 ^ 32 % 2 ^ 32 ≡ v % 2 ^ 32 = omega arith in
    let fits : swapped32 (v % 2 ^ 32) * 2 ^ 32 % 2 ^ 64 ≡ swapped32 (v % 2 ^ 32) * 2 ^ 32 =
      omega (arith, swapped32-lt (v % 2 ^ 32)) in
    rw
      (
        and_ones 32 v,
        high,
        low,
        big_endian32-swapped32 (v / 2 ^ 32) (omega arith),
        big_endian32-swapped32 (v % 2 ^ 32) (omega arith),
        fits,
      )
      (or_disjoint 32 _ (swapped32 (v % 2 ^ 32)) (swapped32-lt (v / 2 ^ 32)))

pub big_endian64-lt : (v : ℕ) → v < 2 ^ 64 → big_endian64 v < 2 ^ 64
big_endian64-lt v h =
    omega (arith, big_endian64-swapped32 v h, swapped32-lt (v / 2 ^ 32), swapped32-lt (v % 2 ^ 32))

swapped32_twice : (v : ℕ) → v < 2 ^ 32 → swapped32 (swapped32 v) ≡ v
unfolding swapped32
swapped32_twice v h = omega arith

-- Swapping the bytes of a 64-bit number twice gives it back.
pub big_endian64_twice : (v : ℕ) → v < 2 ^ 64 → big_endian64 (big_endian64 v) ≡ v
big_endian64_twice v h =
    let w = swapped32 (v / 2 ^ 32) + swapped32 (v % 2 ^ 32) * 2 ^ 32 in
    let upper : w / 2 ^ 32 ≡ swapped32 (v % 2 ^ 32) = omega (arith, swapped32-lt (v / 2 ^ 32)) in
    let lower : w % 2 ^ 32 ≡ swapped32 (v / 2 ^ 32) = omega (arith, swapped32-lt (v / 2 ^ 32)) in
    let fits : w < 2 ^ 64 = omega (arith, swapped32-lt (v / 2 ^ 32), swapped32-lt (v % 2 ^ 32)) in
    rw (big_endian64-swapped32 v h, big_endian64-swapped32 w fits, upper, lower)
      (omega (
        arith,
        swapped32_twice (v / 2 ^ 32) (omega arith),
        swapped32_twice (v % 2 ^ 32) (omega arith),
      ))
