-- ===== src/Prelude/Bits.antt =====
-- The bit operations at variables, for words that are cut into bytes.
use Prim.Native.Nat.{
  ℕ, zero, suc, ◌+◌, ◌-◌, ◌*◌, ◌/◌, ◌%◌, ◌^◌, ◌≤◌, ◌<◌, min, max, bit_and, bit_or, digits,
  bit_and-bitwise, bit_or-bitwise,
}
use mathlib.Core.Path.{◌≡◌, refl, ap, ◌∙◌}
use native.Mathlib.Nat.{pow-suc, le_refl, one-le-pow}
use native.Mathlib.Omega.{arith}

-- An operation on binary digits whose result on a number that has run out obeys the law of a digit.
module _ (z : ℕ → ℕ) (f : ℕ → ℕ → ℕ) (ended : (b : ℕ) → z b ≡ z (b / 2) * 2 + f 0 (b % 2)) where
  one_round_more : (fuel x y : ℕ) → x ≤ fuel → digits z f (suc fuel) x y ≡ digits z f fuel x y
  one_round_more zero zero y h = refl
  one_round_more (suc fuel) zero y h = refl
  one_round_more zero (suc x) y h = absurd (omega arith)
  one_round_more (suc fuel) (suc x) y h =
      omega (arith, one_round_more fuel (suc x / 2) (y / 2) (omega arith))

  settled :
      (gap top fuel x y : ℕ)
      → top ≡ gap + fuel
      → x ≤ fuel
      → digits z f top x y ≡ digits z f fuel x y
  settled zero top fuel x y e h =
      let same : top ≡ fuel = omega arith in ap (λ t. digits z f t x y) same
  settled (suc gap) zero fuel x y e h = absurd (omega arith)
  settled (suc gap) (suc top) fuel x y e h =
      one_round_more top x y (omega arith) ∙ settled gap top fuel x y (omega arith) h

  lowest_digit :
      (x y : ℕ) → digits z f x x y ≡ digits z f (x / 2) (x / 2) (y / 2) * 2 + f (x % 2) (y % 2)
  lowest_digit zero y = ended y
  lowest_digit (suc x) y =
      let half = suc x / 2 in
      omega (arith, settled (x - half) x half half (y / 2) (omega arith) (omega arith))

pub and_step : (a b : ℕ) → bit_and a b ≡ bit_and (a / 2) (b / 2) * 2 + min (a % 2) (b % 2)
and_step a b = omega (
  arith,
  bit_and-bitwise a b,
  bit_and-bitwise (a / 2) (b / 2),
  lowest_digit (λ b. zero) min (λ b. omega arith) a b,
)

pub or_step : (a b : ℕ) → bit_or a b ≡ bit_or (a / 2) (b / 2) * 2 + max (a % 2) (b % 2)
or_step a b = omega (
  arith,
  bit_or-bitwise a b,
  bit_or-bitwise (a / 2) (b / 2),
  lowest_digit (λ b. b) max (λ b. omega arith) a b,
)

zero-or : (b : ℕ) → bit_or 0 b ≡ b
zero-or b = bit_or-bitwise 0 b

or-zero : (n a : ℕ) → a ≤ n → bit_or a 0 ≡ a
or-zero n zero h = refl
or-zero zero (suc a) h = absurd (omega arith)
or-zero (suc n) (suc a) h = omega (arith, or_step (suc a) 0, or-zero n (suc a / 2) (omega arith))

and-zero : (n a : ℕ) → a ≤ n → bit_and a 0 ≡ 0
and-zero n zero h = refl
and-zero zero (suc a) h = absurd (omega arith)
and-zero (suc n) (suc a) h = omega (arith, and_step (suc a) 0, and-zero n (suc a / 2) (omega arith))

shifted : (k b : ℕ) → b * 2 ^ suc k ≡ b * 2 ^ k * 2
shifted k b = rw (pow-suc 2 k) (omega arith)

-- One bit of the second operand: it is 0, or it is 1.
or_even : (a t : ℕ) → bit_or a (t * 2) ≡ bit_or (a / 2) t * 2 + a % 2
or_even a t = let half : t * 2 / 2 ≡ t = omega arith in rw (or_step a (t * 2), half) (omega arith)

and_even : (a t : ℕ) → bit_and a (t * 2) ≡ bit_and (a / 2) t * 2
and_even a t = let half : t * 2 / 2 ≡ t = omega arith in rw (and_step a (t * 2), half) (omega arith)

and_odd : (a t : ℕ) → bit_and a (t * 2 + 1) ≡ bit_and (a / 2) t * 2 + a % 2
and_odd a t =
    let half : (t * 2 + 1) / 2 ≡ t = omega arith in rw (and_step a (t * 2 + 1), half) (omega arith)

-- `a | b << k` is a sum where `a` has `k` bits at most.
pub or_disjoint : (k a b : ℕ) → a < 2 ^ k → bit_or a (b * 2 ^ k) ≡ a + b * 2 ^ k
or_disjoint zero zero b h = omega (arith, zero-or (b * 1))
or_disjoint zero (suc a) b h = absurd (omega arith)
or_disjoint (suc k) a b h =
    rw (shifted k b)
      (omega (arith, or_even a (b * 2 ^ k), or_disjoint k (a / 2) b (omega (arith, pow-suc 2 k))))

-- The mask of `k` ones.
abbrev pub ones : ℕ → ℕ
ones zero = 0
ones (suc k) = ones k * 2 + 1

mod_double : (p a : ℕ) → 0 < p → a % (p * 2) ≡ a / 2 % p * 2 + a % 2
mod_double p a h = grind arith

pub and_ones : (k a : ℕ) → bit_and a (ones k) ≡ a % 2 ^ k
and_ones zero a = omega (arith, and-zero a a (le_refl a))
and_ones (suc k) a = rw (pow-suc 2 k) (
    omega (
      arith,
      and_odd a (ones k),
      and_ones k (a / 2),
      mod_double (2 ^ k) a (one-le-pow k 2 (omega arith)),
    ))

-- A mask that stands above the lowest byte.
pub and_above : (a m : ℕ) → bit_and a (m * 256) ≡ bit_and (a / 256) m * 256
and_above a m =
    let eight : m * 256 ≡ m * 2 * 2 * 2 * 2 * 2 * 2 * 2 * 2 = omega arith in
    let byte : a / 256 ≡ a / 2 / 2 / 2 / 2 / 2 / 2 / 2 / 2 = omega arith in
    rw (eight, byte)
      (omega (
        arith,
        and_even a (m * 2 * 2 * 2 * 2 * 2 * 2 * 2),
        and_even (a / 2) (m * 2 * 2 * 2 * 2 * 2 * 2),
        and_even (a / 2 / 2) (m * 2 * 2 * 2 * 2 * 2),
        and_even (a / 2 / 2 / 2) (m * 2 * 2 * 2 * 2),
        and_even (a / 2 / 2 / 2 / 2) (m * 2 * 2 * 2),
        and_even (a / 2 / 2 / 2 / 2 / 2) (m * 2 * 2),
        and_even (a / 2 / 2 / 2 / 2 / 2 / 2) (m * 2),
        and_even (a / 2 / 2 / 2 / 2 / 2 / 2 / 2) m,
      ))
