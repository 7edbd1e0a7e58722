-- ===== src/Prelude/Words.antt =====
-- Numbers as bytes, the lowest byte first.
use Prim.Native.Nat.{ℕ, zero, suc, ◌+◌, ◌*◌, ◌/◌, ◌%◌, ◌^◌, ◌<◌}
use mathlib.Core.Path.{◌≡◌, refl, ap}
use mathlib.Core.List.{[], ◌∷◌}
use native.Mathlib.Omega.{arith}
use native.Mathlib.Nat.{pow-suc}
use geminidb.Prelude.Lists.{length}
use geminidb.Prelude.Texts.{Octets, AreBytes}

-- The `n` bytes of a word in the memory of a little-endian machine.
unfoldable pub to_le : ℕ → ℕ → Octets
to_le zero w = []
to_le (suc n) w = (w % 256) ∷ to_le n (w / 256)

unfoldable pub of_le : Octets → ℕ
of_le [] = 0
of_le (b ∷ bs) = b + 256 * of_le bs

pub length-to_le : (n w : ℕ) → length (to_le n w) ≡ n
unfolding to_le
length-to_le zero w = refl
length-to_le (suc n) w = ap suc (length-to_le n (w / 256))

pub to_le-AreBytes : (n w : ℕ) → AreBytes (to_le n w)
unfolding to_le
to_le-AreBytes zero w = tt
to_le-AreBytes (suc n) w = (omega arith, to_le-AreBytes n (w / 256))

pub of_le-to_le : (n w : ℕ) → w < 256 ^ n → of_le (to_le n w) ≡ w
unfolding of_le to_le
of_le-to_le zero w h = omega arith
of_le-to_le (suc n) w h = omega (arith, of_le-to_le n (w / 256) (omega (arith, pow-suc 256 n)))

pub of_le-to_le_eight : (w : ℕ) → w < 2 ^ 64 → of_le (to_le 8 w) ≡ w
of_le-to_le_eight w h = of_le-to_le 8 w (omega arith)
