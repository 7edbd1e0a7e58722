-- ===== src/Prelude/Texts.antt =====
-- Byte strings: a byte is a number, and a literal stands for its bytes.
use Prim.Native.Nat.{ℕ, ◌<◌}
use Prim.Native.Char.{code}
use Prim.Native.String.{String}
use mathlib.Core.Path.{◌≡◌, refl}
use mathlib.Core.Logic.{◌↔◌}
use mathlib.Core.Bool.{Bool, true, false, ◌&&◌}
use mathlib.Core.List.{List, [], ◌∷◌}
use native.Mathlib.Omega.{arith}
use geminidb.Prelude.Tests.{◌==◌}
use geminidb.Prelude.Lists.{All}

abbrev pub Octets : Type 0
Octets = List ℕ

-- The code points of a literal: its bytes, if it is ASCII.
abbrev pub codes : String → Octets
codes String.[] = []
codes (String.◌∷◌ c s) = code c ∷ codes s

abbrev pub AreBytes : Octets → Type 0
AreBytes = All (λ c. c < 256)

unfoldable pub octets_eq : Octets → Octets → Bool
octets_eq [] [] = true
octets_eq [] (y ∷ ys) = false
octets_eq (x ∷ xs) [] = false
octets_eq (x ∷ xs) (y ∷ ys) = x == y && octets_eq xs ys

pub octets_eq_iff : (xs ys : Octets) → (octets_eq xs ys ≡ true) ↔ (xs ≡ ys)
unfolding octets_eq
octets_eq_iff [] [] = (λ _. refl, λ _. refl)
octets_eq_iff [] (y ∷ ys) = ground arith
octets_eq_iff (x ∷ xs) [] = ground arith
octets_eq_iff (x ∷ xs) (y ∷ ys) = ground (arith, octets_eq_iff xs ys)

pub octets_eq_refl : (xs : Octets) → octets_eq xs xs ≡ true
octets_eq_refl xs = (octets_eq_iff xs xs).1 refl
