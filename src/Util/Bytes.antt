-- ===== src/Util/Bytes.antt =====
-- The comparisons of `Bytes` of src/util/bytes.h. Of the result of `memcmp` only the sign is known, which
-- is the result here.
pub mod Order
use geminidb.Prelude.{
  ℕ, zero, suc, Bool, true, false, not, List, [], ◌∷◌, Octets, octets_eq, length, take, ltb, leb,
  ◌==◌, ◌&&◌, if◌then◌else◌,
}
use geminidb.Prelude.Int.{ℤ, pos, negsuc, minus_one, int_eq, is_nonpos}

-- `memcmp` of the first bytes, as many as the number says.
unfoldable pub memcmp : ℕ → Octets → Octets → ℤ
memcmp zero x y = pos 0
memcmp (suc n) [] y = pos 0
memcmp (suc n) (c ∷ x) [] = pos 0
memcmp (suc n) (c ∷ x) (d ∷ y) =
    let rest = memcmp n x y in if ltb c d then minus_one else if ltb d c then pos 1 else rest

-- `Bytes::compare`.
unfoldable pub compare : Octets → Octets → ℤ
unfolding memcmp
compare x y =
    let min_len = if ltb (length x) (length y) then length x else length y in
    let r = memcmp min_len x y in
    if int_eq r (pos 0)
    then (if ltb (length x) (length y)
        then minus_one
        else if ltb (length y) (length x)
        then pos 1
        else r)
    else r

-- The operators.
unfoldable pub eq : Octets → Octets → Bool
unfolding memcmp
eq x y = length x == length y && int_eq (memcmp (length x) x y) (pos 0)

unfoldable pub gt : Octets → Octets → Bool
unfolding compare
gt x y = not (is_nonpos (compare x y))

unfoldable pub le : Octets → Octets → Bool
unfolding compare
le x y = is_nonpos (compare x y)

unfoldable pub lt : Octets → Octets → Bool
unfolding compare
lt x y = is_nonpos (compare x y) && not (int_eq (compare x y) (pos 0))
