-- ===== src/Util/Number.antt =====
-- Numbers as text: the conversions of src/util/strings.h (`str`, `str_to_int`, `str_to_int64`,
-- `str_to_uint64`) over what they use of the C library: `%d`, `atoi`, `strtol`, `strtoll`, `strtoull`.
pub mod RoundTrip
use geminidb.Prelude.{
  ℕ, zero, suc, ◌+◌, ◌-◌, ◌*◌, ◌/◌, ◌%◌, ◌^◌, ◌≡◌, refl, Bool, true, false, [], ◌∷◌, Octets, codes,
  ltb, leb, ◌==◌, ◌&&◌, ◌||◌, if◌then◌else◌,
}
use geminidb.Prelude.Int.{ℤ, pos, negsuc, minus_one, signed64, int_of_word}

abbrev pub is_digit : ℕ → Bool
is_digit c = leb b'0' c && leb c b'9'

-- `isspace` in the C locale
abbrev pub is_space : ℕ → Bool
is_space c = c == b' ' || (leb 9 c && leb c 13)

decimal_loop : ℕ → ℕ → Octets → Octets
decimal_loop zero n out = out
decimal_loop (suc fuel) n out =
    let rest = decimal_loop fuel (n / 10) ((b'0' + n % 10) ∷ out) in
    if ltb n 10 then (b'0' + n) ∷ out else rest

-- `%d` and `%llu` of a number that is not negative. A round for each unit of `n` is enough.
unfoldable pub decimal : ℕ → Octets
unfolding decimal_loop
decimal n = decimal_loop (suc n) n []

-- `%d` and `%lld`
unfoldable pub print_int : ℤ → Octets
unfolding decimal
print_int (pos n) = decimal n
print_int (negsuc n) = b'-' ∷ decimal (suc n)

-- The value of the digits that stand first.
unfoldable pub scan_digits : ℕ → Octets → ℕ
scan_digits n [] = n
scan_digits n (c ∷ s) = if is_digit c then scan_digits (n * 10 + (c - b'0')) s else n

unfoldable pub skip_spaces : Octets → Octets
skip_spaces [] = []
skip_spaces (c ∷ s) = if is_space c then skip_spaces s else c ∷ s

-- Whether a minus sign stands first, and the magnitude behind the sign.
scan_signed : Octets → Bool × ℕ
unfolding scan_digits
scan_signed [] = (false, 0)
scan_signed (c ∷ s) =
    if c == b'-'
    then (true, scan_digits 0 s)
    else (false, scan_digits 0 (if c == b'+' then s else c ∷ s))

-- `strtol` at base 10, which stops at the ends of its 64-bit range; the result is a bit pattern.
clamp64 : Bool × ℕ → ℕ
clamp64 (false, n) = if ltb n (2 ^ 63) then n else 2 ^ 63 - 1
clamp64 (true, n) = if leb n (2 ^ 63) then (2 ^ 64 - n) % 2 ^ 64 else 2 ^ 63

unfoldable pub strtol : Octets → ℕ
unfolding clamp64 scan_signed skip_spaces
strtol s = clamp64 (scan_signed (skip_spaces s))

-- `atoi` is the low half of `strtol`
unfoldable pub atoi : Octets → ℤ
unfolding strtol
atoi s = int_of_word (strtol s)

unfoldable pub str_to_int : Octets → ℤ
unfolding atoi
str_to_int s = atoi s

unfoldable pub str_to_int64 : Octets → ℕ
unfolding strtol
str_to_int64 s = strtol s

-- `strtoull` stops at the top of its range, and then negates without a sign bit.
unsigned64 : Bool × ℕ → ℕ
unsigned64 (negative, n) =
    if ltb (2 ^ 64 - 1) n then 2 ^ 64 - 1 else if negative then (2 ^ 64 - n) % 2 ^ 64 else n

unfoldable pub str_to_uint64 : Octets → ℕ
unfolding unsigned64 scan_signed skip_spaces
str_to_uint64 s = unsigned64 (scan_signed (skip_spaces s))

largest : decimal (2 ^ 64 - 1) ≡ codes "18446744073709551615"
unfolding decimal
largest = refl

clamped : strtol (codes " -9223372036854775809x") ≡ 2 ^ 63
unfolding strtol
clamped = refl

wrapped_int : atoi (codes "4294967295") ≡ minus_one
unfolding atoi
wrapped_int = refl

negated : str_to_uint64 (codes "-1") ≡ 2 ^ 64 - 1
unfolding str_to_uint64
negated = refl
