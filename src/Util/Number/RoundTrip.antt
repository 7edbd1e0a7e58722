-- ===== src/Util/Number/RoundTrip.antt =====
-- A decimal print is read back, and its length and its bytes.
use geminidb.Prelude.{
  inl, inr, subst, sym, ℕ, zero, suc, ◌+◌, ◌/◌, ◌%◌, ◌^◌, ◌<◌, ◌≤◌, ◌≡◌, refl, ◌∙◌, false, [], ◌∷◌,
  ◌++◌, Octets, All, length, ltb, Bool-cases, arith,
}
use native.Mathlib.Nat.{pow-suc, add-zero}
use geminidb.Prelude.Int.{int_of_word, pos}
use geminidb.Util.Number.{
  is_digit, decimal, decimal_loop, scan_digits, skip_spaces, scan_signed, clamp64, strtol, atoi,
  str_to_uint64, str_to_int64, unsigned64,
}

abbrev pub IsDigit : ℕ → Type 0
IsDigit c = (b'0' ≤ c) × (c ≤ b'9')

-- The text does not begin with a digit.
abbrev pub StopsDigits : Octets → Type 0
StopsDigits [] = Unit {0}
StopsDigits (c ∷ s) = is_digit c ≡ false

scan_stops : (n : ℕ) (s : Octets) → StopsDigits s → scan_digits n s ≡ n
unfolding scan_digits
scan_stops n [] h = refl
scan_stops n (c ∷ s) h = rw h refl

decimal_loop-append :
    (fuel n : ℕ) (out rest : Octets)
    → decimal_loop fuel n out ++ rest ≡ decimal_loop fuel n (out ++ rest)
unfolding decimal_loop
decimal_loop-append zero n out rest = refl
decimal_loop-append (suc fuel) n out rest =
    ground (arith, decimal_loop-append fuel (n / 10) ((b'0' + n % 10) ∷ out) rest)

scan-decimal_loop :
    (fuel n : ℕ) (out : Octets)
    → n < fuel
    → scan_digits 0 (decimal_loop fuel n out) ≡ scan_digits n out
unfolding decimal_loop scan_digits
scan-decimal_loop zero n out h = absurd (omega arith)
scan-decimal_loop (suc fuel) n out h =
    ground (arith, scan-decimal_loop fuel (n / 10) ((b'0' + n % 10) ∷ out))

pub decimal-digits : (n : ℕ) → All IsDigit (decimal n)
unfolding decimal
decimal-digits n = loop (suc n) n [] tt
  where
    loop : (fuel n : ℕ) (out : Octets) → All IsDigit out → All IsDigit (decimal_loop fuel n out)
    loop zero n out h = h
    loop (suc fuel) n out h = ground (arith, loop fuel (n / 10) ((b'0' + n % 10) ∷ out))

pub decimal-cons : (n : ℕ) → (c : ℕ) × (s : Octets) × (decimal n ≡ c ∷ s) × IsDigit c
unfolding decimal
decimal-cons n = loop (suc n) n [] (omega arith)
  where
    loop :
        (fuel n : ℕ) (out : Octets)
        → n < fuel
        → (c : ℕ) × (s : Octets) × (decimal_loop fuel n out ≡ c ∷ s) × IsDigit c
    loop zero n out h = absurd (omega arith)
    loop (suc fuel) n out h = elim (Bool-cases (ltb n 10)) [
      | inl small ↦ (b'0' + n, out, (rw (small) refl), ground arith)
      | inr large ↦
          let rest : (c : ℕ) × (s : Octets) × (decimal_loop fuel (n / 10) ((b'0' + n % 10) ∷ out)
                ≡ c ∷ s)
              × IsDigit c =
            loop fuel (n / 10) ((b'0' + n % 10) ∷ out) (ground arith) in
          (rest.0, rest.1, (rw (large) rest.2), rest.3)
    ]

pub length-decimal : (k n : ℕ) → n < 10 ^ suc k → length (decimal n) ≤ suc k
unfolding decimal
length-decimal k n h =
    subst (λ b. length (decimal_loop (suc n) n []) ≤ b) (add-zero (suc k)) (loop k (suc n) n [] h)
  where
    loop :
        (k fuel n : ℕ) (out : Octets)
        → n < 10 ^ suc k
        → length (decimal_loop fuel n out) ≤ suc k + length out
    loop k zero n out h = omega arith
    loop zero (suc fuel) n out h = ground arith
    loop (suc k) (suc fuel) n out h =
        let rest : length (decimal_loop fuel (n / 10) ((b'0' + n % 10) ∷ out))
            ≤ suc k + length ((b'0' + n % 10) ∷ out) =
          loop k fuel (n / 10) ((b'0' + n % 10) ∷ out) (omega (arith, pow-suc 10 (suc k))) in
        ground arith

scan-decimal : (n : ℕ) (rest : Octets) → StopsDigits rest → scan_digits 0 (decimal n ++ rest) ≡ n
unfolding decimal
scan-decimal n rest h =
    rw (decimal_loop-append (suc n) n [] rest)
      (scan-decimal_loop (suc n) n rest (omega arith) ∙ scan_stops n rest h)

-- The text begins with a digit.
abbrev pub StartsDigits : Octets → Type 0
StartsDigits [] = ⊥
StartsDigits (c ∷ s) = IsDigit c

scan_signed_lem :
    (s : Octets) → StartsDigits s → scan_signed (skip_spaces s) ≡ (false, scan_digits 0 s)
unfolding scan_signed skip_spaces scan_digits
scan_signed_lem [] h = absurd h
scan_signed_lem (c ∷ s) h = ground arith

int_of_small : (n : ℕ) → n < 2 ^ 31 → int_of_word n ≡ pos n
int_of_small n h = ground arith

decimal-StartsDigits : (n : ℕ) (rest : Octets) → StartsDigits (decimal n ++ rest)
decimal-StartsDigits n rest =
    let (c, s, e, d) : (c : ℕ) × (s : Octets) × (decimal n ≡ c ∷ s) × IsDigit c = decimal-cons n in
    subst (λ t. StartsDigits (t ++ rest)) (sym e) d

-- `atoi` reads the decimal print of a number below 2 ^ 31 back, whatever follows it, if that does
-- not begin with a digit.
pub atoi-decimal :
    (n : ℕ) (rest : Octets) → n < 2 ^ 31 → StopsDigits rest → atoi (decimal n ++ rest) ≡ pos n
unfolding atoi strtol clamp64
atoi-decimal n rest fits h =
    rw (scan_signed_lem (decimal n ++ rest) (decimal-StartsDigits n rest), scan-decimal n rest h)
      (ground (arith, int_of_small n fits))

-- `str_to_uint64` reads the decimal print of a 64-bit number back, whatever follows it, if that
-- does not begin with a digit.
pub str_to_uint64-decimal :
    (n : ℕ) (rest : Octets) → n < 2 ^ 64 → StopsDigits rest → str_to_uint64 (decimal n ++ rest) ≡ n
unfolding str_to_uint64 unsigned64
str_to_uint64-decimal n rest fits h =
    rw (scan_signed_lem (decimal n ++ rest) (decimal-StartsDigits n rest), scan-decimal n rest h)
      (ground arith)

-- `str_to_int64` reads the print of a number below 2 ^ 63 back.
pub str_to_int64-decimal :
    (n : ℕ) (rest : Octets) → n < 2 ^ 63 → StopsDigits rest → str_to_int64 (decimal n ++ rest) ≡ n
unfolding str_to_int64 strtol clamp64
str_to_int64-decimal n rest fits h =
    rw (scan_signed_lem (decimal n ++ rest) (decimal-StartsDigits n rest), scan-decimal n rest h)
      (ground arith)
