-- ===== src/Util/Escape/Unescaped.antt =====
-- An escaped text is printable, and is read back.
use geminidb.Prelude.{
  ℕ, zero, suc, ◌/◌, ◌%◌, ◌<◌, ◌≤◌, ◌≡◌, refl, ap, ◌∙◌, some, [], ◌∷◌, ◌++◌, Octets, AreBytes, All,
  All-append, length, length-append, arith,
}
use geminidb.Util.Escape.{
  hex_digit, hex_int, escape_byte, str_escape, unescape_letter, unescape_hex, after_backslash,
  unescape_round, unescape_loop, str_unescape,
}

hex_int-hex_digit : (d : ℕ) → d < 16 → hex_int (hex_digit d) ≡ d
unfolding hex_int hex_digit
hex_int-hex_digit d h = ground arith

unescape_round-escape_byte :
    (c : ℕ) (s : Octets) → c < 256 → unescape_round (escape_byte c ++ s) ≡ some (c ∷ [], s)
unfolding unescape_round after_backslash escape_byte unescape_letter unescape_hex
unescape_round-escape_byte c s h =
    let high : c / 16 < 16 = omega arith in
    let low : c % 16 < 16 = omega arith in
    ground (arith, hex_int-hex_digit (c / 16) high, hex_int-hex_digit (c % 16) low)

abbrev pub IsPrintable : ℕ → Type 0
IsPrintable c = (32 ≤ c) × (c < 127)

-- An escaped byte string consists of printable ASCII, so that it is one line of a log.
pub str_escape-IsPrintable : (s : Octets) → AreBytes s → All IsPrintable (str_escape s)
unfolding str_escape escape_byte hex_digit
str_escape-IsPrintable [] h = tt
str_escape-IsPrintable (c ∷ s) (h, hs) =
    All-append IsPrintable (escape_byte c) (str_escape s) (ground arith)
      (str_escape-IsPrintable s hs)

unescape_loop-some :
    (fuel : ℕ) (s out rest : Octets)
    → unescape_round s ≡ some (out, rest)
    → unescape_loop (suc fuel) s ≡ out ++ unescape_loop fuel rest
unfolding unescape_loop
unescape_loop-some fuel s out rest h = rw (unescape_loop, h) refl

unescape_loop-str_escape :
    (fuel : ℕ) (s : Octets) → AreBytes s → length s ≤ fuel → unescape_loop fuel (str_escape s) ≡ s
unfolding str_escape unescape_loop unescape_round
unescape_loop-str_escape zero [] hs h = refl
unescape_loop-str_escape (suc fuel) [] hs h = refl
unescape_loop-str_escape zero (c ∷ s) hs h = absurd (omega arith)
unescape_loop-str_escape (suc fuel) (c ∷ s) (hc, hs) h =
    unescape_loop-some fuel (escape_byte c ++ str_escape s) (c ∷ []) (str_escape s)
      (unescape_round-escape_byte c (str_escape s) hc)
    ∙ ap (λ t. c ∷ t) (unescape_loop-str_escape fuel s hs (omega arith))

length-escape_byte : (c : ℕ) → 1 ≤ length (escape_byte c)
unfolding escape_byte
length-escape_byte c = ground arith

length-str_escape : (s : Octets) → length s ≤ length (str_escape s)
unfolding str_escape
length-str_escape [] = omega arith
length-str_escape (c ∷ s) =
    omega (
      arith,
      length-append (escape_byte c) (str_escape s),
      length-escape_byte c,
      length-str_escape s,
    )

-- `str_unescape` reads every escaped byte string back.
pub str_unescape-str_escape : (s : Octets) → AreBytes s → str_unescape (str_escape s) ≡ s
unfolding str_unescape
str_unescape-str_escape s h =
    unescape_loop-str_escape (length (str_escape s)) s h (length-str_escape s)
