-- ===== src/Util/Escape.antt =====
-- `str_escape`, `hexmem` and `str_unescape` of src/util/strings.h. A byte of 128 and more is a negative
-- `char`, which the tests of the ranges leave out as they do here.
pub mod Unescaped
use geminidb.Prelude.{
  ℕ, zero, suc, ◌+◌, ◌-◌, ◌*◌, ◌/◌, ◌%◌, Option, none, some, [], ◌∷◌, ◌++◌, Octets, codes, length,
  leb, ltb, ◌==◌, ◌&&◌, if◌then◌else◌,
}
use geminidb.Util.Number.{is_digit}

-- A digit of the table `hex`.
unfoldable pub hex_digit : ℕ → ℕ
hex_digit d = if ltb d 10 then b'0' + d else b'a' + (d - 10)

-- The switch of `str_escape`.
unfoldable pub escape_byte : ℕ → Octets
unfolding hex_digit
escape_byte c =
    if c == b'\r'
    then codes "\\r"
    else if c == b'\n'
    then codes "\\n"
    else if c == b'\t'
    then codes "\\t"
    else if c == b'\\'
    then codes "\\\\"
    else if c == b' '
    then c ∷ []
    else if leb b'!' c && leb c b'~'
    then c ∷ []
    else b'\\' ∷ b'x' ∷ hex_digit (c / 16) ∷ hex_digit (c % 16) ∷ []

unfoldable pub str_escape : Octets → Octets
unfolding escape_byte
str_escape [] = []
str_escape (c ∷ s) = escape_byte c ++ str_escape s

unfoldable pub hexmem : Octets → Octets
unfolding str_escape
hexmem s = str_escape s

-- Modulo 256, as its result is cut to a `char`: 169 is 256 - 'a' + 10.
unfoldable pub hex_int : ℕ → ℕ
hex_int c = if is_digit c then c - b'0' else (c + 169) % 256

-- The inner switch of `str_unescape`, without its `x`.
unfoldable pub unescape_letter : ℕ → ℕ
unescape_letter c =
    if c == b'a'
    then 7
    else if c == b'b'
    then 8
    else if c == b'f'
    then 12
    else if c == b'v'
    then 11
    else if c == b'r'
    then 13
    else if c == b'n'
    then 10
    else if c == b't'
    then 9
    else c

-- What is pushed, and the bytes left: two digits, if there are as many.
unfoldable pub unescape_hex : Octets → Octets × Octets
unfolding hex_int
unescape_hex [] = ([], [])
unescape_hex (c ∷ []) = ([], c ∷ [])
unescape_hex (c ∷ d ∷ s) = ((hex_int c * 16 + hex_int d) % 256 ∷ [], s)

unfoldable pub after_backslash : Octets → Octets × Octets
unfolding unescape_hex unescape_letter
after_backslash [] = ([], [])
after_backslash (c ∷ s) = if c == b'x' then unescape_hex s else (unescape_letter c ∷ [], s)

-- A round of the loop.
unfoldable pub unescape_round : Octets → Option (Octets × Octets)
unfolding after_backslash
unescape_round [] = none
unescape_round (c ∷ s) = if c == b'\\' then some (after_backslash s) else some (c ∷ [], s)

unfoldable pub unescape_loop : ℕ → Octets → Octets
unfolding unescape_round
unescape_loop zero s = []
unescape_loop (suc fuel) s = elim (unescape_round s) [
  | none ↦ []
  | some r ↦ r.0 ++ unescape_loop fuel r.1
]

-- A round takes a byte at least.
unfoldable pub str_unescape : Octets → Octets
unfolding unescape_loop
str_unescape s = unescape_loop (length s) s
