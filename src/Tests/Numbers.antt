-- ===== src/Tests/Numbers.antt =====
-- The properties of numbers as text and as bytes, at concrete numbers.
use geminidb.Prelude.{Octets, AreBytes, [], ◌∷◌, ◌≡◌, refl, codes, ◌++◌, arith}
use geminidb.Util.Escape.{str_escape, str_unescape}
use geminidb.Util.Escape.Unescaped.{str_unescape-str_escape}
use geminidb.Util.Number.{decimal, str_to_int64}
use geminidb.Util.Number.RoundTrip.{str_to_int64-decimal}

str_to_int64-decimal_example :
    str_to_int64 (decimal 9223372036854775807 ++ codes "x") ≡ 9223372036854775807
str_to_int64-decimal_example =
    str_to_int64-decimal 9223372036854775807 (codes "x") (omega arith) refl

-- A letter, a newline, a backslash and a byte that is no ASCII.
abbrev text : Octets
text = b'A' ∷ 10 ∷ 92 ∷ 200 ∷ []

text-AreBytes : AreBytes text
text-AreBytes = (omega arith, (omega arith, (omega arith, (omega arith, tt))))

str_unescape-str_escape_example : str_unescape (str_escape text) ≡ text
str_unescape-str_escape_example = str_unescape-str_escape text text-AreBytes
