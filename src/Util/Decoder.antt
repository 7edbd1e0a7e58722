-- ===== src/Util/Decoder.antt =====
-- `class Decoder` of src/util/bytes.h, a cursor over the bytes that are left. A call that returns -1
-- is `none`: every caller gives up at once.
use geminidb.Prelude.{
  ℕ, Option, none, some, [], ◌∷◌, Octets, length, take, drop, ltb, if◌then◌else◌,
}
use geminidb.Prelude.Words.{of_le}

-- The bytes from `p` on; `size` is their number.
pub record Decoder : Type 0 where
  pub rest : Octets

unfoldable pub skip : ℕ → Decoder → Option Decoder
skip n d = if ltb (length d.rest) n then none else some (record { rest = drop n d.rest })

unfoldable pub read_uint64 : Decoder → Option (ℕ × Decoder)
read_uint64 d =
    if ltb (length d.rest) 8
    then none
    else some (of_le (take 8 d.rest), record { rest = drop 8 d.rest })

unfoldable pub read_data : Decoder → Option (Octets × Decoder)
read_data d = some (d.rest, record { rest = [] })

-- A byte for the length, then as many bytes.
read_sized : Octets → Option (Octets × Decoder)
read_sized [] = none
read_sized (len ∷ p) =
    if ltb (length p) len then none else some (take len p, record { rest = drop len p })

unfoldable pub read_8_data : Decoder → Option (Octets × Decoder)
unfolding read_sized
read_8_data d = read_sized d.rest
