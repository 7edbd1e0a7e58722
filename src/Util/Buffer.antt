-- ===== src/Util/Buffer.antt =====
-- `class Buffer` of src/util/bytes.h and src/util/bytes.cpp. The block is its size `total`, the offset
-- of `data_` in it and the `bytes` from `data_` on. What `realloc` answers is a parameter; a size
-- that does not fit in an `int` counts as refused.
pub mod Room
use geminidb.Prelude.{
  ℕ, zero, suc, ◌+◌, ◌-◌, ◌*◌, ◌/◌, ◌^◌, Bool, true, false, [], ◌∷◌, ◌++◌, Octets, length, drop,
  ltb, leb, ◌==◌, ◌&&◌, ◌||◌, if◌then◌else◌,
}
use geminidb.Prelude.Int.{ℤ, pos, minus_one}
use geminidb.Util.Number.{decimal}

pub record Buffer : Type 0 where
  pub total : ℕ
  pub origin_total : ℕ
  pub offset : ℕ
  pub bytes : Octets

abbrev pub init : ℕ → Buffer
init total = record { total = total; origin_total = total; offset = 0; bytes = [] }

abbrev pub empty : Buffer → Bool
empty b = length b.bytes == 0

unfoldable pub space : Buffer → ℕ
space b = b.total - b.offset - length b.bytes

-- The bytes that the caller has written to `slot()`, and `incr`.
unfoldable pub incr : Octets → Buffer → Buffer
incr p b = record b { bytes = b.bytes ++ p }

unfoldable pub decr : ℕ → Buffer → Buffer
decr num b = record b { offset = b.offset + num; bytes = drop num b.bytes }

unfoldable pub nice : Buffer → Buffer
nice b = if ltb (b.total / 2) b.offset then record b { offset = 0 } else b

unfoldable pub grown : ℕ → ℕ
grown total =
    if ltb total (8 * 1024)
    then 8 * 1024
    else if ltb total (512 * 1024)
    then 8 * total
    else 2 * total

-- The size doubles in a round from 8 KB on, and stays below 2 ^ 31.
abbrev pub rounds : ℕ
rounds = 32

-- What `append_record` writes: the length as text, a newline, the bytes, a newline.
abbrev pub record_of : Octets → Octets
record_of s = decimal (length s) ++ (b'\n' ∷ (s ++ b'\n' ∷ []))

module _ (realloc : ℕ → Bool) where
  -- whether the result is not -1
  unfoldable pub grow : Buffer → Bool × Buffer
  unfolding grown
  grow b =
      let n = grown b.total in
      if ltb n (2 ^ 31) && realloc n then (true, record b { total = n }) else (false, b)

  -- `while(size > this->space())`, which gives up when `grow` does.
  unfoldable pub reserve : ℕ → ℕ → Buffer → Bool × Buffer
  unfolding grow space
  reserve zero size b = (leb size (space b), b)
  reserve (suc fuel) size b =
      let (ok, b') = grow b in
      let rest = reserve fuel size b' in
      if leb size (space b) then (true, b) else if ok then rest else (false, b')

  unfoldable pub append : Octets → Buffer → ℤ × Buffer
  unfolding reserve incr
  append p b =
      let (ok, b') = reserve rounds (length p) b in
      if ok then (pos (length p), incr p b') else (minus_one, b')

  -- The text of the length is at most 11 bytes with its newline.
  unfoldable pub append_record : Octets → Buffer → ℤ × Buffer
  unfolding reserve incr decimal
  append_record s b =
      let (ok, b') = reserve rounds (16 + length s + 1) b in
      if ok
      then (pos (length (decimal (length s)) + 1 + length s + 1), incr (record_of s) b')
      else (minus_one, b')
