-- ===== src/Util/Slice.antt =====
-- `substr`, `str_slice`, `bitcount`, `strtoupper` and `real_dirname` of src/util/strings.h. `none` is a
-- sum that no `int` holds, where the code's behaviour is undefined.
pub mod Middle
use geminidb.Prelude.{
  ℕ, zero, suc, ◌+◌, ◌-◌, ◌*◌, ◌/◌, ◌%◌, Bool, ◌&&◌, ◌||◌, Option, none, some, ◌>>=◌, List, [], ◌∷◌,
  ◌++◌, Octets, length, take, drop, map, leb, ltb, ◌==◌, if◌then◌else◌,
}
use geminidb.Prelude.Int.{ℤ, pos, negsuc, ◌+ℤ◌, negated, int_of_sum, int_of_word}

-- `(int)str.size()`
abbrev pub size_of : Octets → ℤ
size_of str = int_of_word (length str)

-- A position that is negative counts from the end.
unfoldable pub start_of : Octets → ℤ → Option ℤ
start_of str (pos n) = some (pos n)
start_of str (negsuc n) = int_of_sum (size_of str +ℤ negsuc n)

-- The end of both functions: the test of the range, and `std::string::substr`.
unfoldable pub cut : Octets → ℤ → ℤ → Octets
cut str (negsuc m) size = []
cut str (pos m) (negsuc n) = []
cut str (pos m) (pos n) = if leb (length str) m then [] else take n (drop m str)

-- A size that is negative is the number of bytes to leave out at the end.
unfoldable pub substr_size : Octets → ℤ → ℤ → Option ℤ
substr_size str start (pos n) = some (pos n)
substr_size str start (negsuc n) =
    int_of_sum (size_of str +ℤ negsuc n) >>= λ end. int_of_sum (end +ℤ negated start)

unfoldable pub substr : Octets → ℤ → ℤ → Option Octets
unfolding start_of substr_size cut
substr str start size =
    start_of str start >>= λ first. substr_size str first size >>= λ n. some (cut str first n)

unfoldable pub slice_size : Octets → ℤ → ℤ → Option ℤ
slice_size str start (pos n) =
    int_of_sum (pos n +ℤ negated start) >>= λ size. int_of_sum (size +ℤ pos 1)
slice_size str start (negsuc n) = int_of_sum (size_of str +ℤ negsuc n) >>= λ end.
    int_of_sum (end +ℤ pos 1) >>= λ past. int_of_sum (past +ℤ negated start)

unfoldable pub str_slice : Octets → ℤ → ℤ → Option Octets
unfolding start_of slice_size cut
str_slice str start end =
    start_of str start >>= λ first. slice_size str first end >>= λ n. some (cut str first n)

-- The inner loop of `bitcount`, which ends within 8 rounds.
unfoldable pub bits_of : ℕ → ℕ → ℕ
bits_of zero c = 0
bits_of (suc fuel) c = let rest = bits_of fuel (c / 2) in if c == 0 then 0 else c % 2 + rest

unfoldable pub bitcount : Octets → ℕ
unfolding bits_of
bitcount [] = 0
bitcount (c ∷ s) = bits_of 8 c + bitcount s

-- `::toupper` in the C locale.
abbrev pub toupper : ℕ → ℕ
toupper c = if leb b'a' c && leb c b'z' then c - 32 else c

-- `strtoupper`
unfoldable pub strtoupper : Octets → Octets
strtoupper s = map toupper s

-- What `strrchr` finds: the bytes before the last slash.
unfoldable pub before_last : Octets → Option Octets
before_last [] = none
before_last (c ∷ s) = elim (before_last s) [
  | some dir ↦ some (c ∷ dir)
  | none ↦ if c == b'/' then some [] else none
]

abbrev or_empty : Option Octets → Octets
or_empty none = []
or_empty (some dir) = dir

-- `real_dirname`, with what `getcwd` answers.
unfoldable pub real_dirname : Option Octets → Octets → Octets
unfolding before_last
real_dirname cwd [] = or_empty cwd ++ (b'/' ∷ [])
real_dirname cwd (c ∷ path) =
    (if c == b'/' then [] else or_empty cwd ++ (b'/' ∷ [])) ++ or_empty (before_last (c ∷ path))
