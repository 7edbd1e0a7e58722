-- ===== src/Net/Link/Socket.antt =====
-- `Link::read` and `Link::write` of src/net/link.cpp. What the system calls answer is a list, one
-- answer for each call; a list that has ended stands for a socket that would block.
pub mod Written
pub mod Taken
use geminidb.Prelude.{
  ℕ, zero, suc, ◌+◌, ◌-◌, ◌≤◌, ◌≡◌, refl, sym, ap, ◌∙◌, Bool, true, false, List, [], ◌∷◌, Octets,
  length, take, drop, ltb, ◌==◌, if◌then◌else◌, arith,
}
use geminidb.Prelude.Int.{ℤ, pos, negsuc, minus_one}
use geminidb.Util.Buffer.{Buffer, space, incr, decr, nice, grow}

-- `::read`: no bytes are the end of the stream.
pub data Reading : Type 0 where
  arrived : Octets → Reading
  read_interrupted : Reading
  read_would_block : Reading
  read_failed : Reading

-- `::write`: how many bytes it takes at most.
pub data Writing : Type 0 where
  accepted : ℕ → Writing
  write_interrupted : Writing
  write_would_block : Writing
  write_failed : Writing

abbrev pub init_buffer_size : ℕ
init_buffer_size = 8

-- `::read` gives no more than the space that is left.
unfoldable pub read_loop : Bool → ℕ → Buffer → List Reading → ℤ × Buffer
unfolding space incr
read_loop noblock ret input [] = (pos ret, input)
read_loop noblock ret input (arrived p ∷ rs) =
    let got = take (space input) p in
    let rest = read_loop noblock (ret + length got) (incr got input) rs in
    if space input == 0
    then (pos ret, input)
    else if length got == 0
    then (pos 0, input)
    else if noblock
    then rest
    else (pos (ret + length got), incr got input)
read_loop noblock ret input (read_interrupted ∷ rs) =
    let rest = read_loop noblock ret input rs in if space input == 0 then (pos ret, input) else rest
read_loop noblock ret input (read_would_block ∷ rs) = (pos ret, input)
read_loop noblock ret input (read_failed ∷ rs) =
    if space input == 0 then (pos ret, input) else (minus_one, input)

-- The result of the first `grow` is dropped.
unfoldable pub read : (ℕ → Bool) → Bool → Buffer → List Reading → ℤ × Buffer
unfolding read_loop grow nice
read realloc noblock input rs =
    let grown = (grow realloc input).1 in
    read_loop noblock 0 (nice (if input.total == init_buffer_size then grown else input)) rs

unfoldable pub write_loop : Bool → ℕ → Buffer → List Writing → ℤ × Buffer
unfolding decr
write_loop noblock ret output [] = (pos ret, output)
write_loop noblock ret output (accepted n ∷ ws) =
    let len = if ltb n (length output.bytes) then n else length output.bytes in
    let rest = write_loop noblock (ret + len) (decr len output) ws in
    if len == 0
    then (pos ret, output)
    else if noblock
    then rest
    else (pos (ret + len), decr len output)
write_loop noblock ret output (write_interrupted ∷ ws) =
    let rest = write_loop noblock ret output ws in
    if length output.bytes == 0 then (pos ret, output) else rest
write_loop noblock ret output (write_would_block ∷ ws) = (pos ret, output)
write_loop noblock ret output (write_failed ∷ ws) =
    if length output.bytes == 0 then (pos ret, output) else (minus_one, output)

unfoldable pub write : Bool → Buffer → List Writing → ℤ × Buffer
unfolding write_loop nice
write noblock output ws =
    let (ret, left) = write_loop noblock 0 output ws in
    (ret, elim ret [ pos n ↦ nice left | negsuc n ↦ left ])
