-- ===== src/Util/Log/Written.antt =====
-- How much a call of the log writes.
use geminidb.Prelude.{
  ℕ, zero, suc, ◌+◌, ◌-◌, ◌≤◌, ◌<◌, ◌≡◌, inl, inr, Bool-cases, [], ◌∷◌, ◌++◌, Octets, length,
  length-append, take, ltb, arith,
}
use geminidb.Prelude.Int.{ℤ}
use geminidb.Util.Log.{log_buf_len, level_name_len, message_bytes, line_of, get_level_name}

length-take : (n : ℕ) (s : Octets) → length (take n s) ≤ n
length-take zero s = omega arith
length-take (suc n) [] = omega arith
length-take (suc n) (c ∷ s) = omega (arith, length-take n s)

message_fits : (space : ℕ) (msg : Octets) → 0 < space → length (message_bytes space msg) ≤ space
unfolding message_bytes
message_fits space msg h = elim (Bool-cases (ltb (length msg) space)) [
  | inl lt ↦ rw lt (ground arith)
  | inr ge ↦
      rw ge
        (omega (arith, length-append (take (space - 1) msg) (0 ∷ []), length-take (space - 1) msg))
]

length_of_line :
    (stamp name msg : Octets)
    → length (stamp ++ name ++ msg ++ b'\n' ∷ []) ≡ length stamp + length name + length msg + 1
length_of_line stamp name msg = omega (
  arith,
  length-append (stamp ++ name ++ msg) (b'\n' ∷ []),
  length-append (stamp ++ name) msg,
  length-append stamp name,
)

-- A line of the log and its terminator fit into the buffer, however long the message is, if the
-- text of the time is shorter than 4078 bytes.
pub line_of-fits :
    (stamp : Octets) (level : ℤ) (msg : Octets)
    → length stamp < log_buf_len - level_name_len - 10
    → length (line_of stamp level msg) < log_buf_len
unfolding line_of
line_of-fits stamp level msg h =
    let space : ℕ = log_buf_len - (length stamp + level_name_len) - 10 in
    let name : Octets = take level_name_len (get_level_name level) in
    let fits : length (message_bytes space msg) ≤ space =
      message_fits space msg (omega (arith, h)) in
    let short : length name ≤ level_name_len = length-take level_name_len (get_level_name level) in
    rw (length_of_line stamp name (message_bytes space msg)) (omega (arith, fits, short, h))
