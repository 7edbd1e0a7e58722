-- ===== src/Util/Log.antt =====
-- `Logger` of src/util/log.h and src/util/log.cpp: its levels, what a call writes, and the rotation. The
-- texts of the time and of the message, and what the file system answers, are parameters.
pub mod Levels
pub mod Written
use geminidb.Prelude.{
  ℕ, zero, suc, ◌+◌, ◌-◌, ◌%◌, ◌^◌, Bool, true, false, ◌&&◌, ◌||◌, Option, none, some, List, [],
  ◌∷◌, ◌++◌, Octets, codes, octets_eq, length, take, replicate, map, leb, ltb, ◌==◌, if◌then◌else◌,
}
use geminidb.Prelude.Int.{ℤ, pos, negsuc, minus_one, int_eq}
use geminidb.Util.Text.{tolower}

-- LEVEL_NONE is -1, and the others are LEVEL_FATAL to LEVEL_TRACE in this order, from 0 on.
abbrev pub level_none : ℤ
level_none = minus_one

abbrev pub level_fatal : ℤ
level_fatal = pos 0

abbrev pub level_error : ℤ
level_error = pos 1

abbrev pub level_warn : ℤ
level_warn = pos 2

abbrev pub level_info : ℤ
level_info = pos 3

abbrev pub level_debug : ℤ
level_debug = pos 4

abbrev pub level_trace : ℤ
level_trace = pos 5

-- `Logger::get_level`.
unfoldable pub get_level : Octets → ℤ
get_level levelname =
    if octets_eq (codes "trace") levelname
    then level_trace
    else if octets_eq (codes "debug") levelname
    then level_debug
    else if octets_eq (codes "info") levelname
    then level_info
    else if octets_eq (codes "warn") levelname
    then level_warn
    else if octets_eq (codes "error") levelname
    then level_error
    else if octets_eq (codes "fatal") levelname
    then level_fatal
    else if octets_eq (codes "none") levelname
    then level_none
    else level_debug

-- The tests of `set_log_level` of a name, on the name in lower case.
unfoldable pub level_of : Octets → ℤ
level_of ss =
    if octets_eq ss (codes "fatal")
    then level_fatal
    else if octets_eq ss (codes "error")
    then level_error
    else if octets_eq ss (codes "warn")
    then level_warn
    else if octets_eq ss (codes "info")
    then level_info
    else if octets_eq ss (codes "debug")
    then level_debug
    else if octets_eq ss (codes "trace")
    then level_trace
    else level_debug

-- The level that it sets.
unfoldable pub set_log_level : Octets → ℤ
unfolding level_of
set_log_level s = level_of (map tolower s)

unfoldable pub level_name : ℤ → Octets
level_name l =
    if int_eq l level_fatal
    then codes "fatal"
    else if int_eq l level_error
    then codes "error"
    else if int_eq l level_warn
    then codes "warn"
    else if int_eq l level_info
    then codes "info"
    else if int_eq l level_debug
    then codes "debug"
    else if int_eq l level_trace
    then codes "trace"
    else []

-- `get_level_name`.
unfoldable pub get_level_name : ℤ → Octets
get_level_name l =
    if int_eq l level_fatal
    then codes "[FATAL] "
    else if int_eq l level_error
    then codes "[ERROR] "
    else if int_eq l level_warn
    then codes "[WARN ] "
    else if int_eq l level_info
    then codes "[INFO ] "
    else if int_eq l level_debug
    then codes "[DEBUG] "
    else if int_eq l level_trace
    then codes "[TRACE] "
    else []

abbrev pub log_buf_len : ℕ
log_buf_len = 4096

abbrev pub level_name_len : ℕ
level_name_len = 8

-- `written` is what the file holds, and the counters are those of `stats`.
pub record Logger : Type 0 where
  pub level : ℤ
  pub rotate_size : ℕ
  pub w_curr : ℕ
  pub w_total : ℕ
  pub written : Octets

-- `a < b` on `int`.
abbrev pub int_less : ℤ → ℤ → Bool
int_less (pos m) (pos n) = ltb m n
int_less (pos m) (negsuc n) = false
int_less (negsuc m) (pos n) = true
int_less (negsuc m) (negsuc n) = ltb n m

-- `vsnprintf` into `space` bytes writes a terminator within them; the position moves by the whole length,
-- or by `space`.
unfoldable pub message_bytes : ℕ → Octets → Octets
message_bytes space msg = if ltb (length msg) space then msg else take (space - 1) msg ++ 0 ∷ []

-- The line in the buffer behind the text of the time. Eight bytes of the level's name are copied; the
-- calls have the levels from 0 to 5, whose names have eight.
unfoldable pub line_of : Octets → ℤ → Octets → Octets
unfolding message_bytes get_level_name
line_of stamp level msg =
    let space = log_buf_len - (length stamp + level_name_len) - 10 in
    stamp ++ take level_name_len (get_level_name level) ++ message_bytes space msg ++ b'\n' ∷ []

-- `rotate`, with what `rename` and `fopen` answer. A new file is empty, unless one of its name has come.
unfoldable pub rotate : Bool → Option Octets → Logger → Logger
rotate false opened s = s
rotate true none s = s
rotate true (some held) s = record s { w_curr = 0; written = held }

unfoldable pub logv : Octets → Bool → Option Octets → ℤ → Octets → Logger → ℕ × Logger
unfolding line_of rotate
logv stamp renamed opened level msg s =
    let line = line_of stamp level msg in
    let w_curr = (s.w_curr + length line) % 2 ^ 64 in
    let s' = record s {
      w_curr = w_curr;
      w_total = (s.w_total + length line) % 2 ^ 64;
      written = s.written ++ line;
    } in
    let s'' =
      if ltb 0 s.rotate_size && ltb s.rotate_size w_curr then rotate renamed opened s' else s' in
    if int_less s.level level then (0, s) else (length line, s'')
