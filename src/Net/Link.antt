-- ===== src/Net/Link.antt =====
-- `Link::recv` and `Link::send` of src/net/link.cpp. A packet is a sequence of records, each a length
-- in decimal and as many bytes, and an empty line.
pub mod Packet
pub mod Rounds
pub mod Sent
pub mod Socket
pub mod Client
use geminidb.Prelude.{
  ℕ, zero, suc, ◌+◌, ◌-◌, ◌*◌, ◌^◌, Bool, true, false, not, Option, none, some, List, [], ◌∷◌, ◌++◌,
  Octets, length, take, drop, ltb, leb, ◌==◌, ◌&&◌, ◌||◌, if◌then◌else◌,
}
use geminidb.Prelude.Int.{ℤ, pos, negsuc}
use geminidb.Util.Number.{is_digit, atoi}
use geminidb.Util.Buffer.{Buffer, empty, space, decr, nice, grow, append, append_record}

abbrev pub max_packet_size : ℕ
max_packet_size = 128 * 1024 * 1024

-- `memchr` for a newline: the bytes before it and the bytes after it.
unfoldable pub find_line : Octets → Option (Octets × Octets)
find_line [] = none
find_line (c ∷ s) =
    let rest = find_line s in
    if c == b'\n' then some ([], s) else elim rest [ none ↦ none | some l ↦ some (c ∷ l.0, l.1) ]

-- The empty lines that stand first.
unfoldable pub is_blank : ℕ → Bool
is_blank c = c == b'\n' || c == b'\r'

unfoldable pub skip_blank : Octets → ℕ × Octets
unfolding is_blank
skip_blank [] = (0, [])
skip_blank (c ∷ s) =
    let rest = skip_blank s in if is_blank c then (suc rest.0, rest.1) else (0, c ∷ s)

-- How a round of the parse loop ends; a number counts the bytes parsed. `overflow` is a sum of
-- lengths that no `int` holds, where the code's behaviour is undefined.
pub data Round : Type 0 where
  packet_end : ℕ → Round
  item : Octets → Octets → ℕ → Round
  incomplete : Round
  malformed : Round
  overflow : Round

-- what follows the bytes of a record
unfoldable pub scan_separator : Octets → ℕ → Octets → Round
scan_separator x parsed [] = incomplete
scan_separator x parsed (c ∷ []) =
    if c == b'\n'
    then (if ltb max_packet_size (parsed + 1) then malformed else item x [] (parsed + 1))
    else incomplete
scan_separator x parsed (c ∷ d ∷ s) =
    if c == b'\n'
    then (if ltb max_packet_size (parsed + 1) then malformed else item x (d ∷ s) (parsed + 1))
    else if c == b'\r' && d == b'\n'
    then (if ltb max_packet_size (parsed + 2) then malformed else item x s (parsed + 2))
    else malformed

-- The body of a record, once its length has been read.
unfoldable pub scan_body : ℤ → ℕ → ℕ → Octets → Round
unfolding scan_separator
scan_body (negsuc n) head_len parsed body = malformed
scan_body (pos body_len) head_len parsed body =
    if leb (2 ^ 31) (head_len + body_len)
    then overflow
    else if ltb (length body) body_len
    then incomplete
    else scan_separator (take body_len body) (parsed + head_len + body_len) (drop body_len body)

-- The bytes before a newline, without it; `head_len` counts it.
unfoldable pub scan_line : Octets → ℕ → Octets → Round
unfolding scan_body atoi
scan_line [] parsed body = packet_end (parsed + 1)
scan_line (c ∷ line) parsed body =
    if length line == 0 && c == b'\r'
    then packet_end (parsed + 2)
    else if not (is_digit c)
    then malformed
    else if ltb (20 - 1) (length line + 2)
    then malformed
    else scan_body (atoi (c ∷ line)) (length line + 2) parsed body

unfoldable pub scan_round : Octets → ℕ → Round
unfolding find_line scan_line
scan_round s parsed = elim (find_line s) [ none ↦ incomplete | some l ↦ scan_line l.0 parsed l.1 ]

-- How the parse ends. A packet carries its records and the number of its bytes. `out_of_rounds` is a
-- loop that has bytes left and no round.
pub data Parsed : Type 0 where
  whole : List Octets → ℕ → Parsed
  partial : Parsed
  bad : Parsed
  undefined : Parsed
  out_of_rounds : Parsed

unfoldable pub parse : ℕ → Octets → ℕ → List Octets → Parsed
unfolding scan_round
parse zero [] parsed recv_data = partial
parse zero (c ∷ s) parsed recv_data = out_of_rounds
parse (suc fuel) s parsed recv_data = elim (scan_round s parsed) [
  | packet_end n ↦ whole recv_data n
  | item x rest n ↦ parse fuel rest n (recv_data ++ x ∷ [])
  | incomplete ↦ partial
  | malformed ↦ bad
  | overflow ↦ undefined
]

-- The pointer that `recv` returns: NULL, or the records, which are none while a packet is not whole.
pub data Received : Type 0 where
  null : Received
  received : List Octets → Received
  undefined_result : Received

module _ (realloc : ℕ → Bool) where
  -- Room for the bytes that are still to come.
  unfoldable pub make_room : Buffer → Received × Buffer
  unfolding space nice grow
  make_room b =
      let (ok, grown) = grow realloc (nice b) in
      if space b == 0
      then (if space (nice b) == 0
          then (if ok then (received [], grown) else (null, grown))
          else (received [], nice b))
      else (received [], b)

  -- A round takes a byte at least, so that a round for each byte is enough.
  unfoldable pub recv : Buffer → Received × Buffer
  unfolding parse skip_blank make_room decr
  recv input =
      let (parsed, s) = skip_blank input.bytes in
      if empty input then (received [], input) else elim (parse (length s) s parsed []) [
        | whole recv_data n ↦ (received recv_data, decr n input)
        | partial ↦ make_room input
        | bad ↦ (null, input)
        | undefined ↦ (undefined_result, input)
        | out_of_rounds ↦ (undefined_result, input)
      ]

  -- The results of the appends are dropped.
  unfoldable pub append_records : List Octets → Buffer → Buffer
  unfolding append_record
  append_records [] output = output
  append_records (x ∷ resp) output = append_records resp (append_record realloc x output).1

  unfoldable pub send : List Octets → Buffer → ℤ × Buffer
  unfolding append_records append
  send [] output = (pos 0, output)
  send (x ∷ resp) output =
      (pos 0, (append realloc (b'\n' ∷ []) (append_records (x ∷ resp) output)).1)
