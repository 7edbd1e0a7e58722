-- ===== src/Net/Link/Rounds.antt =====
-- The rounds that the parse of a packet takes.
use geminidb.Prelude.{
  ℕ, zero, suc, ◌+◌, ◌-◌, ◌^◌, ◌<◌, ◌≤◌, ◌≡◌, ◌≢◌, refl, subst, Bool, true, false, Option, none,
  some, List, [], ◌∷◌, ◌++◌, Octets, length, take, drop, length-drop, ltb, leb, ◌==◌, ◌&&◌, not,
  if◌then◌else◌, arith,
}
use geminidb.Prelude.Int.{ℤ, pos, negsuc}
use geminidb.Util.Number.{is_digit, atoi}
use geminidb.Net.Link.{
  Round, packet_end, item, incomplete, malformed, overflow, Parsed, whole, partial, bad, undefined,
  max_packet_size, find_line, scan_separator, scan_body, scan_line, scan_round, parse,
  out_of_rounds,
}

-- What is left of a line is shorter.
abbrev Shorter : ℕ → Option (Octets × Octets) → Type 0
Shorter k none = Unit {0}
Shorter k (some l) = length l.1 < k

find_line-Shorter : (s : Octets) → Shorter (length s) (find_line s)
unfolding find_line
find_line-Shorter [] = tt
find_line-Shorter (c ∷ s) =
    either (c == b'\n') (some ([], s))
      (elim (find_line s) as (λ _. Option (Octets × Octets)) [
        | none ↦ none
        | some l ↦ some (c ∷ l.0, l.1)
      ])
      (omega arith) (consed (find_line s) (find_line-Shorter s))
  where
    either :
        (b : Bool) (o o' : Option (Octets × Octets))
        → Shorter (suc (length s)) o
        → Shorter (suc (length s)) o'
        → Shorter (suc (length s)) (if b then o else o')
    either true o o' h h' = h
    either false o o' h h' = h'

    consed :
        (o : Option (Octets × Octets))
        → Shorter (length s) o
        → Shorter (suc (length s)) (elim o [ none ↦ none | some l ↦ some (c ∷ l.0, l.1) ])
    consed none h = tt
    consed (some l) h = omega arith

-- A round that goes on has fewer bytes left.
abbrev pub Shrinks : ℕ → Round → Type 0
Shrinks k (item x rest n) = length rest < k
Shrinks k _ = Unit {0}

if-Shrinks :
    (k : ℕ) (b : Bool) (r r' : Round) → Shrinks k r → Shrinks k r' → Shrinks k (if b then r else r')
if-Shrinks k true r r' h h' = h
if-Shrinks k false r r' h h' = h'

Shrinks-weaken : (k k' : ℕ) (r : Round) → k ≤ k' → Shrinks k r → Shrinks k' r
Shrinks-weaken k k' (item x rest n) le h = omega arith
Shrinks-weaken k k' (packet_end n) le h = tt
Shrinks-weaken k k' incomplete le h = tt
Shrinks-weaken k k' malformed le h = tt
Shrinks-weaken k k' overflow le h = tt

scan_separator-Shrinks :
    (x : Octets) (parsed : ℕ) (s : Octets) → Shrinks (length s) (scan_separator x parsed s)
unfolding scan_separator
scan_separator-Shrinks x parsed [] = tt
scan_separator-Shrinks x parsed (c ∷ []) =
    let over = ltb max_packet_size (parsed + 1) in
    let next = item x [] (parsed + 1) in
    if-Shrinks 1 (c == b'\n') (if over then malformed else next) incomplete
      (if-Shrinks 1 over malformed next tt (omega arith)) tt
scan_separator-Shrinks x parsed (c ∷ d ∷ s) =
    let k = suc (suc (length s)) in
    let over = ltb max_packet_size (parsed + 1) in
    let next = item x (d ∷ s) (parsed + 1) in
    let over' = ltb max_packet_size (parsed + 2) in
    let next' = item x s (parsed + 2) in
    let crlf = c == b'\r' && d == b'\n' in
    let after = if over' then malformed else next' in
    if-Shrinks k (c == b'\n') (if over then malformed else next) (if crlf then after else malformed)
      (if-Shrinks k over malformed next tt (omega arith))
      (if-Shrinks k crlf after malformed (if-Shrinks k over' malformed next' tt (omega arith)) tt)

scan_body-Shrinks :
    (v : ℤ) (head_len parsed : ℕ) (body : Octets)
    → Shrinks (length body) (scan_body v head_len parsed body)
unfolding scan_body
scan_body-Shrinks (negsuc n) head_len parsed body = tt
scan_body-Shrinks (pos n) head_len parsed body =
    let after = scan_separator (take n body) (parsed + head_len + n) (drop n body) in
    let short = ltb (length body) n in
    if-Shrinks (length body) (leb (2 ^ 31) (head_len + n)) overflow
      (if short then incomplete else after) tt
      (if-Shrinks (length body) short incomplete after tt (
        Shrinks-weaken (length (drop n body)) (length body) after
          (omega (arith, length-drop n body))
          (scan_separator-Shrinks (take n body) (parsed + head_len + n) (drop n body))))

scan_line-Shrinks :
    (line : Octets) (parsed : ℕ) (body : Octets)
    → Shrinks (length body) (scan_line line parsed body)
unfolding scan_line
scan_line-Shrinks [] parsed body = tt
scan_line-Shrinks (c ∷ line) parsed body =
    let k = length body in
    let after = scan_body (atoi (c ∷ line)) (length line + 2) parsed body in
    let long = ltb (20 - 1) (length line + 2) in
    let measured = if long then malformed else after in
    let other = not (is_digit c) in
    if-Shrinks k (length line == 0 && c == b'\r') (packet_end (parsed + 2))
      (if other then malformed else measured) tt
      (if-Shrinks k other malformed measured tt (
        if-Shrinks k long malformed after tt
          (scan_body-Shrinks (atoi (c ∷ line)) (length line + 2) parsed body)))

scan_round-Shrinks : (s : Octets) (parsed : ℕ) → Shrinks (length s) (scan_round s parsed)
unfolding scan_round
scan_round-Shrinks s parsed = found (find_line s) (find_line-Shorter s)
  where
    found :
        (o : Option (Octets × Octets))
        → Shorter (length s) o
        → Shrinks (length s) (elim o [ none ↦ incomplete | some l ↦ scan_line l.0 parsed l.1 ])
    found none h = tt
    found (some l) h =
        Shrinks-weaken (length l.1) (length s) (scan_line l.0 parsed l.1) (omega arith)
          (scan_line-Shrinks l.0 parsed l.1)

-- A parse whose round goes on leaves the rest to a parse that ends.
round_ends :
    (fuel : ℕ) (recv_data : List Octets) (r : Round)
    → ((rest x : Octets) (n : ℕ)
        → r ≡ item x rest n
        → parse fuel rest n (recv_data ++ x ∷ []) ≢ out_of_rounds)
    → elim r as (λ _. Parsed) [
      | packet_end n ↦ whole recv_data n
      | item x rest n ↦ parse fuel rest n (recv_data ++ x ∷ [])
      | incomplete ↦ partial
      | malformed ↦ bad
      | overflow ↦ undefined
    ]
      ≢ out_of_rounds
round_ends fuel recv_data (packet_end n) ends e = cc
round_ends fuel recv_data (item x rest n) ends e = ends rest x n refl e
round_ends fuel recv_data incomplete ends e = cc
round_ends fuel recv_data malformed ends e = cc
round_ends fuel recv_data overflow ends e = cc

-- A parse with a round for each byte never runs out of rounds, whatever the bytes are: it ends with
-- a packet, as an incomplete or a malformed one, or where a sum of lengths overflows.
pub parse_ends :
    (fuel : ℕ) (s : Octets) (parsed : ℕ) (recv_data : List Octets)
    → length s ≤ fuel
    → parse fuel s parsed recv_data ≢ out_of_rounds
unfolding parse
parse_ends zero [] parsed recv_data h = λ e. cc
parse_ends zero (c ∷ s) parsed recv_data h = absurd (omega arith)
parse_ends (suc fuel) s parsed recv_data h =
    let shrinks = scan_round-Shrinks s parsed in
    round_ends fuel recv_data (scan_round s parsed) (λ rest x n e.
      let left : length rest < length s = subst (Shrinks (length s)) e shrinks in
      parse_ends fuel rest n (recv_data ++ x ∷ []) (omega arith))
