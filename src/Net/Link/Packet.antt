-- ===== src/Net/Link/Packet.antt =====
-- `recv` reads back what `send` has written.
use geminidb.Prelude.{
  ℕ, zero, suc, ◌+◌, ◌<◌, ◌≤◌, ◌≡◌, refl, sym, subst, ◌∙◌, ap, Bool, false, some, List, [], ◌∷◌,
  ◌++◌, append_assoc, append-nil, Octets, All, length, drop, length-append, take-append,
  drop-append, ◌==◌, arith,
}
use geminidb.Prelude.Int.{pos}
use geminidb.Util.Number.{decimal, atoi}
use geminidb.Util.Number.RoundTrip.{
  IsDigit, decimal-digits, decimal-cons, length-decimal, atoi-decimal,
}
use geminidb.Util.Buffer.{Buffer, record_of, decr}
use geminidb.Net.Link.{
  item, whole, received, max_packet_size, find_line, skip_blank, scan_separator, scan_body,
  scan_line, scan_round, parse, recv,
}

-- What `send` writes for a response.
abbrev pub records_of : List Octets → Octets
records_of [] = []
records_of (x ∷ xs) = record_of x ++ records_of xs

abbrev pub packet_of : List Octets → Octets
packet_of xs = records_of xs ++ (b'\n' ∷ [])

find_line-append : (d u : Octets) → All IsDigit d → find_line (d ++ (b'\n' ∷ u)) ≡ some (d, u)
unfolding find_line
find_line-append [] u h = refl
find_line-append (c ∷ d) u (h, hs) = rw (find_line-append d u hs) (ground arith)

scan_separator-newline :
    (x s : Octets) (parsed : ℕ)
    → parsed + 1 ≤ max_packet_size
    → scan_separator x parsed (b'\n' ∷ s) ≡ item x s (parsed + 1)
unfolding scan_separator
scan_separator-newline x [] parsed h = ground arith
scan_separator-newline x (c ∷ s) parsed h = ground arith

scan_body-append :
    (x s : Octets) (head_len parsed : ℕ)
    → head_len < 20
    → parsed + head_len + length x + 1 ≤ max_packet_size
    → scan_body (pos (length x)) head_len parsed (x ++ (b'\n' ∷ s))
      ≡ item x s (parsed + head_len + length x + 1)
unfolding scan_body
scan_body-append x s head_len parsed small fits =
    rw
      (
        take-append x (b'\n' ∷ s),
        drop-append x (b'\n' ∷ s),
        length-append x (b'\n' ∷ s),
        scan_separator-newline x s (parsed + head_len + length x) fits,
      )
      (ground arith)

scan_line-decimal :
    (n parsed : ℕ) (body : Octets)
    → n ≤ max_packet_size
    → scan_line (decimal n) parsed body ≡ scan_body (pos n) (length (decimal n) + 1) parsed body
unfolding scan_line
scan_line-decimal n parsed body h =
    let (c, l, e, d) : (c : ℕ) × (l : Octets) × (decimal n ≡ c ∷ l) × IsDigit c = decimal-cons n in
    let value : atoi (c ∷ l) ≡ pos n =
      subst (λ t. atoi t ≡ pos n) (append-nil (decimal n) ∙ e)
        (atoi-decimal n [] (omega arith) tt) in
    let short : length (c ∷ l) ≤ 10 =
      subst (λ t. length t ≤ 10) e (length-decimal 9 n (omega arith)) in
    subst (λ t. scan_line t parsed body ≡ scan_body (pos n) (length t + 1) parsed body) (sym e)
      (first c l d value short)
  where
    first :
        (c : ℕ) (l : Octets)
        → IsDigit c
        → atoi (c ∷ l) ≡ pos n
        → length (c ∷ l) ≤ 10
        → scan_line (c ∷ l) parsed body ≡ scan_body (pos n) (length (c ∷ l) + 1) parsed body
    first c l d value short = rw value (ground arith)

record_of-append :
    (x s : Octets) → record_of x ++ s ≡ decimal (length x) ++ (b'\n' ∷ (x ++ (b'\n' ∷ s)))
record_of-append x s =
    append_assoc (decimal (length x)) (b'\n' ∷ (x ++ (b'\n' ∷ []))) s
    ∙ rw (append_assoc x (b'\n' ∷ []) s) refl

pub length-record_of :
    (x : Octets) → length (record_of x) ≡ length (decimal (length x)) + 1 + length x + 1
length-record_of x =
    length-append (decimal (length x)) (b'\n' ∷ (x ++ (b'\n' ∷ [])))
    ∙ omega (arith, length-append x (b'\n' ∷ []))

scan_round-line :
    (s d u : Octets) (parsed : ℕ)
    → find_line s ≡ some (d, u)
    → scan_round s parsed ≡ scan_line d parsed u
unfolding scan_round
scan_round-line s d u parsed h = rw (scan_round, h) refl

scan_round-record :
    (x s : Octets) (parsed : ℕ)
    → parsed + length (record_of x) ≤ max_packet_size
    → scan_round (record_of x ++ s) parsed ≡ item x s (parsed + length (record_of x))
scan_round-record x s parsed h =
    let n = length (decimal (length x)) in
    let count : length (record_of x) ≡ n + 1 + length x + 1 = length-record_of x in
    let small : length x ≤ max_packet_size = omega arith in
    ap (λ t. scan_round t parsed) (record_of-append x s)
    ∙ scan_round-line (decimal (length x) ++ (b'\n' ∷ (x ++ (b'\n' ∷ s)))) (decimal (length x))
        (x ++ (b'\n' ∷ s)) parsed
        (find_line-append (decimal (length x)) (x ++ (b'\n' ∷ s)) (decimal-digits (length x)))
    ∙ (scan_line-decimal (length x) parsed (x ++ (b'\n' ∷ s)) small
        ∙ scan_body-append x s (n + 1) parsed
            (omega (arith, length-decimal 9 (length x) (omega arith))) (omega arith)
        ∙ ap (item x s) (omega arith))

parse-item :
    (s x rest : Octets) (recv_data : List Octets) (fuel parsed n : ℕ)
    → scan_round s parsed ≡ item x rest n
    → parse (suc fuel) s parsed recv_data ≡ parse fuel rest n (recv_data ++ (x ∷ []))
unfolding parse
parse-item s x rest recv_data fuel parsed n h = rw (parse, h) refl

packet_of-cons :
    (x : Octets) (xs : List Octets) (s : Octets)
    → packet_of (x ∷ xs) ++ s ≡ record_of x ++ (packet_of xs ++ s)
packet_of-cons x xs s =
    ap (λ t. t ++ s) (append_assoc (record_of x) (records_of xs) (b'\n' ∷ []))
    ∙ append_assoc (record_of x) (packet_of xs) s

length-packet_of :
    (x : Octets) (xs : List Octets)
    → length (packet_of (x ∷ xs)) ≡ length (record_of x) + length (packet_of xs)
length-packet_of x xs =
    ap length (append_assoc (record_of x) (records_of xs) (b'\n' ∷ []))
    ∙ length-append (record_of x) (packet_of xs)

parse-packet :
    (xs recv_data : List Octets) (s : Octets) (fuel parsed : ℕ)
    → length xs < fuel
    → parsed + length (records_of xs) ≤ max_packet_size
    → parse fuel (packet_of xs ++ s) parsed recv_data
      ≡ whole (recv_data ++ xs) (parsed + length (packet_of xs))
unfolding parse scan_round find_line scan_line
parse-packet xs recv_data s zero parsed h fits = absurd (omega arith)
parse-packet [] recv_data s (suc fuel) parsed h fits = rw (append-nil recv_data) refl
parse-packet (x ∷ xs) recv_data s (suc fuel) parsed h fits =
    let sum : length (records_of (x ∷ xs)) ≡ length (record_of x) + length (records_of xs) =
      length-append (record_of x) (records_of xs) in
    let total : parsed + length (record_of x) + length (packet_of xs)
        ≡ parsed + length (packet_of (x ∷ xs)) =
      omega (arith, length-packet_of x xs) in
    ap (λ t. parse (suc fuel) t parsed recv_data) (packet_of-cons x xs s)
    ∙ parse-item (record_of x ++ (packet_of xs ++ s)) x (packet_of xs ++ s) recv_data fuel parsed
        (parsed + length (record_of x))
        (scan_round-record x (packet_of xs ++ s) parsed (omega arith))
    ∙ parse-packet xs (recv_data ++ (x ∷ [])) s fuel (parsed + length (record_of x)) (omega arith)
        (omega arith)
    ∙ ap (λ l. whole l (parsed + length (record_of x) + length (packet_of xs)))
        (append_assoc recv_data (x ∷ []) xs)
    ∙ ap (λ n. whole (recv_data ++ (x ∷ xs)) n) total

skip_blank-digit : (c : ℕ) (s : Octets) → IsDigit c → skip_blank (c ∷ s) ≡ (0, c ∷ s)
unfolding skip_blank
skip_blank-digit c s h = ground arith

length-records_of : (xs : List Octets) → length xs ≤ length (records_of xs)
length-records_of [] = omega arith
length-records_of (x ∷ xs) =
    omega
      (arith, length-records_of xs, length-append (record_of x) (records_of xs), length-record_of x)

recv-whole :
    (realloc : ℕ → Bool) (c : ℕ) (s : Octets) (input : Buffer) (xs : List Octets) (n : ℕ)
    → input.bytes ≡ c ∷ s
    → IsDigit c
    → parse (length (c ∷ s)) (c ∷ s) 0 [] ≡ whole xs n
    → recv realloc input ≡ (received xs, decr n input)
unfolding recv
recv-whole realloc c s input xs n h d e =
    let nonempty : (length (c ∷ s) == 0) ≡ false = ground arith in
    rw (recv, h) (rw (skip_blank-digit c s d) (rw e (rw nonempty (rw (decr, h) refl))))

packet_of-head :
    (x : Octets) (xs : List Octets) (rest : Octets)
    → (c : ℕ) × (s : Octets) × (packet_of (x ∷ xs) ++ rest ≡ c ∷ s) × IsDigit c
packet_of-head x xs rest =
    let (c, l, e, d) : (c : ℕ) × (l : Octets) × (decimal (length x) ≡ c ∷ l) × IsDigit c =
      decimal-cons (length x) in
    let body : Octets = b'\n' ∷ (x ++ (b'\n' ∷ (packet_of xs ++ rest))) in
    (
      c,
      l ++ body,
      packet_of-cons x xs rest ∙ record_of-append x (packet_of xs ++ rest) ∙ ap (λ t. t ++ body) e,
      d,
    )

-- `recv` takes a whole packet of at least one record, within the size limit, from the head of the
-- input, whatever bytes follow it, returns its records and leaves those bytes.
pub recv-packet_of :
    (realloc : ℕ → Bool) (x : Octets) (xs : List Octets) (rest : Octets) (input : Buffer)
    → input.bytes ≡ packet_of (x ∷ xs) ++ rest
    → length (records_of (x ∷ xs)) ≤ max_packet_size
    → ((recv realloc input).0 ≡ received (x ∷ xs)) × ((recv realloc input).1.bytes ≡ rest)
unfolding decr
recv-packet_of realloc x xs rest input h fits =
    let all = x ∷ xs in
    let (c, s, e, d) : (c : ℕ) × (s : Octets) × (packet_of all ++ rest ≡ c ∷ s) × IsDigit c =
      packet_of-head x xs rest in
    let enough : length all < length (packet_of all ++ rest) = omega (
      arith,
      length-append (packet_of all) rest,
      length-append (records_of all) (b'\n' ∷ []),
      length-records_of all,
    ) in
    let run : parse (length (packet_of all ++ rest)) (packet_of all ++ rest) 0 []
        ≡ whole all (length (packet_of all)) =
      parse-packet all [] rest (length (packet_of all ++ rest)) 0 enough (omega arith)
      ∙ ap (whole all) (omega arith) in
    let result : recv realloc input ≡ (received all, decr (length (packet_of all)) input) =
      recv-whole realloc c s input all (length (packet_of all)) (h ∙ e) d
        (subst (λ t. parse (length t) t 0 [] ≡ whole all (length (packet_of all))) e run) in
    (
      ap (λ r. r.0) result,
      ap (λ r. r.1.bytes) result
          ∙ ap (drop (length (packet_of all))) h
          ∙ drop-append (packet_of all) rest,
    )
