-- ===== src/Net/Link/Client/Flushed.antt =====
-- What `flush` leaves, and when it ends.
use geminidb.Prelude.{
  ℕ, ◌+◌, ◌≡◌, ◌≤◌, ◌<◌, refl, sym, subst, ap, ◌∙◌, inl, inr, Bool, true, false, Bool-cases, Option,
  none, some, List, [], ◌∷◌, All, length, length-drop, ltb, ◌==◌, if◌then◌else◌, arith,
}
use geminidb.Prelude.Int.{ℤ, pos, negsuc, minus_one}
use geminidb.Util.Buffer.{Buffer, empty, decr, nice}
use geminidb.Net.Link.Socket.{
  Writing, accepted, write_interrupted, write_would_block, write_failed, write_loop, write,
}
use geminidb.Net.Link.Client.{flush_loop, flush}

-- The bytes that went out of the buffer are those that the result counts.
abbrev Counts : ℕ → Buffer → ℤ × Buffer → Type 0
Counts ret output (pos m, left) = length left.bytes + m ≡ ret + length output.bytes
Counts ret output (negsuc m, left) = Unit

either :
    (ret : ℕ) (output : Buffer) (b : Bool) (r r' : ℤ × Buffer)
    → (b ≡ true → Counts ret output r)
    → (b ≡ false → Counts ret output r')
    → Counts ret output (if b then r else r')
either ret output true r r' h h' = h refl
either ret output false r r' h h' = h' refl

Counts-decr :
    (ret len : ℕ) (output : Buffer) (r : ℤ × Buffer)
    → len ≤ length output.bytes
    → Counts (ret + len) (decr len output) r
    → Counts ret output r
unfolding decr
Counts-decr ret len output (pos m, left) small h = omega (arith, h, length-drop len output.bytes)
Counts-decr ret len output (negsuc m, left) small h = tt

least : (n m : ℕ) → (if ltb n m then n else m) ≤ m
least n m = ground arith

write_loop-Counts :
    (noblock : Bool) (ret : ℕ) (output : Buffer) (ws : List Writing)
    → Counts ret output (write_loop noblock ret output ws)
unfolding write_loop
write_loop-Counts noblock ret output [] = omega arith
write_loop-Counts noblock ret output (write_would_block ∷ ws) = omega arith
write_loop-Counts noblock ret output (write_failed ∷ ws) =
    either ret output (length output.bytes == 0) (pos ret, output) (minus_one, output)
      (λ e. omega arith) (λ e. tt)
write_loop-Counts noblock ret output (write_interrupted ∷ ws) =
    either ret output (length output.bytes == 0) (pos ret, output)
      (write_loop noblock ret output ws) (λ e. omega arith)
      (λ e. write_loop-Counts noblock ret output ws)
write_loop-Counts noblock ret output (accepted n ∷ ws) =
    let len = if ltb n (length output.bytes) then n else length output.bytes in
    let rest = write_loop noblock (ret + len) (decr len output) ws in
    let once : ℤ × Buffer = (pos (ret + len), decr len output) in
    let small = least n (length output.bytes) in
    either ret output (len == 0) (pos ret, output) (if noblock then rest else once)
      (λ e. omega arith)
      (λ e.
        either ret output noblock rest once
          (λ _.
            Counts-decr ret len output rest small
              (write_loop-Counts noblock (ret + len) (decr len output) ws))
          (λ _. Counts-decr ret len output once small (omega arith)))

nice-bytes : (b : Buffer) → (nice b).bytes ≡ b.bytes
unfolding nice
nice-bytes b = ground arith

write-Counts :
    (noblock : Bool) (output : Buffer) (ws : List Writing)
    → Counts 0 output (write noblock output ws)
unfolding write
write-Counts noblock output ws =
    niced (write_loop noblock 0 output ws) (write_loop-Counts noblock 0 output ws)
  where
    niced :
        (r : ℤ × Buffer)
        → Counts 0 output r
        → Counts 0 output (r.0, elim r.0 [ pos n ↦ nice r.1 | negsuc n ↦ r.1 ])
    niced (pos m, left) e = ap (λ b. length b + m) (nice-bytes left) ∙ e
    niced (negsuc m, left) h = h

-- A result that is not negative is the number of all the bytes, and none is left.
abbrev pub IsFlushed : ℕ → Buffer → Option (ℤ × Buffer) → Type 0
IsFlushed len output none = Unit
IsFlushed len output (some (pos n, left)) =
    (n ≡ len + length output.bytes) × (length left.bytes ≡ 0)
IsFlushed len output (some (negsuc n, left)) = Unit

IsFlushed-Counts :
    (len n : ℕ) (output left : Buffer) (o : Option (ℤ × Buffer))
    → Counts 0 output (pos n, left)
    → IsFlushed (len + n) left o
    → IsFlushed len output o
IsFlushed-Counts len n output left none e f = tt
IsFlushed-Counts len n output left (some (pos m, b)) e (total, gone) = (omega arith, gone)
IsFlushed-Counts len n output left (some (negsuc m, b)) e f = tt

whole :
    (len : ℕ) (output : Buffer) (o : Option (ℤ × Buffer))
    → IsFlushed len output o
    → IsFlushed len output (if empty output then some (pos len, output) else o)
whole len output o h = elim (Bool-cases (empty output)) [
  | inl e ↦ rw e (ground (arith, e), ground (arith, e))
  | inr e ↦ rw e h
]

flush_loop-IsFlushed :
    (noblock : Bool) (len : ℕ) (output : Buffer) (wss : List (List Writing))
    → IsFlushed len output (flush_loop noblock len output wss)
unfolding flush_loop
flush_loop-IsFlushed noblock len output [] = whole len output none tt
flush_loop-IsFlushed noblock len output (ws ∷ wss) = whole len output _ (
    round (write noblock output ws) (write-Counts noblock output ws)
      (λ n. flush_loop-IsFlushed noblock (len + n) (write noblock output ws).1 wss))
  where
    round :
        (r : ℤ × Buffer)
        → Counts 0 output r
        → ((n : ℕ) → IsFlushed (len + n) r.1 (flush_loop noblock (len + n) r.1 wss))
        → IsFlushed len output (elim r.0 [
          | pos n ↦ flush_loop noblock (len + n) r.1 wss
          | negsuc n ↦ some (minus_one, r.1)
        ])
    round (pos n, left) e h = IsFlushed-Counts len n output left _ e (h n)
    round (negsuc n, left) e h = tt

-- A socket that blocks until it takes a byte.
abbrev pub Takes : List Writing → Type 0
Takes [] = ⊥
Takes (accepted n ∷ ws) = 0 < n
Takes (write_interrupted ∷ ws) = ⊥
Takes (write_would_block ∷ ws) = ⊥
Takes (write_failed ∷ ws) = ⊥

abbrev niced : ℤ × Buffer → ℤ × Buffer
niced r = (r.0, elim r.0 [ pos n ↦ nice r.1 | negsuc n ↦ r.1 ])

abbrev next : ℕ → List (List Writing) → ℤ × Buffer → Option (ℤ × Buffer)
next len wss r = elim r.0 [
  | pos n ↦ flush_loop false (len + n) r.1 wss
  | negsuc n ↦ some (minus_one, r.1)
]

write_loop-once :
    (output : Buffer) (n len : ℕ) (ws : List Writing)
    → len ≡ (if ltb n (length output.bytes) then n else length output.bytes)
    → (len == 0) ≡ false
    → write_loop false 0 output (accepted n ∷ ws) ≡ (pos (0 + len), decr len output)
unfolding write_loop
write_loop-once output n len ws e h = rw (sym e, h) refl

write-Takes :
    (output : Buffer) (ws : List Writing)
    → Takes ws
    → empty output ≡ false
    → (n : ℕ) × (left : Buffer) × (write false output ws ≡ (pos n, left)) × (0 < n)
unfolding write
write-Takes output [] takes h = elim takes [ ]
write-Takes output (write_interrupted ∷ ws) takes h = elim takes [ ]
write-Takes output (write_would_block ∷ ws) takes h = elim takes [ ]
write-Takes output (write_failed ∷ ws) takes h = elim takes [ ]
write-Takes output (accepted n ∷ ws) takes h =
    let len = if ltb n (length output.bytes) then n else length output.bytes in
    let some_byte : 0 < len = some_of n (length output.bytes) takes (ground (arith, h)) in
    let not_none : (len == 0) ≡ false = ground (arith, some_byte) in
    (
      0 + len,
      nice (decr len output),
      ap niced (write_loop-once output n len ws refl not_none),
      omega (arith, some_byte),
    )
  where
    some_of : (n m : ℕ) → 0 < n → 0 < m → 0 < (if ltb n m then n else m)
    some_of n m hn hm = ground arith

flush_loop-Ends :
    (len : ℕ) (output : Buffer) (wss : List (List Writing))
    → All Takes wss
    → length output.bytes ≤ length wss
    → (m : ℕ) × (left : Buffer) × (flush_loop false len output wss ≡ some (pos m, left))
unfolding flush_loop
flush_loop-Ends len output [] takes h =
    let none_left : empty output ≡ true = ground (arith, h) in (len, output, rw none_left refl)
flush_loop-Ends len output (ws ∷ wss) (takes, more) h = elim (Bool-cases (empty output)) [
  | inl e ↦ (len, output, rw e refl)
  | inr e ↦
      let (n, left, wrote, some_byte) = write-Takes output ws takes e in
      let out : length left.bytes + n ≡ 0 + length output.bytes =
        subst (Counts 0 output) wrote (write-Counts false output ws) in
      let (m, rest, ends) =
        flush_loop-Ends (len + n) left wss more (omega (arith, out, h, some_byte)) in
      (m, rest, rw e (ap (next len wss) wrote ∙ ends))
]

-- `flush` over a link that blocks, to a socket that takes a byte at least in each call, ends within
-- as many calls as there are bytes, returns their number and leaves none.
pub flush-whole :
    (output : Buffer) (wss : List (List Writing))
    → All Takes wss
    → length output.bytes ≤ length wss
    → (left : Buffer) × (flush false output wss ≡ some (pos (length output.bytes), left))
      × (length left.bytes ≡ 0)
unfolding flush
flush-whole output wss takes h =
    let (m, left, ends) = flush_loop-Ends 0 output wss takes h in
    let (total, gone) : (m ≡ 0 + length output.bytes) × (length left.bytes ≡ 0) =
      subst (IsFlushed 0 output) ends (flush_loop-IsFlushed false 0 output wss) in
    (left, ends ∙ ap (λ n. some (pos n, left)) (omega (arith, total)), gone)
