-- ===== src/Net/Link/Socket/Taken.antt =====
-- What `write` does where a call fails or not, and the most that it takes.
use geminidb.Prelude.{
  ℕ, ◌+◌, ◌≤◌, ◌≡◌, refl, ◌∙◌, Bool, true, false, Bool-cases, inl, inr, List, [], ◌∷◌, length, drop,
  ltb, ◌==◌, if◌then◌else◌, arith,
}
use geminidb.Prelude.Int.{ℤ, pos, negsuc, minus_one}
use geminidb.Util.Buffer.{Buffer, decr, nice}
use geminidb.Net.Link.Socket.{
  Writing, accepted, write_interrupted, write_would_block, write_failed, write_loop, write,
}
use geminidb.Net.Link.Socket.Written.{drop-drop, nice-bytes}

-- Some call of the system fails.
abbrev pub fails : List Writing → Bool
fails [] = false
fails (accepted n ∷ ws) = fails ws
fails (write_interrupted ∷ ws) = fails ws
fails (write_would_block ∷ ws) = fails ws
fails (write_failed ∷ ws) = true

abbrev pub is_refused : ℤ → Bool
is_refused (pos n) = false
is_refused (negsuc n) = true

taken_of :
    (b : Bool) (r r' : ℤ × Buffer)
    → is_refused r.0 ≡ false
    → is_refused r'.0 ≡ false
    → is_refused (if b then r else r').0 ≡ false
taken_of true r r' h h' = h
taken_of false r r' h h' = h'

write_loop-taken :
    (noblock : Bool) (ret : ℕ) (output : Buffer) (ws : List Writing)
    → fails ws ≡ false
    → is_refused (write_loop noblock ret output ws).0 ≡ false
unfolding write_loop
write_loop-taken noblock ret output [] h = refl
write_loop-taken noblock ret output (write_would_block ∷ ws) h = refl
write_loop-taken noblock ret output (write_failed ∷ ws) h = absurd (ground (arith, h))
write_loop-taken noblock ret output (write_interrupted ∷ ws) h =
    taken_of (length output.bytes == 0) (pos ret, output) (write_loop noblock ret output ws) refl
      (write_loop-taken noblock ret output ws h)
write_loop-taken noblock ret output (accepted n ∷ ws) h =
    let len = if ltb n (length output.bytes) then n else length output.bytes in
    let rest = write_loop noblock (ret + len) (decr len output) ws in
    let once : ℤ × Buffer = (pos (ret + len), decr len output) in
    taken_of (len == 0) (pos ret, output) (if noblock then rest else once) refl
      (taken_of noblock rest once (write_loop-taken noblock (ret + len) (decr len output) ws h)
        refl)

-- `write` returns -1 only where a call of the system fails.
pub write-fails :
    (noblock : Bool) (output : Buffer) (ws : List Writing)
    → is_refused (write noblock output ws).0 ≡ true
    → fails ws ≡ true
unfolding write
write-fails noblock output ws refused = elim (Bool-cases (fails ws)) [
  | inl e ↦ e
  | inr e ↦ absurd (ground (arith, refused, write_loop-taken noblock 0 output ws e))
]

-- How many bytes the calls take at most.
abbrev pub offered : List Writing → ℕ
offered [] = 0
offered (accepted n ∷ ws) = n + offered ws
offered (write_interrupted ∷ ws) = offered ws
offered (write_would_block ∷ ws) = offered ws
offered (write_failed ∷ ws) = offered ws

abbrev pub Sent : ℕ → Buffer → ℤ × Buffer → Type 0
Sent most output r = (k : ℕ) × (k ≤ most) × (r.1.bytes ≡ drop k output.bytes)

either :
    (most : ℕ) (output : Buffer) (b : Bool) (r r' : ℤ × Buffer)
    → Sent most output r
    → Sent most output r'
    → Sent most output (if b then r else r')
either most output true r r' h h' = h
either most output false r r' h h' = h'

least : (n m : ℕ) → (if ltb n m then n else m) ≤ n
least n m = ground arith

write_loop-Sent :
    (noblock : Bool) (ret : ℕ) (output : Buffer) (ws : List Writing)
    → Sent (offered ws) output (write_loop noblock ret output ws)
unfolding write_loop decr
write_loop-Sent noblock ret output [] = (0, omega arith, refl)
write_loop-Sent noblock ret output (write_would_block ∷ ws) = (0, omega arith, refl)
write_loop-Sent noblock ret output (write_failed ∷ ws) =
    either (offered ws) output (length output.bytes == 0) (pos ret, output) (minus_one, output)
      (0, omega arith, refl) (0, omega arith, refl)
write_loop-Sent noblock ret output (write_interrupted ∷ ws) =
    either (offered ws) output (length output.bytes == 0) (pos ret, output)
      (write_loop noblock ret output ws) (0, omega arith, refl)
      (write_loop-Sent noblock ret output ws)
write_loop-Sent noblock ret output (accepted n ∷ ws) =
    let len = if ltb n (length output.bytes) then n else length output.bytes in
    let rest = write_loop noblock (ret + len) (decr len output) ws in
    let once : ℤ × Buffer = (pos (ret + len), decr len output) in
    let most = n + offered ws in
    let small = least n (length output.bytes) in
    let (k, few, h) = write_loop-Sent noblock (ret + len) (decr len output) ws in
    either most output (len == 0) (pos ret, output) (if noblock then rest else once)
      (0, omega arith, refl)
      (either most output noblock rest once
        (len + k, omega (arith, few, small), h ∙ drop-drop len k output.bytes)
        (len, omega (arith, small), refl))

-- `write` takes no more bytes than the calls of the system, and from the front.
pub write-Sent :
    (noblock : Bool) (output : Buffer) (ws : List Writing)
    → Sent (offered ws) output (write noblock output ws)
unfolding write
write-Sent noblock output ws =
    niced (write_loop noblock 0 output ws) (write_loop-Sent noblock 0 output ws)
  where
    niced :
        (r : ℤ × Buffer)
        → Sent (offered ws) output r
        → Sent (offered ws) output (r.0, elim r.0 [ pos n ↦ nice r.1 | negsuc n ↦ r.1 ])
    niced (pos m, left) (k, few, h) = (k, few, nice-bytes left ∙ h)
    niced (negsuc m, left) h = h
