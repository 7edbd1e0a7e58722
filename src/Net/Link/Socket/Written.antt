-- ===== src/Net/Link/Socket/Written.antt =====
-- What `write` leaves in the output.
use geminidb.Prelude.{
  ℕ, zero, suc, ◌+◌, ◌≡◌, refl, ap, ◌∙◌, Bool, true, false, Bool-cases, inl, inr, List, [], ◌∷◌,
  Octets, length, drop, ltb, ◌==◌, if◌then◌else◌, arith,
}
use geminidb.Prelude.Int.{ℤ, pos, negsuc}
use geminidb.Util.Buffer.{Buffer, decr, nice}
use geminidb.Net.Link.Socket.{
  Writing, accepted, write_interrupted, write_would_block, write_failed, write_loop, write,
}

pub drop-drop : (a b : ℕ) (s : Octets) → drop b (drop a s) ≡ drop (a + b) s
drop-drop zero b s = let same : b ≡ 0 + b = omega arith in ap (λ n. drop n s) same
drop-drop (suc a) b (c ∷ s) =
    let same : suc (a + b) ≡ suc a + b = omega arith in
    drop-drop a b s ∙ ap (λ n. drop n (c ∷ s)) same
drop-drop (suc a) zero [] = let same : suc a ≡ suc a + 0 = omega arith in ap (λ n. drop n []) same
drop-drop (suc a) (suc b) [] =
    let same : suc (a + suc b) ≡ suc a + suc b = omega arith in ap (λ n. drop n []) same

-- Some bytes have gone from the front; a result that is not negative counts them.
abbrev pub Left : ℕ → Buffer → ℤ × Buffer → Type 0
Left ret output (pos m, left) = (k : ℕ) × (m ≡ ret + k) × (left.bytes ≡ drop k output.bytes)
Left ret output (negsuc m, left) = (k : ℕ) × (left.bytes ≡ drop k output.bytes)

Left-decr :
    (ret len : ℕ) (output : Buffer) (r : ℤ × Buffer)
    → Left (ret + len) (decr len output) r
    → Left ret output r
unfolding decr
Left-decr ret len output (pos m, left) (k, e, h) =
    (len + k, omega arith, h ∙ drop-drop len k output.bytes)
Left-decr ret len output (negsuc m, left) (k, h) = (len + k, h ∙ drop-drop len k output.bytes)

write_loop-Left :
    (noblock : Bool) (ret : ℕ) (output : Buffer) (ws : List Writing)
    → Left ret output (write_loop noblock ret output ws)
unfolding write_loop
write_loop-Left noblock ret output [] = (0, omega arith, refl)
write_loop-Left noblock ret output (write_would_block ∷ ws) = (0, omega arith, refl)
write_loop-Left noblock ret output (write_failed ∷ ws) =
    elim (Bool-cases (length output.bytes == 0)) [
      | inl e ↦ rw e (0, omega arith, refl)
      | inr e ↦ rw e (0, refl)
    ]
write_loop-Left noblock ret output (write_interrupted ∷ ws) =
    elim (Bool-cases (length output.bytes == 0)) [
      | inl e ↦ rw e (0, omega arith, refl)
      | inr e ↦ rw e (write_loop-Left noblock ret output ws)
    ]
write_loop-Left noblock ret output (accepted n ∷ ws) =
    let len = if ltb n (length output.bytes) then n else length output.bytes in
    let rest : Left ret output (write_loop noblock (ret + len) (decr len output) ws) =
      Left-decr ret len output (write_loop noblock (ret + len) (decr len output) ws)
        (write_loop-Left noblock (ret + len) (decr len output) ws) in
    let once : Left ret output (pos (ret + len), decr len output) =
      Left-decr ret len output (pos (ret + len), decr len output) (0, omega arith, refl) in
    elim (Bool-cases (len == 0)) [
      | inl e ↦ rw e (0, omega arith, refl)
      | inr e ↦ rw e (
          either noblock (write_loop noblock (ret + len) (decr len output) ws)
            (pos (ret + len), decr len output) rest once)
    ]
  where
    either :
        (b : Bool) (r r' : ℤ × Buffer)
        → Left ret output r
        → Left ret output r'
        → Left ret output (if b then r else r')
    either true r r' h h' = h
    either false r r' h h' = h'

pub nice-bytes : (b : Buffer) → (nice b).bytes ≡ b.bytes
unfolding nice
nice-bytes b = ground arith

-- Whatever the socket answers, `write` takes bytes from the front of the output only, and a result
-- that is not -1 is their number.
pub write-Left :
    (noblock : Bool) (output : Buffer) (ws : List Writing) → Left 0 output (write noblock output ws)
unfolding write
write-Left noblock output ws =
    niced (write_loop noblock 0 output ws) (write_loop-Left noblock 0 output ws)
  where
    niced :
        (r : ℤ × Buffer)
        → Left 0 output r
        → Left 0 output (r.0, elim r.0 [ pos n ↦ nice r.1 | negsuc n ↦ r.1 ])
    niced (pos m, left) (k, e, h) = (k, e, nice-bytes left ∙ h)
    niced (negsuc m, left) h = h
