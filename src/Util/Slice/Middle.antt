-- ===== src/Util/Slice/Middle.antt =====
-- The ways to name one part of a text.
use geminidb.Prelude.{
  All, ℕ, suc, zero, false, ◌+◌, ◌-◌, ◌^◌, ◌<◌, ◌≡◌, ap, ◌∙◌, some, [], ◌∷◌, ◌++◌, Octets, length,
  length-append, take-append, drop-append, leb, arith,
}
use geminidb.Prelude.Int.{ℤ, pos, negsuc, ◌+ℤ◌, negated, int_of_sum}
use geminidb.Util.Slice.{size_of, start_of, cut, substr_size, substr, slice_size, str_slice}

-- `-n`, of a number above 0
abbrev pub minus : ℕ → ℤ
minus n = negsuc (n - 1)

cut-middle :
    (xs ys zs : Octets)
    → 0 < length ys
    → cut (xs ++ (ys ++ zs)) (pos (length xs)) (pos (length ys)) ≡ ys
unfolding cut
cut-middle xs ys zs filled =
    let longer : leb (length (xs ++ (ys ++ zs))) (length xs) ≡ false =
      ground (arith, length-append xs (ys ++ zs), length-append ys zs) in
    rw (longer, drop-append xs (ys ++ zs)) (take-append ys zs)

size_of_lem : (str : Octets) → length str < 2 ^ 31 → size_of str ≡ pos (length str)
size_of_lem str small = ground arith

-- Sums of ints whose result is not negative.
taken : (n k a : ℕ) → n ≡ a + k → 0 < k → n < 2 ^ 31 → int_of_sum (pos n +ℤ minus k) ≡ some (pos a)
taken n k a e h small = ground arith

taken_negated :
    (n k a : ℕ) → n ≡ a + k → n < 2 ^ 31 → int_of_sum (pos n +ℤ negated (pos k)) ≡ some (pos a)
taken_negated n zero a e small = ground arith
taken_negated n (suc k) a e small = ground arith

one_more : (a : ℕ) → 1 + a < 2 ^ 31 → int_of_sum (pos a +ℤ pos 1) ≡ some (pos (1 + a))
one_more a small = ground arith

-- The bytes between the others, of a text whose length is an `int`.
module _ (xs ys zs : Octets) (filled : 0 < length ys)
    (small : length (xs ++ (ys ++ zs)) < 2 ^ 31) where
  abbrev str : Octets
  str = xs ++ (ys ++ zs)

  total : length str ≡ length xs + (length ys + length zs)
  total = omega (arith, length-append xs (ys ++ zs), length-append ys zs)

  from_back : start_of str (minus (length ys + length zs)) ≡ some (pos (length xs))
  unfolding start_of
  from_back =
      rw (size_of_lem str small)
        (taken (length str) (length ys + length zs) (length xs) total (omega arith) small)

  size_from_back :
      0 < length zs → substr_size str (pos (length xs)) (minus (length zs)) ≡ some (pos (length ys))
  unfolding substr_size
  size_from_back more =
      rw
        (
          size_of_lem str small,
          taken (length str) (length zs) (length xs + length ys) (omega (arith, total)) more small,
        )
        (taken_negated (length xs + length ys) (length xs) (length ys) (omega arith)
          (omega (arith, total)))

  end_from_front :
      slice_size str (pos (length xs)) (pos (length xs + length ys - 1)) ≡ some (pos (length ys))
  unfolding slice_size
  end_from_front =
      rw
        (taken_negated (length xs + length ys - 1) (length xs) (length ys - 1) (omega arith)
          (omega (arith, total)))
        (one_more (length ys - 1) (omega (arith, total)) ∙ ap (λ n. some (pos n)) (omega arith))

  end_from_back : slice_size str (pos (length xs)) (minus (length zs + 1)) ≡ some (pos (length ys))
  unfolding slice_size
  end_from_back =
      rw
        (
          size_of_lem str small,
          taken (length str) (length zs + 1) (length xs + length ys - 1) (omega (arith, total))
              (omega arith) small,
          one_more (length xs + length ys - 1) (omega (arith, total)),
        )
        (taken_negated (1 + (length xs + length ys - 1)) (length xs) (length ys) (omega arith)
          (omega (arith, total)))

  substr-middle :
      0 < length zs
      → (substr str (pos (length xs)) (pos (length ys)) ≡ some ys)
        × (substr str (minus (length ys + length zs)) (pos (length ys)) ≡ some ys)
        × (substr str (pos (length xs)) (minus (length zs)) ≡ some ys)
        × (substr str (minus (length ys + length zs)) (minus (length zs)) ≡ some ys)
  unfolding substr start_of substr_size
  substr-middle more =
      let found = ap (λ s. some s) (cut-middle xs ys zs filled) in
      (
        found,
        rw from_back found,
        rw (size_from_back more) found,
        rw (from_back, size_from_back more) found,
      )

  str_slice-middle :
      (str_slice str (pos (length xs)) (pos (length xs + length ys - 1)) ≡ some ys)
      × (str_slice str (minus (length ys + length zs)) (pos (length xs + length ys - 1)) ≡ some ys)
      × (str_slice str (pos (length xs)) (minus (length zs + 1)) ≡ some ys)
      × (str_slice str (minus (length ys + length zs)) (minus (length zs + 1)) ≡ some ys)
  unfolding str_slice
  str_slice-middle =
      let found = ap (λ s. some s) (cut-middle xs ys zs filled) in
      (
        rw end_from_front found,
        rw (from_back, end_from_front) found,
        rw end_from_back found,
        rw (from_back, end_from_back) found,
      )

  -- A start from either end, with a size, with a number of bytes to leave out, or with an end from
  -- either end: all give the part between the others.
  pub slices_agree :
      0 < length zs
      → All
          (λ r. r ≡ some ys)
          (substr str (pos (length xs)) (pos (length ys))
            ∷ substr str (minus (length ys + length zs)) (pos (length ys))
            ∷ substr str (pos (length xs)) (minus (length zs))
            ∷ substr str (minus (length ys + length zs)) (minus (length zs))
            ∷ str_slice str (pos (length xs)) (pos (length xs + length ys - 1))
            ∷ str_slice str (minus (length ys + length zs)) (pos (length xs + length ys - 1))
            ∷ str_slice str (pos (length xs)) (minus (length zs + 1))
            ∷ str_slice str (minus (length ys + length zs)) (minus (length zs + 1))
            ∷ [])
  slices_agree more =
      let (a, b, c, d) = substr-middle more in
      let (e, f, g, h) = str_slice-middle in (a, (b, (c, (d, (e, (f, (g, (h, tt))))))))
