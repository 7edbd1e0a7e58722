-- ===== src/Util/Bytes/Order.antt =====
-- The comparisons are those of the order of words in a dictionary.
use geminidb.Prelude.{
  ℕ, zero, suc, ◌≡◌, refl, sym, ap, ◌∙◌, ◌↔◌, inl, inr, Bool, true, false, Bool-cases, [], ◌∷◌,
  Octets, length, ltb, ◌==◌, ◌&&◌, if◌then◌else◌, arith,
}
use native.Mathlib.Decide.{ℕ_discrete}
use geminidb.Prelude.Int.{ℤ, pos, negsuc, minus_one, negated, int_eq}
use geminidb.Util.Bytes.{memcmp, compare, eq}

-- The first bytes that differ decide, and the shorter word comes first where there are none.
abbrev lex : Octets → Octets → ℤ
lex [] [] = pos 0
lex [] (d ∷ y) = minus_one
lex (c ∷ x) [] = pos 1
lex (c ∷ x) (d ∷ y) =
    let rest = lex x y in if ltb c d then minus_one else if ltb d c then pos 1 else rest

abbrev least : Octets → Octets → ℕ
least x y = if ltb (length x) (length y) then length x else length y

abbrev by_length : Octets → Octets → ℤ → ℤ
by_length x y r =
    if int_eq r (pos 0)
    then (if ltb (length x) (length y)
        then minus_one
        else if ltb (length y) (length x)
        then pos 1
        else r)
    else r

least-suc : (c d : ℕ) (x y : Octets) → least (c ∷ x) (d ∷ y) ≡ suc (least x y)
least-suc c d x y = ground arith

by_length-suc : (c d : ℕ) (x y : Octets) (r : ℤ) → by_length (c ∷ x) (d ∷ y) r ≡ by_length x y r
by_length-suc c d x y r = ground arith

memcmp-head :
    (n c d : ℕ) (x y : Octets)
    → memcmp (suc n) (c ∷ x) (d ∷ y)
      ≡ (if ltb c d then minus_one else if ltb d c then pos 1 else memcmp n x y)
unfolding memcmp
memcmp-head n c d x y = refl

compare-lex : (x y : Octets) → compare x y ≡ lex x y
unfolding compare memcmp
compare-lex [] [] = refl
compare-lex [] (d ∷ y) = ground arith
compare-lex (c ∷ x) [] = ground arith
compare-lex (c ∷ x) (d ∷ y) =
    ap (λ n. by_length (c ∷ x) (d ∷ y) (memcmp n (c ∷ x) (d ∷ y))) (least-suc c d x y)
    ∙ by_length-suc c d x y (memcmp (suc (least x y)) (c ∷ x) (d ∷ y))
    ∙ elim (Bool-cases (ltb c d)) [
      | inl e ↦ rw e refl
      | inr e ↦ elim (Bool-cases (ltb d c)) [
        | inl h ↦ rw (e, h) refl
        | inr h ↦ rw (e, h) (compare-lex x y)
      ]
    ]

lex-swap : (x y : Octets) → lex y x ≡ negated (lex x y)
lex-swap [] [] = refl
lex-swap [] (d ∷ y) = refl
lex-swap (c ∷ x) [] = refl
lex-swap (c ∷ x) (d ∷ y) = ground (arith, lex-swap x y)

lex_refl : (x : Octets) → lex x x ≡ pos 0
lex_refl [] = refl
lex_refl (c ∷ x) = ground (arith, lex_refl x)

cons_eq : (c d : ℕ) (x y : Octets) → c ≡ d → x ≡ y → (c ∷ x) ≡ (d ∷ y)
cons_eq c d x y e h = ap (λ n. n ∷ x) e ∙ ap (λ s. d ∷ s) h

lex-zero : (x y : Octets) → lex x y ≡ pos 0 → x ≡ y
lex-zero [] [] h = refl
lex-zero [] (d ∷ y) h = absurd (ground (arith, h))
lex-zero (c ∷ x) [] h = absurd (ground (arith, h))
lex-zero (c ∷ x) (d ∷ y) h = elim (Bool-cases (ltb c d)) [
  | inl e ↦ absurd (ground (arith, h, e))
  | inr e ↦ elim (Bool-cases (ltb d c)) [
    | inl e' ↦ absurd (ground (arith, h, e, e'))
    | inr e' ↦ cons_eq c d x y (ground (arith, e, e')) (lex-zero x y (ground (arith, h, e, e')))
  ]
]

lex_trans : (x y z : Octets) → lex x y ≡ minus_one → lex y z ≡ minus_one → lex x z ≡ minus_one
lex_trans [] [] [] h h' = absurd (ground (arith, h))
lex_trans [] (d ∷ y) [] h h' = absurd (ground (arith, h'))
lex_trans [] y (e ∷ z) h h' = refl
lex_trans (c ∷ x) [] z h h' = absurd (ground (arith, h))
lex_trans (c ∷ x) (d ∷ y) [] h h' = absurd (ground (arith, h'))
lex_trans (c ∷ x) (d ∷ y) (e ∷ z) h h' = ground (arith, h, h', lex_trans x y z)

sign_lem :
    (x y : Octets) (r : ℤ) → (length x ≡ length y → ⊥) → int_eq (by_length x y r) (pos 0) ≡ false
sign_lem x y (pos zero) other = ground (arith, other)
sign_lem x y (pos (suc n)) other = ground arith
sign_lem x y (negsuc n) other = refl

same_length : (x y : Octets) (r : ℤ) → length x ≡ length y → by_length x y r ≡ r
same_length x y r e = ground (arith, e)

-- `operator==` and the comparison with 0, of `BytesEqual`.
eq-compare : (x y : Octets) → eq x y ≡ int_eq (compare x y) (pos 0)
unfolding eq compare
eq-compare x y = elim (ℕ_discrete (length x) (length y)) [
  | yes same ↦
      let shorter : least x y ≡ length x = ground (arith, same) in
      let equal : (length x == length y) ≡ true = ground (arith, same) in
      ap (λ b. b && int_eq (memcmp (length x) x y) (pos 0)) equal
      ∙ ap (λ r. int_eq r (pos 0)) (sym (same_length x y (memcmp (length x) x y) same))
      ∙ ap (λ n. int_eq (by_length x y (memcmp n x y)) (pos 0)) (sym shorter)
  | no other ↦
      let differ : (length x == length y) ≡ false = ground (arith, other) in
      ap (λ b. b && int_eq (memcmp (length x) x y) (pos 0)) differ
      ∙ sym (sign_lem x y (memcmp (least x y) x y) other)
]

-- A total order, with the test for equality that goes with it.
pub record IsOrder (cmp : Octets → Octets → ℤ) (equal : Octets → Octets → Bool) : Type 0 where
  pub same : (x y : Octets) → (cmp x y ≡ pos 0) ↔ (x ≡ y)
  pub swapped : (x y : Octets) → cmp y x ≡ negated (cmp x y)
  pub chained : (x y z : Octets) → cmp x y ≡ minus_one → cmp y z ≡ minus_one → cmp x z ≡ minus_one
  pub tested : (x y : Octets) → equal x y ≡ int_eq (cmp x y) (pos 0)

-- `compare` is a total order of the byte strings: it gives 0 for equal ones only, the opposite for
-- the arguments swapped, and less for the ends of a chain of two that are less; and `operator==`
-- tells what the comparison with 0 tells.
pub compare-IsOrder : IsOrder compare eq
compare-IsOrder = record {
  same = λ x y. (
    λ h. lex-zero x y (sym (compare-lex x y) ∙ h),
    λ e. compare-lex x y ∙ ap (lex x) (sym e) ∙ lex_refl x,
  );
  swapped = λ x y. compare-lex y x ∙ lex-swap x y ∙ ap negated (sym (compare-lex x y));
  chained = λ x y z h h'.
      compare-lex x z ∙ lex_trans x y z (sym (compare-lex x y) ∙ h) (sym (compare-lex y z) ∙ h');
  tested = eq-compare;
}
