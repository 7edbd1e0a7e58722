-- ===== src/Net/Select/Ready.antt =====
-- What `wait` finds: the descriptors that `select` left in a set.
use geminidb.Prelude.{
  ℕ, zero, suc, ◌+◌, ◌<◌, ◌≤◌, ◌≡◌, refl, sym, subst, ap, ◌∙◌, ◌↔◌, ◌⊎◌, inl, inr, Bool, true,
  false, ◌||◌, Bool-cases, some, List, [], ◌∷◌, Any, set, if◌then◌else◌, arith,
}
use native.Mathlib.Decide.{ℕ_discrete}
use geminidb.Net.Fdevents.{Mask, any, Fdevent, entry}
use geminidb.Net.Select.{Selects, collect, ready_mask, watched_to, selected, wait}
use geminidb.Net.Select.Tracked.{IsTracked}

abbrev bit : Bool → ℕ
bit true = 1
bit false = 0

abbrev pub IsIn : ℕ → List ℕ → Type 0
IsIn fd l = Any (λ i. i ≡ fd) l

IsIn-if :
    (b : Bool) (i fd : ℕ) (l : List ℕ)
    → IsIn fd (if b then i ∷ l else l)
    → ((b ≡ true) × (i ≡ fd)) ⊎ IsIn fd l
IsIn-if true i fd l (inl e) = inl (refl, e)
IsIn-if true i fd l (inr h) = inr h
IsIn-if false i fd l h = inr h

at_first : (b : Bool) (i : ℕ) (l : List ℕ) → b ≡ true → IsIn i (if b then i ∷ l else l)
at_first true i l e = inl refl
at_first false i l e = absurd (ground (arith, e))

further : (b : Bool) (i fd : ℕ) (l : List ℕ) → IsIn fd l → IsIn fd (if b then i ∷ l else l)
further true i fd l h = inr h
further false i fd l h = h

module _ (r w : ℕ → Bool) where
  -- The bits of both sets, from a descriptor on, which `select` counts.
  abbrev pub bits_from : ℕ → ℕ → ℕ
  bits_from zero i = 0
  bits_from (suc rounds) i = bit (r i) + bit (w i) + bits_from rounds (suc i)

  abbrev ready_from : ℕ → ℕ → List ℕ
  ready_from zero i = []
  ready_from (suc rounds) i =
      let rest = ready_from rounds (suc i) in if r i || w i then i ∷ rest else rest

  no_bits : (rounds i : ℕ) → bits_from rounds i ≤ 0 → ready_from rounds i ≡ []
  no_bits zero i h = refl
  no_bits (suc rounds) i h =
      let none_here : (r i || w i) ≡ false = ground (arith, h) in
      rw none_here (no_bits rounds (suc i) (ground (arith, h)))

  one_bit : (a b : Bool) → (a || b) ≡ true → 1 ≤ bit a + bit b
  one_bit a b h = ground arith

  -- The loop that stops after as many entries as `select` counted has found them all.
  collect-ready :
      (rounds i left : ℕ) (table : List Fdevent)
      → bits_from rounds i ≤ left
      → (collect rounds i left r w table).0 ≡ ready_from rounds i
  unfolding collect
  collect-ready zero i left table h = refl
  collect-ready (suc rounds) i zero table h = sym (no_bits (suc rounds) i h)
  collect-ready (suc rounds) i (suc left) table h =
      let marked = set table i (record (entry i table) { events = ready_mask (r i) (w i) }) in
      elim (Bool-cases (r i || w i)) [
        | inl e ↦ rw e (
            ap (λ l. i ∷ l)
              (collect-ready rounds (suc i) left marked (omega (arith, h, one_bit (r i) (w i) e))))
        | inr e ↦ rw e (collect-ready rounds (suc i) (suc left) marked (omega (arith, h)))
      ]

  listed : (rounds i fd : ℕ) → IsIn fd (ready_from rounds i) → (r fd || w fd) ≡ true
  listed zero i fd h = elim h [ ]
  listed (suc rounds) i fd h = elim (IsIn-if (r i || w i) i fd (ready_from rounds (suc i)) h) [
    | inl (e, same) ↦ subst (λ j. (r j || w j) ≡ true) same e
    | inr at ↦ listed rounds (suc i) fd at
  ]

  lists :
      (rounds i fd : ℕ)
      → i ≤ fd
      → fd < i + rounds
      → (r fd || w fd) ≡ true
      → IsIn fd (ready_from rounds i)
  lists zero i fd low high e = absurd (omega arith)
  lists (suc rounds) i fd low high e = elim (ℕ_discrete i fd) [
    | yes same ↦
        subst (λ j. IsIn j (ready_from (suc rounds) i)) same
          (at_first (r i || w i) i (ready_from rounds (suc i))
            (subst (λ j. (r j || w j) ≡ true) (sym same) e))
    | no other ↦
        further (r i || w i) i fd (ready_from rounds (suc i))
          (lists rounds (suc i) fd (omega (arith, other)) (omega arith) e)
  ]

  some_flag :
      (m : Mask) (a b : Bool)
      → (a || b) ≡ true
      → (a ≡ true → m.in_bit ≡ true)
      → (b ≡ true → m.out_bit ≡ true)
      → any m ≡ true
  some_flag m true b e reads writes = ground (arith, reads refl)
  some_flag m false b e reads writes = ground (arith, writes e)

  -- In the variant over `select`, where the sets and `maxfd` fit the table, `wait` returns the
  -- descriptors that `select` left in one of the sets, and no others, if these are among the
  -- descriptors that it was given and its result counts their bits.
  pub wait-Ready :
      (s : Selects) (ret : ℕ)
      → IsTracked s
      → ((fd : ℕ) → r fd ≡ true → s.readset fd ≡ true)
      → ((fd : ℕ) → w fd ≡ true → s.writeset fd ≡ true)
      → ret ≡ bits_from (watched_to s.maxfd) 0
      → (ready : List ℕ) × ((wait (selected ret r w) s).0 ≡ some ready)
        × ((fd : ℕ) → IsIn fd ready ↔ ((r fd || w fd) ≡ true))
  unfolding wait
  wait-Ready s ret tracked reads writes counted = (
    ready_from (watched_to s.maxfd) 0,
    ap (λ l. some l) (collect-ready (watched_to s.maxfd) 0 ret s.table (omega (arith, counted))),
    λ fd. (
      listed (watched_to s.maxfd) 0 fd,
      λ e.
          lists (watched_to s.maxfd) 0 fd (omega arith)
            (omega (
              arith,
              tracked.covered fd (
                  some_flag (entry fd s.table).s_flags (r fd) (w fd) e
                    (λ h. sym (tracked.reads fd) ∙ reads fd h)
                    (λ h. sym (tracked.writes fd) ∙ writes fd h)),
            ))
            e,
    ),
  )
