-- ===== src/Net/Select/Cleared.antt =====
-- `del` and `clr`, which lower `maxfd`, and where `clr` leaves the table.
use geminidb.Prelude.{
  ℕ, ◌<◌, ◌≡◌, refl, sym, subst, ap, ◌∙◌, inl, inr, Bool, true, false, not, Bool-cases, Option,
  none, some, ◌>>=◌, List, set, ◌&&◌, leb, if◌then◌else◌, arith, ◌↔◌,
}
use geminidb.Prelude.Int.{ℤ, pos, negsuc}
use geminidb.Net.Fdevents.{Mask, fdevent_none, both, without, any, Fdevent, get_fde, entry}
use geminidb.Net.Select.{Selects, put_fd, lowered, del, found_flag, clr, watched_to}
use geminidb.Net.Select.Tracked.{
  IsFlagged, HasLead, IsTracked, put_all, lowered_from-covered, lowered_from-HasLead,
}
use geminidb.Net.Select.Kept.{same_table, and_not_bit, any-without, fde, own_flags, set_of}

lowered-covered :
    (m : ℤ) (table : List Fdevent)
    → ((i : ℕ) → IsFlagged i table → i < watched_to m)
    → (i : ℕ) → IsFlagged i table
    → i < watched_to (lowered m table)
unfolding lowered
lowered-covered (pos m) table h = lowered_from-covered m table h
lowered-covered (negsuc n) table h = h

lowered-HasLead : (m : ℤ) (table : List Fdevent) → HasLead (lowered m table) table
unfolding lowered
lowered-HasLead (pos m) table = lowered_from-HasLead m table
lowered-HasLead (negsuc n) table = tt

abbrev pub Kept : Option (ℤ × Selects) → Type 0
Kept none = Unit
Kept (some r) = IsTracked r.1

one_of : (b : Bool) (o o' : Option (ℤ × Selects)) → Kept o → Kept o' → Kept (if b then o else o')
one_of true o o' h h' = h
one_of false o o' h h' = h'

pub del-Kept : (fd_setsize fd : ℕ) (s : Selects) → IsTracked s → Kept (del fd_setsize fd s)
unfolding del
del-Kept fd_setsize fd s tracked =
    let x : Fdevent = record (fde fd fdevent_none s tracked) { s_flags = fdevent_none } in
    let table = set (get_fde fd s.table) fd x in
    one_of (leb fd_setsize fd) none (some (pos 0, _)) tt (record {
      reads =
          set_of fd fdevent_none s tracked true false s.readset x (λ m. m.in_bit) tracked.reads
            refl;
      writes =
          set_of fd fdevent_none s tracked true false s.writeset x (λ m. m.out_bit) tracked.writes
            refl;
      covered = lowered-covered s.maxfd table (
          put_all fd s.table x (λ i e. any e.s_flags ≡ true → i < watched_to s.maxfd)
            (λ h. absurd (ground (arith, h))) (λ i ne h. tracked.covered i h));
      lead = lowered-HasLead s.maxfd table;
    })

module _ (fd : ℕ) (flags : Mask) (s : Selects) (tracked : IsTracked s) where
  abbrev gone : Mask
  gone = without (fde fd flags s tracked).s_flags flags

  abbrev x : Fdevent
  x = record (fde fd flags s tracked) { s_flags = gone }

  -- The table behind a `clr` that finds a flag to clear.
  abbrev pub cleared : List Fdevent
  cleared = set (get_fde fd s.table) fd x

  still_covered : (i : ℕ) → IsFlagged i cleared → i < watched_to s.maxfd
  still_covered =
      put_all fd s.table x (λ i e. any e.s_flags ≡ true → i < watched_to s.maxfd)
        (λ h. tracked.covered fd (
          subst (λ m. any m ≡ true) (own_flags fd flags s tracked)
            (any-without (fde fd flags s tracked).s_flags flags h)))
        (λ i ne h. tracked.covered i h)

  found-Kept :
      (m : ℤ)
      → lowered s.maxfd cleared ≡ m
      → Kept (
          found_flag m >>= λ maxfd. some (
            pos 0,
            record {
              maxfd = maxfd;
              readset = put_fd flags.in_bit fd false s.readset;
              writeset = put_fd flags.out_bit fd false s.writeset;
              table = cleared;
            },
          ))
  unfolding found_flag
  found-Kept (pos m) e = record {
    reads =
        set_of fd flags s tracked flags.in_bit false s.readset x (λ m. m.in_bit) tracked.reads
          (and_not_bit (entry fd s.table).s_flags.in_bit flags.in_bit
            ∙ ap (λ m. m.in_bit && not flags.in_bit) (sym (own_flags fd flags s tracked)));
    writes =
        set_of fd flags s tracked flags.out_bit false s.writeset x (λ m. m.out_bit) tracked.writes
          (and_not_bit (entry fd s.table).s_flags.out_bit flags.out_bit
            ∙ ap (λ m. m.out_bit && not flags.out_bit) (sym (own_flags fd flags s tracked)));
    covered =
        λ i h. subst (λ m. i < watched_to m) e (lowered-covered s.maxfd cleared still_covered i h);
    lead = subst (λ m. HasLead m cleared) e (lowered-HasLead s.maxfd cleared);
  }
  found-Kept (negsuc n) e = tt

  pub clr-Kept : Kept (clr fd flags s)
  unfolding clr
  clr-Kept =
      one_of (any (both (fde fd flags s tracked).s_flags flags)) _
        (some (pos 0, record s { table = get_fde fd s.table }))
        (found-Kept (lowered s.maxfd cleared) refl) (same_table fd s tracked)

  nothing_found :
      (m : ℤ)
      → lowered s.maxfd cleared ≡ m
      → (found_flag m ≡ none) ↔ ((i : ℕ) → any (entry i cleared).s_flags ≡ false)
  unfolding found_flag
  nothing_found (pos m) e = (
    λ h. absurd (ground (arith, h)),
    λ h.
        absurd
          (ground (arith, h m, subst (λ k. HasLead k cleared) e (lowered-HasLead s.maxfd cleared))),
  )
  nothing_found (negsuc n) e = (
    λ h i. elim (Bool-cases (any (entry i cleared).s_flags)) [
      | inl flagged ↦ absurd (
          omega (
            arith,
            subst (λ k. i < watched_to k) e
                (lowered-covered s.maxfd cleared still_covered i flagged),
          ))
      | inr bare ↦ bare
    ],
    λ h. refl,
  )

  bound_none :
      {A B : Type 0} (o : Option A) (g : A → B) → ((o >>= λ a. some (g a)) ≡ none) ↔ (o ≡ none)
  bound_none none g = (λ h. refl, λ h. refl)
  bound_none (some a) g = (λ h. absurd (ground (arith, h)), λ h. absurd (ground (arith, h)))

  -- In the variant over `select`, where the sets and `maxfd` fit the table, a `clr` of a flag that
  -- is set reads the table out of bounds exactly if no descriptor has a flag behind it.
  pub clr-none :
      any (both (entry fd s.table).s_flags flags) ≡ true
      → (clr fd flags s ≡ none) ↔ ((i : ℕ) → any (entry i cleared).s_flags ≡ false)
  unfolding clr
  clr-none some_flag =
      let h : any (both (fde fd flags s tracked).s_flags flags) ≡ true =
        ap (λ m. any (both m flags)) (own_flags fd flags s tracked) ∙ some_flag in
      let g : ℤ → ℤ × Selects = λ maxfd. (
        pos 0,
        record {
          maxfd = maxfd;
          readset = put_fd flags.in_bit fd false s.readset;
          writeset = put_fd flags.out_bit fd false s.writeset;
          table = cleared;
        },
      ) in
      let bare = nothing_found (lowered s.maxfd cleared) refl in
      let whole = bound_none (found_flag (lowered s.maxfd cleared)) g in
      rw h (λ e. bare.0 (whole.0 e), λ e. whole.1 (bare.1 e))
