-- ===== src/Net/Select/Kept.antt =====
-- `set`, `del` and `clr` keep the sets and `maxfd` true to the table.
use geminidb.Prelude.{
  ℕ, ◌<◌, ◌≡◌, sym, subst, ap, ◌∙◌, inl, inr, Bool, true, false, not, Bool-cases, List, set, ◌&&◌,
  ◌||◌, ltb, leb, if◌then◌else◌, arith,
}
use geminidb.Prelude.Int.{ℤ, pos, negsuc, minus_one}
use geminidb.Net.Fdevents.{Mask, either, both, without, any, Fdevent, get_fde, entry}
use geminidb.Net.Fdevents.Watched.{entry-get_fde, entry-put}
use geminidb.Net.Select.{Selects, put_fd, raised, set_flags, watched_to}
use geminidb.Net.Select.Tracked.{IsFlagged, HasLead, IsTracked, put_all, put_fd-own, put_fd-other}

pub same_table :
    (fd : ℕ) (s : Selects) → IsTracked s → IsTracked (record s { table = get_fde fd s.table })
same_table fd s tracked = record {
  reads = λ i. rw (entry-get_fde fd i s.table) (tracked.reads i);
  writes = λ i. rw (entry-get_fde fd i s.table) (tracked.writes i);
  covered = λ i flagged.
      tracked.covered i (subst (λ e. any e.s_flags ≡ true) (entry-get_fde fd i s.table) flagged);
  lead = same_lead s.maxfd tracked.lead;
}
  where
    same_lead : (m : ℤ) → HasLead m s.table → HasLead m (get_fde fd s.table)
    same_lead (pos m) h = rw (entry-get_fde fd m s.table) h
    same_lead (negsuc n) h = tt

raised-covers :
    (fd i : ℕ) (m : ℤ)
    → (i < watched_to m → i < watched_to (raised fd m)) × (fd < watched_to (raised fd m))
unfolding raised
raised-covers fd i (pos m) = (λ h. ground arith, ground arith)
raised-covers fd i (negsuc n) = (λ h. absurd (omega arith), omega arith)

-- The greater of the two has a flag behind the put.
raised-HasLead :
    (fd : ℕ) (m : ℤ) (table : List Fdevent)
    → IsFlagged fd table
    → HasLead m table
    → HasLead (raised fd m) table
unfolding raised
raised-HasLead fd (pos m) table own lead = elim (Bool-cases (ltb m fd)) [
  | inl e ↦ rw e own
  | inr e ↦ rw e lead
]
raised-HasLead fd (negsuc n) table own lead = own

HasLead-put :
    (fd : ℕ) (table : List Fdevent) (x : Fdevent) (m : ℤ)
    → any x.s_flags ≡ true
    → HasLead m table
    → HasLead m (set (get_fde fd table) fd x)
HasLead-put fd table x (pos m) flagged lead =
    put_all fd table x (λ i e. IsFlagged i table → any e.s_flags ≡ true) (λ h. flagged)
      (λ i ne h. h) m lead
HasLead-put fd table x (negsuc n) flagged lead = tt

any-either : (a b : Mask) → any b ≡ true → any (either a b) ≡ true
any-either a b h = ground arith

pub any-without : (a b : Mask) → any (without a b) ≡ true → any a ≡ true
any-without a b h = ground arith

or_bit : (a b : Bool) → (if b then true else a) ≡ (a || b)
or_bit a b = ground arith

pub and_not_bit : (a b : Bool) → (if b then false else a) ≡ (a && not b)
and_not_bit a b = ground arith

one_of :
    (b : Bool) (r r' : ℤ × Selects)
    → IsTracked r.1
    → IsTracked r'.1
    → IsTracked (if b then r else r').1
one_of true r r' h h' = h
one_of false r r' h h' = h'

module _ (fd : ℕ) (flags : Mask) (s : Selects) (tracked : IsTracked s) where
  abbrev pub fde : Fdevent
  fde = entry fd (get_fde fd s.table)

  pub own_flags : fde.s_flags ≡ (entry fd s.table).s_flags
  own_flags = ap (λ e. e.s_flags) (entry-get_fde fd fd s.table)

  -- A set that got or lost the descriptor, where the bit of its entry says so.
  pub set_of :
      (flag bit : Bool) (fds : ℕ → Bool) (x : Fdevent) (of : Mask → Bool)
      → ((i : ℕ) → fds i ≡ of (entry i s.table).s_flags)
      → (if flag then bit else of (entry fd s.table).s_flags) ≡ of x.s_flags
      → (i : ℕ) → put_fd flag fd bit fds i ≡ of (entry i (set (get_fde fd s.table) fd x)).s_flags
  set_of flag bit fds x of held own =
      put_all fd s.table x (λ i e. put_fd flag fd bit fds i ≡ of e.s_flags)
        (put_fd-own flag bit fd fds ∙ ap (λ b. if flag then bit else b) (held fd) ∙ own)
        (λ i ne. put_fd-other flag bit fd i fds ne ∙ held i)

  pub set_flags-IsTracked :
      (fd_setsize : ℕ) (n : ℤ) (p : ℕ)
      → any flags ≡ true
      → IsTracked (set_flags fd_setsize fd flags n p s).1
  unfolding set_flags
  set_flags-IsTracked fd_setsize n p some_flag =
      let x : Fdevent = record fde {
        s_flags = either fde.s_flags flags;
        data_num = n;
        data_ptr = p;
      } in
      let table = set (get_fde fd s.table) fd x in
      let flagged : any x.s_flags ≡ true = any-either fde.s_flags flags some_flag in
      let put : IsTracked (record {
        maxfd = raised fd s.maxfd;
        readset = put_fd flags.in_bit fd true s.readset;
        writeset = put_fd flags.out_bit fd true s.writeset;
        table = table;
      }) =
        record {
          reads =
              set_of flags.in_bit true s.readset x (λ m. m.in_bit) tracked.reads
                (or_bit (entry fd s.table).s_flags.in_bit flags.in_bit
                  ∙ ap (λ m. m.in_bit || flags.in_bit) (sym own_flags));
          writes =
              set_of flags.out_bit true s.writeset x (λ m. m.out_bit) tracked.writes
                (or_bit (entry fd s.table).s_flags.out_bit flags.out_bit
                  ∙ ap (λ m. m.out_bit || flags.out_bit) (sym own_flags));
          covered =
              put_all fd s.table x
                (λ i e. any e.s_flags ≡ true → i < watched_to (raised fd s.maxfd))
                (λ h. (raised-covers fd fd s.maxfd).1)
                (λ i ne h. (raised-covers fd i s.maxfd).0 (tracked.covered i h));
          lead =
              raised-HasLead fd s.maxfd table (rw (entry-put fd s.table x) flagged)
                (HasLead-put fd s.table x s.maxfd flagged tracked.lead);
        } in
      let same = record s { table = get_fde fd s.table } in
      one_of (leb fd_setsize fd) (minus_one, s)
        (if any (both fde.s_flags flags) then (pos 0, same) else (pos 0, _)) tracked
        (one_of (any (both fde.s_flags flags)) (pos 0, same) (pos 0, _) (same_table fd s tracked)
          put)
