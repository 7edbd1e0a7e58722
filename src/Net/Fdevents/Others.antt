-- ===== src/Net/Fdevents/Others.antt =====
-- A call for one descriptor leaves what the table says of the others.
use geminidb.Prelude.{ℕ, ◌≡◌, ◌≢◌, sym, ap, ◌∙◌, Bool, true, false, set, if◌then◌else◌}
use geminidb.Prelude.Int.{ℤ, pos, minus_one}
use geminidb.Net.Fdevents.{
  Mask, fdevent_none, either, both, without, any, Fdevent, CtlOp, ctl_add, ctl_mod, ctl_del, Epoll,
  Fdevents, get_fde, entry, control, set_flags, clr, del, events_of,
}
use geminidb.Net.Fdevents.Watched.{entry-get_fde, entry-put_other}
use geminidb.Net.Fdevents.Flags.{reading, reading_lem}

module _ {K : Type 0} (E : Epoll K) (fd fd' : ℕ) (apart : fd' ≢ fd) where
  abbrev Keeps : Fdevents K → ℤ × Fdevents K → Type 0
  Keeps s r = reading E fd' r.1 ≡ reading E fd' s

  put-Keeps :
      (x : Fdevent) (k : K) (n : ℤ) (s : Fdevents K)
      → Keeps s (n, record { kernel = k; table = set (get_fde fd s.table) fd x })
  put-Keeps x k n s =
      reading_lem E fd' (record { kernel = k; table = set (get_fde fd s.table) fd x })
      ∙ ap (λ e. e.s_flags.in_bit) (entry-put_other fd fd' s.table x apart)
      ∙ sym (reading_lem E fd' s)

  same-Keeps : (n : ℤ) (s : Fdevents K) → Keeps s (n, record s { table = get_fde fd s.table })
  same-Keeps n s =
      reading_lem E fd' (record s { table = get_fde fd s.table })
      ∙ ap (λ e. e.s_flags.in_bit) (entry-get_fde fd fd' s.table)
      ∙ sym (reading_lem E fd' s)

  one_of :
      (s : Fdevents K) (b : Bool) (r r' : ℤ × Fdevents K)
      → Keeps s r
      → Keeps s r'
      → Keeps s (if b then r else r')
  one_of s true r r' h h' = h
  one_of s false r r' h h' = h'

  control-Keeps :
      (op : CtlOp) (x : Fdevent) (s : Fdevents K)
      → Keeps s (control E op fd x (get_fde fd s.table) s.kernel)
  unfolding control
  control-Keeps op x s =
      let called = E.ctl op fd (events_of x.s_flags) s.kernel in
      put-Keeps x called.1 (if called.0 then pos 0 else minus_one) s

  pub set_flags-Keeps :
      (flags : Mask) (n : ℤ) (p : ℕ) (s : Fdevents K) → Keeps s (set_flags E fd flags n p s)
  unfolding set_flags
  set_flags-Keeps flags n p s =
      let fde : Fdevent = entry fd (get_fde fd s.table) in
      let op : CtlOp = if any fde.s_flags then ctl_mod else ctl_add in
      let x : Fdevent = record fde {
        s_flags = either fde.s_flags flags;
        data_num = n;
        data_ptr = p;
      } in
      one_of s (any (both fde.s_flags flags)) (pos 0, record s { table = get_fde fd s.table })
        (control E op fd x (get_fde fd s.table) s.kernel) (same-Keeps (pos 0) s)
        (control-Keeps op x s)

  pub clr-Keeps : (flags : Mask) (s : Fdevents K) → Keeps s (clr E fd flags s)
  unfolding clr
  clr-Keeps flags s =
      let fde : Fdevent = entry fd (get_fde fd s.table) in
      let m : Mask = without fde.s_flags flags in
      let op : CtlOp = if any m then ctl_mod else ctl_del in
      one_of s (any (both fde.s_flags flags))
        (control E op fd (record fde { s_flags = m }) (get_fde fd s.table) s.kernel)
        (pos 0, record s { table = get_fde fd s.table })
        (control-Keeps op (record fde { s_flags = m }) s) (same-Keeps (pos 0) s)

  pub del-Keeps : (s : Fdevents K) → Keeps s (del E fd s)
  unfolding del
  del-Keeps s =
      let called = E.ctl ctl_del fd (events_of fdevent_none) s.kernel in
      let x : Fdevent = record (entry fd (get_fde fd s.table)) { s_flags = fdevent_none } in
      one_of s called.0 (pos 0, record { kernel = called.1; table = set (get_fde fd s.table) fd x })
        (minus_one, record s { kernel = called.1 }) (put-Keeps x called.1 (pos 0) s)
        (reading_lem E fd' (record s { kernel = called.1 }) ∙ sym (reading_lem E fd' s))
