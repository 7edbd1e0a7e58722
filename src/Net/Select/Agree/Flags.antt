-- ===== src/Net/Select/Agree/Flags.antt =====
-- Both variants change the flags in one way.
use geminidb.Prelude.{
  ℕ, ◌≡◌, refl, subst, ap, ◌∙◌, inl, inr, Bool, true, false, Bool-cases, Option, none, some, ◌>>=◌,
  List, set, leb, if◌then◌else◌,
}
use geminidb.Prelude.Int.{ℤ, pos, minus_one, int_eq}
use geminidb.Net.Fdevents.{
  Mask, fdevent_none, either, both, without, any, Fdevent, CtlOp, ctl_add, ctl_mod, ctl_del, Epoll,
  Fdevents, get_fde, entry, events_of, control,
}
use geminidb.Net.Fdevents
use geminidb.Net.Fdevents.Watched.{entry-get_fde}
use geminidb.Net.Select
use geminidb.Net.Select.{Selects, put_fd, lowered, found_flag}
use geminidb.Net.Select.Agree.{
  Call, set_call, clr_call, del_call, done, flags_after, flags_of, epoll_call, select_call, IsAfter,
  put-IsAfter, same-IsAfter,
}

module _ (fd : ℕ) (flags : Mask) (table : List Fdevent) where
  abbrev fde : Fdevent
  fde = entry fd (get_fde fd table)

  own : fde.s_flags ≡ flags_of table fd
  own = ap (λ e. e.s_flags) (entry-get_fde fd fd table)

  abbrev set_mask : Mask → Mask
  set_mask m = if any (both m flags) then m else either m flags

  abbrev clr_mask : Mask → Mask
  clr_mask m = if any (both m flags) then without m flags else m

  none_set : any (both fde.s_flags flags) ≡ true → set_mask (flags_of table fd) ≡ flags_of table fd
  none_set h = subst (λ m. set_mask m ≡ m) own (rw h refl)

  some_set :
      any (both fde.s_flags flags) ≡ false → either fde.s_flags flags ≡ set_mask (flags_of table fd)
  some_set h = subst (λ m. either fde.s_flags flags ≡ set_mask m) own (rw h refl)

  none_cleared :
      any (both fde.s_flags flags) ≡ false → clr_mask (flags_of table fd) ≡ flags_of table fd
  none_cleared h = subst (λ m. clr_mask m ≡ m) own (rw h refl)

  some_cleared :
      any (both fde.s_flags flags) ≡ true → without fde.s_flags flags ≡ clr_mask (flags_of table fd)
  some_cleared h = subst (λ m. without fde.s_flags flags ≡ clr_mask m) own (rw h refl)

  set-same :
      (n : ℤ) (p : ℕ)
      → any (both fde.s_flags flags) ≡ true
      → IsAfter (set_call fd flags n p) table (get_fde fd table)
  unfolding flags_after
  set-same n p h = same-IsAfter (set_call fd flags n p) fd table set_mask (λ m i. refl) (none_set h)

  set-put :
      (n : ℤ) (p : ℕ) (x : Fdevent)
      → any (both fde.s_flags flags) ≡ false
      → x.s_flags ≡ either fde.s_flags flags
      → IsAfter (set_call fd flags n p) table (set (get_fde fd table) fd x)
  unfolding flags_after
  set-put n p x h e =
      put-IsAfter (set_call fd flags n p) fd table x set_mask (λ m i. refl) (e ∙ some_set h)

  clr-same :
      any (both fde.s_flags flags) ≡ false → IsAfter (clr_call fd flags) table (get_fde fd table)
  unfolding flags_after
  clr-same h = same-IsAfter (clr_call fd flags) fd table clr_mask (λ m i. refl) (none_cleared h)

  clr-put :
      (x : Fdevent)
      → any (both fde.s_flags flags) ≡ true
      → x.s_flags ≡ without fde.s_flags flags
      → IsAfter (clr_call fd flags) table (set (get_fde fd table) fd x)
  unfolding flags_after
  clr-put x h e =
      put-IsAfter (clr_call fd flags) fd table x clr_mask (λ m i. refl) (e ∙ some_cleared h)

  del-put :
      (x : Fdevent)
      → x.s_flags ≡ fdevent_none
      → IsAfter (del_call fd) table (set (get_fde fd table) fd x)
  unfolding flags_after
  del-put x e = put-IsAfter (del_call fd) fd table x (λ m. fdevent_none) (λ m i. refl) e

-- What holds behind the call, if it returns 0.
module _ {A : Type 0} (table_of : A → List Fdevent) (c : Call) (table : List Fdevent) where
  abbrev pub After : Option A → Type 0
  After none = Unit
  After (some a) = IsAfter c table (table_of a)

  done-After : (r : ℤ × A) → IsAfter c table (table_of r.1) → After (done r)
  done-After r h = elim (Bool-cases (int_eq r.0 (pos 0))) [ inl e ↦ rw e h | inr e ↦ rw e tt ]

  bound_one_of :
      (b : Bool) (o o' : Option (ℤ × A))
      → (b ≡ true → After (o >>= done))
      → (b ≡ false → After (o' >>= done))
      → After ((if b then o else o') >>= done)
  bound_one_of true o o' h h' = h refl
  bound_one_of false o o' h h' = h' refl

  found_one :
      (o : Option ℤ) (f : ℤ → A)
      → ((m : ℤ) → IsAfter c table (table_of (f m)))
      → After (o >>= (λ m. some (pos 0, f m)) >>= done)
  found_one none f h = tt
  found_one (some m) f h = h m

  one_of :
      (b : Bool) (r r' : ℤ × A)
      → (b ≡ true → After (done r))
      → (b ≡ false → After (done r'))
      → After (done (if b then r else r'))
  one_of true r r' h h' = h refl
  one_of false r r' h h' = h' refl

module _ {K : Type 0} (E : Epoll K) where
  abbrev epoll_table : Fdevents K → List Fdevent
  epoll_table s = s.table

  control-After :
      (c : Call) (op : CtlOp) (fd : ℕ) (x : Fdevent) (s : Fdevents K)
      → IsAfter c s.table (set (get_fde fd s.table) fd x)
      → After epoll_table c s.table (done (control E op fd x (get_fde fd s.table) s.kernel))
  unfolding control
  control-After c op fd x s h =
      done-After epoll_table c s.table (control E op fd x (get_fde fd s.table) s.kernel) h

  pub epoll_call-After :
      (c : Call) (s : Fdevents K) → After epoll_table c s.table (epoll_call E c s)
  unfolding epoll_call Fdevents.set_flags Fdevents.clr Fdevents.del
  epoll_call-After (set_call fd flags n p) s =
      let old : Fdevent = fde fd flags s.table in
      let op : CtlOp = if any old.s_flags then ctl_mod else ctl_add in
      let x : Fdevent = record old {
        s_flags = either old.s_flags flags;
        data_num = n;
        data_ptr = p;
      } in
      one_of epoll_table (set_call fd flags n p) s.table (any (both old.s_flags flags))
        (pos 0, record s { table = get_fde fd s.table })
        (control E op fd x (get_fde fd s.table) s.kernel) (set-same fd flags s.table n p)
        (λ h.
          control-After (set_call fd flags n p) op fd x s (set-put fd flags s.table n p x h refl))
  epoll_call-After (clr_call fd flags) s =
      let old : Fdevent = fde fd flags s.table in
      let m : Mask = without old.s_flags flags in
      let op : CtlOp = if any m then ctl_mod else ctl_del in
      let x : Fdevent = record old { s_flags = m } in
      one_of epoll_table (clr_call fd flags) s.table (any (both old.s_flags flags))
        (control E op fd x (get_fde fd s.table) s.kernel)
        (pos 0, record s { table = get_fde fd s.table })
        (λ h. control-After (clr_call fd flags) op fd x s (clr-put fd flags s.table x h refl))
        (clr-same fd flags s.table)
  epoll_call-After (del_call fd) s =
      let x : Fdevent = record (fde fd fdevent_none s.table) { s_flags = fdevent_none } in
      one_of epoll_table (del_call fd) s.table
        (E.ctl ctl_del fd (events_of fdevent_none) s.kernel).0 (pos 0, _)
        (minus_one, record s { kernel = (E.ctl ctl_del fd (events_of fdevent_none) s.kernel).1 })
        (λ h. del-put fd fdevent_none s.table x refl) (λ h. tt)

module _ (fd_setsize : ℕ) where
  abbrev table_of : Selects → List Fdevent
  table_of s = s.table

  pub select_call-After :
      (c : Call) (s : Selects) → After table_of c s.table (select_call fd_setsize c s)
  unfolding select_call Select.set_flags Select.clr Select.del
  select_call-After (set_call fd flags n p) s =
      let old : Fdevent = fde fd flags s.table in
      let x : Fdevent = record old {
        s_flags = either old.s_flags flags;
        data_num = n;
        data_ptr = p;
      } in
      one_of table_of (set_call fd flags n p) s.table (leb fd_setsize fd) (minus_one, s) _ (λ h. tt)
        (λ h.
          one_of table_of (set_call fd flags n p) s.table (any (both old.s_flags flags))
            (pos 0, record s { table = get_fde fd s.table }) (pos 0, _)
            (set-same fd flags s.table n p) (λ h. set-put fd flags s.table n p x h refl))
  select_call-After (clr_call fd flags) s =
      let old : Fdevent = fde fd flags s.table in
      let x : Fdevent = record old { s_flags = without old.s_flags flags } in
      bound_one_of table_of (clr_call fd flags) s.table (any (both old.s_flags flags)) _
        (some (pos 0, record s { table = get_fde fd s.table }))
        (λ h.
          found_one table_of (clr_call fd flags) s.table
            (found_flag (lowered s.maxfd (set (get_fde fd s.table) fd x))) _
            (λ m. clr-put fd flags s.table x h refl))
        (clr-same fd flags s.table)
  select_call-After (del_call fd) s =
      let x : Fdevent = record (fde fd fdevent_none s.table) { s_flags = fdevent_none } in
      bound_one_of table_of (del_call fd) s.table (leb fd_setsize fd) none (some (pos 0, _))
        (λ h. tt) (λ h. del-put fd fdevent_none s.table x refl)
