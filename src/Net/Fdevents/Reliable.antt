-- ===== src/Net/Fdevents/Reliable.antt =====
-- The table of src/net/fde_epoll.cpp over a kernel that carries its calls out.
use geminidb.Prelude.{
  ℕ, ◌≡◌, refl, sym, ap, ◌∙◌, Bool, true, false, Bool-cases, inl, inr, none, some, if◌then◌else◌,
  arith,
}
use geminidb.Prelude.Int.{ℤ, pos}
use geminidb.Net.Fdevents.{
  Mask, fdevent_none, either, both, without, any, Fdevent, CtlOp, ctl_add, ctl_mod, ctl_del,
  EpollEvents, Epoll, Fdevents, get_fde, entry, events_of, control, set_flags, del, clr,
}
use geminidb.Net.Fdevents.Watched.{
  IsWatched, interest_of, set_flags-Watched, clr-Watched, del-Watched, entry-get_fde,
}

module _ {K : Type 0} (E : Epoll K) where
  -- As the manual has it for descriptors that are open, as long as the kernel has memory and room for
  -- entries: a new entry is added where there is none, and an entry that is there is changed or deleted.
  pub record IsReliable : Type 0 where
    pub adds :
        (fd : ℕ) (ev : EpollEvents) (k : K)
        → E.interest k fd ≡ none
        → (E.ctl ctl_add fd ev k).0 ≡ true
    pub modifies :
        (fd : ℕ) (ev old : EpollEvents) (k : K)
        → E.interest k fd ≡ some old
        → (E.ctl ctl_mod fd ev k).0 ≡ true
    pub deletes :
        (fd : ℕ) (ev old : EpollEvents) (k : K)
        → E.interest k fd ≡ some old
        → (E.ctl ctl_del fd ev k).0 ≡ true

  module _ (sure : IsReliable) where
    control-done :
        (op : CtlOp) (fd : ℕ) (x : Fdevent) (s : Fdevents K)
        → (E.ctl op fd (events_of x.s_flags) s.kernel).0 ≡ true
        → (control E op fd x (get_fde fd s.table) s.kernel).0 ≡ pos 0
    unfolding control
    control-done op fd x s ok = rw ok refl

    one_of :
        (b : Bool) (r r' : ℤ × Fdevents K)
        → (b ≡ true → r.0 ≡ pos 0)
        → (b ≡ false → r'.0 ≡ pos 0)
        → (if b then r else r').0 ≡ pos 0
    one_of true r r' h h' = h refl
    one_of false r r' h h' = h' refl

    -- The call that `set` makes succeeds.
    set_succeeds :
        (b : Bool) (fd : ℕ) (m : Mask) (ev : EpollEvents) (k : K)
        → any m ≡ b
        → E.interest k fd ≡ interest_of m
        → (E.ctl (if b then ctl_mod else ctl_add) fd ev k).0 ≡ true
    unfolding interest_of
    set_succeeds true fd m ev k some_flag h =
        sure.modifies fd ev (events_of m) k (h ∙ rw some_flag refl)
    set_succeeds false fd m ev k no_flag h = sure.adds fd ev k (h ∙ rw no_flag refl)

    -- So does that of `clr`, which finds an entry.
    clr_succeeds :
        (b : Bool) (fd : ℕ) (m : Mask) (ev : EpollEvents) (k : K)
        → any m ≡ true
        → E.interest k fd ≡ interest_of m
        → (E.ctl (if b then ctl_mod else ctl_del) fd ev k).0 ≡ true
    unfolding interest_of
    clr_succeeds true fd m ev k some_flag h =
        sure.modifies fd ev (events_of m) k (h ∙ rw some_flag refl)
    clr_succeeds false fd m ev k some_flag h =
        sure.deletes fd ev (events_of m) k (h ∙ rw some_flag refl)

    any-both : (a b : Mask) → any (both a b) ≡ true → any a ≡ true
    any-both a b h = ground arith

    found :
        (fd : ℕ) (s : Fdevents K)
        → IsWatched E s
        → E.interest s.kernel fd ≡ interest_of (entry fd (get_fde fd s.table)).s_flags
    found fd s w = w fd ∙ ap (λ x. interest_of x.s_flags) (sym (entry-get_fde fd fd s.table))

    set_flags-done :
        (fd : ℕ) (flags : Mask) (data_num : ℤ) (data_ptr : ℕ) (s : Fdevents K)
        → IsWatched E s
        → (set_flags E fd flags data_num data_ptr s).0 ≡ pos 0
    unfolding set_flags
    set_flags-done fd flags data_num data_ptr s w =
        let fde : Fdevent = entry fd (get_fde fd s.table) in
        let op : CtlOp = if any fde.s_flags then ctl_mod else ctl_add in
        let x : Fdevent = record fde {
          s_flags = either fde.s_flags flags;
          data_num = data_num;
          data_ptr = data_ptr;
        } in
        one_of (any (both fde.s_flags flags)) (pos 0, record s { table = get_fde fd s.table })
          (control E op fd x (get_fde fd s.table) s.kernel) (λ _. refl)
          (λ _. control-done op fd x s (
            set_succeeds (any fde.s_flags) fd fde.s_flags (events_of x.s_flags) s.kernel refl
              (found fd s w)))

    clr-done :
        (fd : ℕ) (flags : Mask) (s : Fdevents K) → IsWatched E s → (clr E fd flags s).0 ≡ pos 0
    unfolding clr
    clr-done fd flags s w =
        let fde : Fdevent = entry fd (get_fde fd s.table) in
        let m : Mask = without fde.s_flags flags in
        let op : CtlOp = if any m then ctl_mod else ctl_del in
        one_of (any (both fde.s_flags flags))
          (control E op fd (record fde { s_flags = m }) (get_fde fd s.table) s.kernel)
          (pos 0, record s { table = get_fde fd s.table })
          (λ h.
            control-done op fd (record fde { s_flags = m }) s
              (clr_succeeds (any m) fd fde.s_flags (events_of m) s.kernel
                (any-both fde.s_flags flags h) (found fd s w)))
          (λ _. refl)

    pub set_flags-Agrees :
        (fd : ℕ) (flags : Mask) (data_num : ℤ) (data_ptr : ℕ) (s : Fdevents K)
        → any flags ≡ true
        → IsWatched E s
        → IsWatched E (set_flags E fd flags data_num data_ptr s).1
    set_flags-Agrees fd flags data_num data_ptr s some_flag w =
        set_flags-Watched E fd flags data_num data_ptr s some_flag w
          (set_flags-done fd flags data_num data_ptr s w)

    pub clr-Agrees :
        (fd : ℕ) (flags : Mask) (s : Fdevents K) → IsWatched E s → IsWatched E (clr E fd flags s).1
    clr-Agrees fd flags s w = clr-Watched E fd flags s w (clr-done fd flags s w)

  -- A `del` that the kernel refuses changes neither its list nor the table.
  pub del-Agrees : (fd : ℕ) (s : Fdevents K) → IsWatched E s → IsWatched E (del E fd s).1
  unfolding del
  del-Agrees fd s w = elim (Bool-cases (E.ctl ctl_del fd (events_of fdevent_none) s.kernel).0) [
    | inl e ↦ del-Watched E fd s w (rw e refl)
    | inr e ↦
        let same = E.ctl_failed ctl_del fd (events_of fdevent_none) s.kernel e in
        λ i. rw e (ap (λ f. f i) same ∙ w i)
  ]
