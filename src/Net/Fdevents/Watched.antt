-- ===== src/Net/Fdevents/Watched.antt =====
-- The table of the watched descriptors against the kernel's interest list.
use geminidb.Prelude.{
  ℕ, zero, suc, ◌+◌, ◌-◌, ◌<◌, ◌≡◌, ◌≢◌, refl, sym, ap, subst, ◌∙◌, Bool, true, false, Option, none,
  some, List, [], ◌∷◌, ◌++◌, get_or, set, length, length-append, if◌then◌else◌, arith,
}
use geminidb.Prelude.Int.{ℤ, pos, minus_one}
use native.Mathlib.Decide.{ℕ_discrete}
use geminidb.Net.Fdevents.{
  Mask, fdevent_none, either, both, without, any, Fdevent, CtlOp, ctl_add, ctl_mod, ctl_del,
  EpollEvents, Epoll, Fdevents, new_fdevent, extend, get_fde, entry, events_of, control, set_flags,
  del, clr,
}

length-extend : (n : ℕ) (table : List Fdevent) → length (extend n table) ≡ n + length table
unfolding extend
length-extend zero table = omega arith
length-extend (suc n) table = omega (
  arith,
  length-extend n (table ++ new_fdevent (length table) ∷ []),
  length-append table (new_fdevent (length table) ∷ []),
)

get_fde-There : (fd : ℕ) (table : List Fdevent) → fd < length (get_fde fd table)
unfolding get_fde
get_fde-There fd table = omega (arith, length-extend (suc fd - length table) table)

-- What is behind the end is the default, and an append of the default changes nothing.
get_or-append :
    (table : List Fdevent) (x : Fdevent) (i : ℕ) (d : Fdevent)
    → (i ≡ length table → x ≡ d)
    → get_or (table ++ x ∷ []) i d ≡ get_or table i d
get_or-append [] x zero d h = h refl
get_or-append [] x (suc i) d h = refl
get_or-append (y ∷ table) x zero d h = refl
get_or-append (y ∷ table) x (suc i) d h = get_or-append table x i d (λ e. h (omega (arith, e)))

get_or-set :
    (table : List Fdevent) (i : ℕ) (x d : Fdevent)
    → i < length table
    → get_or (set table i x) i d ≡ x
get_or-set [] i x d h = absurd (omega arith)
get_or-set (y ∷ table) zero x d h = refl
get_or-set (y ∷ table) (suc i) x d h = get_or-set table i x d (omega arith)

get_or-set_other :
    (table : List Fdevent) (i j : ℕ) (x d : Fdevent)
    → j ≢ i
    → get_or (set table i x) j d ≡ get_or table j d
get_or-set_other [] i j x d ne = refl
get_or-set_other (y ∷ table) zero zero x d ne = absurd (ne refl)
get_or-set_other (y ∷ table) zero (suc j) x d ne = refl
get_or-set_other (y ∷ table) (suc i) zero x d ne = refl
get_or-set_other (y ∷ table) (suc i) (suc j) x d ne =
    get_or-set_other table i j x d (λ e. ne (ap suc e))

pub entry-set_other :
    (fd i : ℕ) (table : List Fdevent) (x : Fdevent)
    → i ≢ fd
    → entry i (set table fd x) ≡ entry i table
unfolding entry
entry-set_other fd i table x ne = get_or-set_other table fd i x (new_fdevent i) ne

entry-extend : (n i : ℕ) (table : List Fdevent) → entry i (extend n table) ≡ entry i table
unfolding entry extend
entry-extend zero i table = refl
entry-extend (suc n) i table =
    entry-extend n i (table ++ new_fdevent (length table) ∷ [])
    ∙ get_or-append table (new_fdevent (length table)) i (new_fdevent i)
        (λ e. ap new_fdevent (sym e))

pub entry-get_fde : (fd i : ℕ) (table : List Fdevent) → entry i (get_fde fd table) ≡ entry i table
unfolding get_fde
entry-get_fde fd i table = entry-extend (suc fd - length table) i table

pub entry-put :
    (fd : ℕ) (table : List Fdevent) (x : Fdevent) → entry fd (set (get_fde fd table) fd x) ≡ x
unfolding entry
entry-put fd table x = get_or-set (get_fde fd table) fd x (new_fdevent fd) (get_fde-There fd table)

pub entry-put_other :
    (fd i : ℕ) (table : List Fdevent) (x : Fdevent)
    → i ≢ fd
    → entry i (set (get_fde fd table) fd x) ≡ entry i table
entry-put_other fd i table x ne =
    entry-set_other fd i (get_fde fd table) x ne ∙ entry-get_fde fd i table

-- What a kernel that agrees with the flags watches.
unfoldable pub interest_of : Mask → Option EpollEvents
interest_of m = if any m then some (events_of m) else none

module _ {K : Type 0} (E : Epoll K) where
  -- The kernel watches every descriptor for what the table says.
  abbrev pub IsWatched : Fdevents K → Type 0
  IsWatched s = (fd : ℕ) → E.interest s.kernel fd ≡ interest_of (entry fd s.table).s_flags

  -- A call of epoll together with the change of the entry.
  changed :
      (op : CtlOp) (fd : ℕ) (ev : EpollEvents) (x : Fdevent) (s : Fdevents K)
      → IsWatched s
      → E.interest (E.ctl op fd ev s.kernel).1 fd ≡ interest_of x.s_flags
      → IsWatched
          (record { kernel = (E.ctl op fd ev s.kernel).1; table = set (get_fde fd s.table) fd x })
  changed op fd ev x s w h i = elim (ℕ_discrete i fd) [
    | yes same ↦
        subst
          (λ j.
            E.interest (E.ctl op fd ev s.kernel).1 j
            ≡ interest_of (entry j (set (get_fde fd s.table) fd x)).s_flags)
          (sym same) (rw (entry-put fd s.table x) h)
    | no other ↦
        rw (E.ctl_other op fd i ev s.kernel other, entry-put_other fd i s.table x other) (w i)
  ]

  same_table :
      (fd : ℕ) (s : Fdevents K) → IsWatched s → IsWatched (record s { table = get_fde fd s.table })
  same_table fd s w i = rw (entry-get_fde fd i s.table) (w i)

  control-Watched :
      (op : CtlOp) (fd : ℕ) (x : Fdevent) (s : Fdevents K)
      → ((E.ctl op fd (events_of x.s_flags) s.kernel).0 ≡ true
          → E.interest (E.ctl op fd (events_of x.s_flags) s.kernel).1 fd ≡ interest_of x.s_flags)
      → IsWatched s
      → (control E op fd x (get_fde fd s.table) s.kernel).0 ≡ pos 0
      → IsWatched (control E op fd x (get_fde fd s.table) s.kernel).1
  unfolding control
  control-Watched op fd x s h w done = changed op fd (events_of x.s_flags) x s w (h (ground arith))

  -- What `set` and `clr` ask the kernel for.
  set_asks :
      (b : Bool) (fd : ℕ) (m : Mask) (k : K)
      → any m ≡ true
      → (E.ctl (if b then ctl_mod else ctl_add) fd (events_of m) k).0 ≡ true
      → E.interest (E.ctl (if b then ctl_mod else ctl_add) fd (events_of m) k).1 fd ≡ interest_of m
  unfolding interest_of
  set_asks true fd m k some_flag ok = rw some_flag (E.ctl_modified fd (events_of m) k ok)
  set_asks false fd m k some_flag ok = rw some_flag (E.ctl_added fd (events_of m) k ok)

  clr_asks :
      (fd : ℕ) (m : Mask) (k : K)
      → (E.ctl (if any m then ctl_mod else ctl_del) fd (events_of m) k).0 ≡ true
      → E.interest (E.ctl (if any m then ctl_mod else ctl_del) fd (events_of m) k).1 fd
        ≡ interest_of m
  unfolding interest_of
  clr_asks fd m k = asks (any m)
    where
      asks :
          (b : Bool)
          → (E.ctl (if b then ctl_mod else ctl_del) fd (events_of m) k).0 ≡ true
          → E.interest (E.ctl (if b then ctl_mod else ctl_del) fd (events_of m) k).1 fd
            ≡ (if b then some (events_of m) else none)
      asks true ok = E.ctl_modified fd (events_of m) k ok
      asks false ok = E.ctl_deleted fd (events_of m) k ok

  any-either : (a b : Mask) → any b ≡ true → any (either a b) ≡ true
  any-either a b h = ground arith

  -- One of two results that each keep the agreement.
  one_of :
      (b : Bool) (r r' : ℤ × Fdevents K)
      → (b ≡ true → r.0 ≡ pos 0 → IsWatched r.1)
      → (r'.0 ≡ pos 0 → IsWatched r'.1)
      → (if b then r else r').0 ≡ pos 0
      → IsWatched (if b then r else r').1
  one_of true r r' h h' = h refl
  one_of false r r' h h' = h'

  pub set_flags-Watched :
      (fd : ℕ) (flags : Mask) (data_num : ℤ) (data_ptr : ℕ) (s : Fdevents K)
      → any flags ≡ true
      → IsWatched s
      → (set_flags E fd flags data_num data_ptr s).0 ≡ pos 0
      → IsWatched (set_flags E fd flags data_num data_ptr s).1
  unfolding set_flags
  set_flags-Watched fd flags data_num data_ptr s some_flag w =
      let fde : Fdevent = entry fd (get_fde fd s.table) in
      let x : Fdevent = record fde {
        s_flags = either fde.s_flags flags;
        data_num = data_num;
        data_ptr = data_ptr;
      } in
      one_of (any (both fde.s_flags flags)) (pos 0, record s { table = get_fde fd s.table })
        (control E (if any fde.s_flags then ctl_mod else ctl_add) fd x (get_fde fd s.table)
          s.kernel)
        (λ _ _. same_table fd s w)
        (control-Watched (if any fde.s_flags then ctl_mod else ctl_add) fd x s
          (set_asks (any fde.s_flags) fd x.s_flags s.kernel
            (any-either fde.s_flags flags some_flag))
          w)

  pub clr-Watched :
      (fd : ℕ) (flags : Mask) (s : Fdevents K)
      → IsWatched s
      → (clr E fd flags s).0 ≡ pos 0
      → IsWatched (clr E fd flags s).1
  unfolding clr
  clr-Watched fd flags s w =
      let fde : Fdevent = entry fd (get_fde fd s.table) in
      let m : Mask = without fde.s_flags flags in
      let op : CtlOp = if any m then ctl_mod else ctl_del in
      one_of (any (both fde.s_flags flags))
        (control E op fd (record fde { s_flags = m }) (get_fde fd s.table) s.kernel)
        (pos 0, record s { table = get_fde fd s.table })
        (λ _. control-Watched op fd (record fde { s_flags = m }) s (clr_asks fd m s.kernel) w)
        (λ _. same_table fd s w)

  pub del-Watched :
      (fd : ℕ) (s : Fdevents K) → IsWatched s → (del E fd s).0 ≡ pos 0 → IsWatched (del E fd s).1
  unfolding del interest_of
  del-Watched fd s w =
      let deleted = E.ctl ctl_del fd (events_of fdevent_none) s.kernel in
      let x : Fdevent = record (entry fd (get_fde fd s.table)) { s_flags = fdevent_none } in
      one_of deleted.0 (pos 0, record { kernel = deleted.1; table = set (get_fde fd s.table) fd x })
        (minus_one, record s { kernel = deleted.1 })
        (λ ok _.
          changed ctl_del fd (events_of fdevent_none) x s w
            (E.ctl_deleted fd (events_of fdevent_none) s.kernel ok))
        (λ e. absurd (ground arith))
