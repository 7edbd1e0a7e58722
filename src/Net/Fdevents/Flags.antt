-- ===== src/Net/Fdevents/Flags.antt =====
-- What `isset` tells behind the other calls, whatever the kernel answers.
use geminidb.Prelude.{ℕ, ◌≡◌, refl, sym, ap, ◌∙◌, Bool, true, false, if◌then◌else◌, arith}
use geminidb.Prelude.Int.{ℤ, pos}
use geminidb.Net.Fdevents.{
  Mask, fdevent_in, either, both, without, any, Fdevent, CtlOp, ctl_add, ctl_mod, ctl_del, Epoll,
  Fdevents, get_fde, entry, isset, control, set_flags, clr,
}
use geminidb.Net.Fdevents.Watched.{entry-get_fde, entry-put}

module _ {K : Type 0} (E : Epoll K) where
  any-in : (m : Mask) → any (both m fdevent_in) ≡ m.in_bit
  any-in m = ground arith

  -- Whether the table says that the descriptor is watched for input.
  unfoldable pub reading : ℕ → Fdevents K → Bool
  unfolding isset
  reading fd s = (isset E fd fdevent_in s).0

  pub reading_lem : (fd : ℕ) (s : Fdevents K) → reading fd s ≡ (entry fd s.table).s_flags.in_bit
  unfolding reading isset
  reading_lem fd s = rw (entry-get_fde fd fd s.table) (any-in (entry fd s.table).s_flags)

  control-reading :
      (op : CtlOp) (fd : ℕ) (x : Fdevent) (s : Fdevents K)
      → reading fd (control E op fd x (get_fde fd s.table) s.kernel).1 ≡ x.s_flags.in_bit
  unfolding control
  control-reading op fd x s =
      reading_lem fd (control E op fd x (get_fde fd s.table) s.kernel).1
      ∙ ap (λ e. e.s_flags.in_bit) (entry-put fd s.table x)

  one_of :
      (fd : ℕ) (v b : Bool) (r r' : ℤ × Fdevents K)
      → (b ≡ true → reading fd r.1 ≡ v)
      → (b ≡ false → reading fd r'.1 ≡ v)
      → reading fd (if b then r else r').1 ≡ v
  one_of fd v true r r' h h' = h refl
  one_of fd v false r r' h h' = h' refl

  either-in : (m : Mask) → (either m fdevent_in).in_bit ≡ true
  either-in m = ground arith

  without-in : (m : Mask) → (without m fdevent_in).in_bit ≡ false
  without-in m = ground arith

  pub set_flags-reading :
      (fd : ℕ) (n : ℤ) (p : ℕ) (s : Fdevents K)
      → reading fd (set_flags E fd fdevent_in n p s).1 ≡ true
  unfolding set_flags
  set_flags-reading fd n p s =
      let fde : Fdevent = entry fd (get_fde fd s.table) in
      let op : CtlOp = if any fde.s_flags then ctl_mod else ctl_add in
      let s_flags : Mask = either fde.s_flags fdevent_in in
      let x : Fdevent = record fde { s_flags = s_flags; data_num = n; data_ptr = p } in
      let same : Fdevents K = record s { table = get_fde fd s.table } in
      one_of fd true (any (both fde.s_flags fdevent_in)) (pos 0, same)
        (control E op fd x (get_fde fd s.table) s.kernel)
        (λ there. reading_lem fd same ∙ sym (any-in fde.s_flags) ∙ there)
        (λ _. control-reading op fd x s ∙ either-in fde.s_flags)

  pub clr-reading : (fd : ℕ) (s : Fdevents K) → reading fd (clr E fd fdevent_in s).1 ≡ false
  unfolding clr
  clr-reading fd s =
      let fde : Fdevent = entry fd (get_fde fd s.table) in
      let s_flags : Mask = without fde.s_flags fdevent_in in
      let op : CtlOp = if any s_flags then ctl_mod else ctl_del in
      let x : Fdevent = record fde { s_flags = s_flags } in
      let same : Fdevents K = record s { table = get_fde fd s.table } in
      one_of fd false (any (both fde.s_flags fdevent_in))
        (control E op fd x (get_fde fd s.table) s.kernel) (pos 0, same)
        (λ _. control-reading op fd x s ∙ without-in fde.s_flags)
        (λ gone. reading_lem fd same ∙ sym (any-in fde.s_flags) ∙ gone)
