-- ===== src/Net/Select/Agree.antt =====
-- The two variants of `Fdevents`, over the same calls.
pub mod Flags
pub mod Runs
use geminidb.Prelude.{
  ℕ, ◌≡◌, ◌≢◌, refl, sym, subst, ap, ◌∙◌, inl, inr, Bool, true, false, Bool-cases, Option, none,
  some, Option-cases, ◌>>=◌, List, [], ◌∷◌, set, ◌==◌, leb, if◌then◌else◌, arith, All,
}
use geminidb.Prelude.Int.{ℤ, pos, minus_one, int_eq}
use geminidb.Net.Fdevents.{
  Mask, fdevent_none, fdevent_in, fdevent_out, either, both, without, any, Fdevent, CtlOp, ctl_add,
  ctl_mod, ctl_del, EpollEvents, Epoll, Fdevents, get_fde, entry, control,
}
use geminidb.Net.Fdevents
use geminidb.Net.Fdevents.Watched.{
  IsWatched, interest_of, entry-get_fde, entry-put, entry-put_other, set_flags-Watched, clr-Watched,
  del-Watched,
}
use geminidb.Net.Select
use geminidb.Net.Select.{Selects}
use geminidb.Net.Select.Tracked.{IsTracked, put_all, init-IsTracked}
use geminidb.Net.Select.Kept.{set_flags-IsTracked}
use geminidb.Net.Select.Cleared.{Kept, del-Kept, clr-Kept}

pub data Call : Type 0 where
  set_call : ℕ → Mask → ℤ → ℕ → Call
  clr_call : ℕ → Mask → Call
  del_call : ℕ → Call

-- The state behind a call that returns 0.
abbrev pub done : {A : Type 0} → ℤ × A → Option A
done (ret, s) = if int_eq ret (pos 0) then some s else none

-- What a call does to the flags of the descriptors, whichever variant is built.
unfoldable pub flags_after : Call → (ℕ → Mask) → ℕ → Mask
flags_after (set_call fd flags n p) m i =
    if i == fd then (if any (both (m i) flags) then m i else either (m i) flags) else m i
flags_after (clr_call fd flags) m i =
    if i == fd then (if any (both (m i) flags) then without (m i) flags else m i) else m i
flags_after (del_call fd) m i = if i == fd then fdevent_none else m i

abbrev pub flags_of : List Fdevent → ℕ → Mask
flags_of table i = (entry i table).s_flags

-- The flags behind a put of an entry, and behind none.
flags-put :
    (fd i : ℕ) (table : List Fdevent) (x : Fdevent)
    → flags_of (set (get_fde fd table) fd x) i ≡ (if i == fd then x.s_flags else flags_of table i)
flags-put fd i table x =
    put_all fd table x (λ j e. e.s_flags ≡ (if j == fd then x.s_flags else flags_of table j))
      (ground arith) (λ j ne. ground arith) i

module _ {K : Type 0} (E : Epoll K) where
  unfoldable pub epoll_call : Call → Fdevents K → Option (Fdevents K)
  unfolding Fdevents.set_flags Fdevents.clr Fdevents.del
  epoll_call (set_call fd flags n p) s = done (Fdevents.set_flags E fd flags n p s)
  epoll_call (clr_call fd flags) s = done (Fdevents.clr E fd flags s)
  epoll_call (del_call fd) s = done (Fdevents.del E fd s)

  unfoldable pub epoll_calls : List Call → Fdevents K → Option (Fdevents K)
  unfolding epoll_call
  epoll_calls [] s = some s
  epoll_calls (c ∷ cs) s = epoll_call c s >>= epoll_calls cs

module _ (fd_setsize : ℕ) where
  unfoldable pub select_call : Call → Selects → Option Selects
  unfolding Select.set_flags Select.clr Select.del
  select_call (set_call fd flags n p) s = done (Select.set_flags fd_setsize fd flags n p s)
  select_call (clr_call fd flags) s = Select.clr fd flags s >>= done
  select_call (del_call fd) s = Select.del fd_setsize fd s >>= done

  unfoldable pub select_calls : List Call → Selects → Option Selects
  unfolding select_call
  select_calls [] s = some s
  select_calls (c ∷ cs) s = select_call c s >>= select_calls cs

-- The flags are those of the specification.
abbrev pub IsAfter : Call → List Fdevent → List Fdevent → Type 0
IsAfter c table table' = (i : ℕ) → flags_of table' i ≡ flags_after c (flags_of table) i

if_ext :
    {A : Type 0} (b : Bool) (y y' z : A)
    → (b ≡ true → y ≡ y')
    → (if b then y else z) ≡ (if b then y' else z)
if_ext true y y' z h = h refl
if_ext false y y' z h = refl

if_same : {A : Type 0} (b : Bool) (y z : A) → (b ≡ true → y ≡ z) → (if b then y else z) ≡ z
if_same true y z h = h refl
if_same false y z h = refl

at_fd : (fd i : ℕ) (P : ℕ → Type 0) → P fd → (i == fd) ≡ true → P i
at_fd fd i P own e = subst P (sym (ground (arith, e))) own

-- A put of an entry with the right flags, and an access that changes no flags.
pub put-IsAfter :
    (c : Call) (fd : ℕ) (table : List Fdevent) (x : Fdevent) (f : Mask → Mask)
    → ((m : ℕ → Mask) (i : ℕ) → flags_after c m i ≡ (if i == fd then f (m i) else m i))
    → x.s_flags ≡ f (flags_of table fd)
    → IsAfter c table (set (get_fde fd table) fd x)
put-IsAfter c fd table x f shape own i =
    flags-put fd i table x
    ∙ if_ext (i == fd) x.s_flags (f (flags_of table i)) (flags_of table i)
        (at_fd fd i (λ j. x.s_flags ≡ f (flags_of table j)) own)
    ∙ sym (shape (flags_of table) i)

pub same-IsAfter :
    (c : Call) (fd : ℕ) (table : List Fdevent) (f : Mask → Mask)
    → ((m : ℕ → Mask) (i : ℕ) → flags_after c m i ≡ (if i == fd then f (m i) else m i))
    → f (flags_of table fd) ≡ flags_of table fd
    → IsAfter c table (get_fde fd table)
same-IsAfter c fd table f shape own i =
    ap (λ e. e.s_flags) (entry-get_fde fd i table)
    ∙ sym (
        if_same (i == fd) (f (flags_of table i)) (flags_of table i)
          (at_fd fd i (λ j. f (flags_of table j) ≡ flags_of table j) own))
    ∙ sym (shape (flags_of table) i)
