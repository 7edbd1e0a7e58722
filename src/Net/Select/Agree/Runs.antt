-- ===== src/Net/Select/Agree/Runs.antt =====
-- Over the same calls, both variants watch the same.
use geminidb.Prelude.{
  ℕ, ◌≡◌, refl, sym, subst, ap, ◌∙◌, inl, inr, Bool, true, false, Bool-cases, Option, none, some,
  Option-cases, ◌>>=◌, List, [], ◌∷◌, All, ◌==◌, if◌then◌else◌, arith,
}
use geminidb.Prelude.Int.{ℤ, pos, negsuc, int_eq}
use geminidb.Net.Fdevents.{
  Mask, any, both, either, without, fdevent_none, Fdevent, EpollEvents, Epoll, Fdevents, entry,
}
use geminidb.Net.Fdevents
use geminidb.Net.Fdevents.Watched.{
  IsWatched, interest_of, entry-get_fde, set_flags-Watched, clr-Watched, del-Watched,
}
use geminidb.Net.Select
use geminidb.Net.Select.{Selects}
use geminidb.Net.Select.Tracked.{IsTracked, init-IsTracked}
use geminidb.Net.Select.Kept.{set_flags-IsTracked}
use geminidb.Net.Select.Cleared.{Kept, del-Kept, clr-Kept}
use geminidb.Net.Select.Agree.{
  Call, set_call, clr_call, del_call, done, flags_after, flags_of, epoll_call, epoll_calls,
  select_call, select_calls,
}
use geminidb.Net.Select.Agree.Flags.{After, epoll_call-After, select_call-After}

-- A call of `set` sets some bit.
abbrev pub IsSetting : Call → Type 0
IsSetting (set_call fd flags n p) = any flags ≡ true
IsSetting (clr_call fd flags) = Unit
IsSetting (del_call fd) = Unit

flags_after_ext :
    (c : Call) (m m' : ℕ → Mask) (i : ℕ) → m i ≡ m' i → flags_after c m i ≡ flags_after c m' i
unfolding flags_after
flags_after_ext (set_call fd flags n p) m m' i e =
    ap (λ x. if i == fd then (if any (both x flags) then x else either x flags) else x) e
flags_after_ext (clr_call fd flags) m m' i e =
    ap (λ x. if i == fd then (if any (both x flags) then without x flags else x) else x) e
flags_after_ext (del_call fd) m m' i e = ap (λ x. if i == fd then fdevent_none else x) e

-- A predicate on the state that a call leaves, if it returns 0.
abbrev Holds : {A : Type 0} → (A → Type 0) → Option A → Type 0
Holds P none = Unit
Holds P (some a) = P a

zero_ret : (n : ℤ) → int_eq n (pos 0) ≡ true → n ≡ pos 0
zero_ret (pos n) h = ground arith
zero_ret (negsuc n) h = absurd (ground arith)

done-Holds : {A : Type 0} (P : A → Type 0) (r : ℤ × A) → (r.0 ≡ pos 0 → P r.1) → Holds P (done r)
done-Holds P r h = elim (Bool-cases (int_eq r.0 (pos 0))) [
  | inl e ↦ rw e (h (zero_ret r.0 e))
  | inr e ↦ rw e tt
]

bound-Holds : (o : Option (ℤ × Selects)) → Kept o → Holds IsTracked (o >>= done)
bound-Holds none h = tt
bound-Holds (some r) h = done-Holds IsTracked r (λ e. h)

module _ {K : Type 0} (E : Epoll K) (fd_setsize : ℕ) where
  epoll_call-Watched :
      (c : Call) (s : Fdevents K)
      → IsSetting c
      → IsWatched E s
      → Holds (IsWatched E) (epoll_call E c s)
  unfolding epoll_call
  epoll_call-Watched (set_call fd flags n p) s ok w =
      done-Holds (IsWatched E) (Fdevents.set_flags E fd flags n p s)
        (set_flags-Watched E fd flags n p s ok w)
  epoll_call-Watched (clr_call fd flags) s ok w =
      done-Holds (IsWatched E) (Fdevents.clr E fd flags s) (clr-Watched E fd flags s w)
  epoll_call-Watched (del_call fd) s ok w =
      done-Holds (IsWatched E) (Fdevents.del E fd s) (del-Watched E fd s w)

  select_call-Tracked :
      (c : Call) (s : Selects)
      → IsSetting c
      → IsTracked s
      → Holds IsTracked (select_call fd_setsize c s)
  unfolding select_call
  select_call-Tracked (set_call fd flags n p) s ok t =
      done-Holds IsTracked (Select.set_flags fd_setsize fd flags n p s)
        (λ e. set_flags-IsTracked fd flags s t fd_setsize n p ok)
  select_call-Tracked (clr_call fd flags) s ok t =
      bound-Holds (Select.clr fd flags s) (clr-Kept fd flags s t)
  select_call-Tracked (del_call fd) s ok t =
      bound-Holds (Select.del fd_setsize fd s) (del-Kept fd_setsize fd s t)

  pub record Together (s : Fdevents K) (t : Selects) : Type 0 where
    pub same : (i : ℕ) → flags_of s.table i ≡ flags_of t.table i
    pub is_watched : IsWatched E s
    pub is_tracked : IsTracked t

  call-Together :
      (c : Call) (s s' : Fdevents K) (t t' : Selects)
      → IsSetting c
      → epoll_call E c s ≡ some s'
      → select_call fd_setsize c t ≡ some t'
      → Together s t
      → Together s' t'
  call-Together c s s' t t' ok hs ht both_ok = record {
    same = λ i.
        subst (After (λ x. x.table) c s.table) hs (epoll_call-After E c s) i
        ∙ flags_after_ext c (flags_of s.table) (flags_of t.table) i (both_ok.same i)
        ∙ sym (subst (After (λ x. x.table) c t.table) ht (select_call-After fd_setsize c t) i);
    is_watched = subst (Holds (IsWatched E)) hs (epoll_call-Watched c s ok both_ok.is_watched);
    is_tracked = subst (Holds IsTracked) ht (select_call-Tracked c t ok both_ok.is_tracked);
  }

  abbrev Both : Option (Fdevents K) → Option Selects → Type 0
  Both none o = Unit
  Both (some s) none = Unit
  Both (some s) (some t) = Together s t

  no_select : (o : Option (Fdevents K)) → Both o none
  no_select none = tt
  no_select (some s) = tt

  calls-Both :
      (cs : List Call) (s : Fdevents K) (t : Selects)
      → All IsSetting cs
      → Together s t
      → Both (epoll_calls E cs s) (select_calls fd_setsize cs t)
  unfolding epoll_calls select_calls
  calls-Both [] s t ok h = h
  calls-Both (c ∷ cs) s t (ok, oks) h = elim (Option-cases (epoll_call E c s)) [
    | inl e ↦ rw e tt
    | inr (s', hs) ↦ elim (Option-cases (select_call fd_setsize c t)) [
      | inl e ↦ rw e (no_select (epoll_call E c s >>= epoll_calls E cs))
      | inr (t', ht) ↦ rw (hs, ht) (calls-Both cs s' t' oks (call-Together c s s' t t' ok hs ht h))
    ]
  ]

  start-Together :
      (k : K) → ((fd : ℕ) → E.interest k fd ≡ none) → Together (Fdevents.init E k) Select.init
  unfolding interest_of entry
  start-Together k empty = record {
    same = λ i. refl;
    is_watched = empty;
    is_tracked = init-IsTracked;
  }

  -- Whether an entry of the interest list has the bit.
  abbrev pub epollin_of : Option EpollEvents → Bool
  epollin_of none = false
  epollin_of (some ev) = ev.epollin

  abbrev pub epollout_of : Option EpollEvents → Bool
  epollout_of none = false
  epollout_of (some ev) = ev.epollout

  in_interest : (m : Mask) → epollin_of (interest_of m) ≡ m.in_bit
  unfolding interest_of
  in_interest m = ground arith

  out_interest : (m : Mask) → epollout_of (interest_of m) ≡ m.out_bit
  unfolding interest_of
  out_interest m = ground arith

  -- The same calls of `set` with some bit, `clr` and `del`, all of which return 0 in both variants
  -- of `Fdevents`, from an empty interest list on, leave the kernel's interest list and the two
  -- sets of `select` watching every descriptor for the same, and `isset` answers the same in both.
  pub calls_agree :
      (k : K) (cs : List Call) (s : Fdevents K) (t : Selects)
      → ((fd : ℕ) → E.interest k fd ≡ none)
      → All IsSetting cs
      → epoll_calls E cs (Fdevents.init E k) ≡ some s
      → select_calls fd_setsize cs Select.init ≡ some t
      → (fd : ℕ)
      → (epollin_of (E.interest s.kernel fd) ≡ t.readset fd)
        × (epollout_of (E.interest s.kernel fd) ≡ t.writeset fd)
        × ((flag : Mask) → (Fdevents.isset E fd flag s).0 ≡ (Select.isset fd flag t).0)
  unfolding Fdevents.isset Select.isset
  calls_agree k cs s t empty oks hs ht fd =
      let h : Together s t =
        subst (λ o. Both o (some t)) hs
          (subst (Both (epoll_calls E cs (Fdevents.init E k))) ht
            (calls-Both cs (Fdevents.init E k) Select.init oks (start-Together k empty))) in
      (
        ap epollin_of (h.is_watched fd)
            ∙ in_interest (flags_of s.table fd)
            ∙ ap (λ m. m.in_bit) (h.same fd)
            ∙ sym (h.is_tracked.reads fd),
        ap epollout_of (h.is_watched fd)
            ∙ out_interest (flags_of s.table fd)
            ∙ ap (λ m. m.out_bit) (h.same fd)
            ∙ sym (h.is_tracked.writes fd),
        λ flag.
            ap (λ e. any (both e.s_flags flag)) (entry-get_fde fd fd s.table)
            ∙ ap (λ m. any (both m flag)) (h.same fd)
            ∙ sym (ap (λ e. any (both e.s_flags flag)) (entry-get_fde fd fd t.table)),
      )
