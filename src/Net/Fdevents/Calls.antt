-- ===== src/Net/Fdevents/Calls.antt =====
-- The calls that a server makes of the table, one after the other.
use geminidb.Prelude.{
  ℕ, zero, suc, ◌≡◌, refl, sym, ◌∙◌, Bool, true, false, Option, none, some, List, [], ◌∷◌, set,
  get_or, arith,
}
use geminidb.Prelude.Int.{ℤ, pos}
use geminidb.Net.Fdevents.{
  Mask, fdevent_in, any, both, Fdevent, EpollEvents, Epoll, Fdevents, init, new_fdevent, entry,
  isset, set_flags, del, clr, Ready, Polled, polled, poll_interrupted, poll_failed, mark_ready,
  ready_mask, wait,
}
use geminidb.Net.Fdevents.Watched.{
  IsWatched, interest_of, set_flags-Watched, clr-Watched, del-Watched, entry-get_fde,
}

-- The readiness that `wait` writes leaves the flags.
flags-set :
    (table : List Fdevent) (i j : ℕ) (x d d' : Fdevent)
    → x.s_flags ≡ (get_or table i d').s_flags
    → (get_or (set table i x) j d).s_flags ≡ (get_or table j d).s_flags
flags-set [] i j x d d' h = refl
flags-set (y ∷ table) zero zero x d d' h = h
flags-set (y ∷ table) zero (suc j) x d d' h = refl
flags-set (y ∷ table) (suc i) zero x d d' h = refl
flags-set (y ∷ table) (suc i) (suc j) x d d' h = flags-set table i j x d d' h

flags-mark :
    (e : Ready) (i : ℕ) (table : List Fdevent) (x : Fdevent)
    → x.s_flags ≡ (entry e.index table).s_flags
    → (entry i (set table e.index x)).s_flags ≡ (entry i table).s_flags
unfolding entry
flags-mark e i table x h = flags-set table e.index i x (new_fdevent i) (new_fdevent e.index) h

pub flags-mark_ready :
    (es : List Ready) (i : ℕ) (table : List Fdevent)
    → (entry i (mark_ready es table)).s_flags ≡ (entry i table).s_flags
unfolding mark_ready
flags-mark_ready [] i table = refl
flags-mark_ready (e ∷ es) i table =
    flags-mark_ready es i
      (set table e.index (record (entry e.index table) { events = ready_mask e }))
    ∙ flags-mark e i table (record (entry e.index table) { events = ready_mask e }) refl

module _ {K : Type 0} (E : Epoll K) where
  -- What a program can bring the table to with calls that return 0 and set some bit, and with waits.
  pub data Calls (k : K) : Fdevents K → Type 0 where
    created : Calls k (init E k)
    set_done :
        {s : Fdevents K} (fd : ℕ) (flags : Mask) (data_num : ℤ) (data_ptr : ℕ)
        → Calls k s
        → any flags ≡ true
        → (set_flags E fd flags data_num data_ptr s).0 ≡ pos 0
        → Calls k (set_flags E fd flags data_num data_ptr s).1
    clr_done :
        {s : Fdevents K} (fd : ℕ) (flags : Mask)
        → Calls k s
        → (clr E fd flags s).0 ≡ pos 0
        → Calls k (clr E fd flags s).1
    del_done :
        {s : Fdevents K} (fd : ℕ) → Calls k s → (del E fd s).0 ≡ pos 0 → Calls k (del E fd s).1
    asked : {s : Fdevents K} (fd : ℕ) (flag : Mask) → Calls k s → Calls k (isset E fd flag s).1
    waited : {s : Fdevents K} (answer : Polled) → Calls k s → Calls k (wait E answer s).1

  isset-Watched :
      (fd : ℕ) (flag : Mask) (s : Fdevents K) → IsWatched E s → IsWatched E (isset E fd flag s).1
  unfolding isset
  isset-Watched fd flag s w i = rw (entry-get_fde fd i s.table) (w i)

  pub wait-Watched :
      (answer : Polled) (s : Fdevents K) → IsWatched E s → IsWatched E (wait E answer s).1
  unfolding wait
  wait-Watched poll_interrupted s w = w
  wait-Watched poll_failed s w = w
  wait-Watched (polled es) s w = λ i. rw (flags-mark_ready es i s.table) (w i)

  -- After any calls of `set` with some bit, `clr` and `del` that return 0, and any calls of `isset`
  -- and `wait`, from an empty interest list on, the kernel watches every descriptor for what its
  -- entry of the table says, and the others not at all.
  pub Calls-Watched :
      (k : K) {s : Fdevents K} → ((fd : ℕ) → E.interest k fd ≡ none) → Calls k s → IsWatched E s
  unfolding interest_of entry
  Calls-Watched k empty created = empty
  Calls-Watched k empty (set_done {s} fd flags n p calls some_flag done) =
      set_flags-Watched E fd flags n p s some_flag (Calls-Watched k empty calls) done
  Calls-Watched k empty (clr_done {s} fd flags calls done) =
      clr-Watched E fd flags s (Calls-Watched k empty calls) done
  Calls-Watched k empty (del_done {s} fd calls done) =
      del-Watched E fd s (Calls-Watched k empty calls) done
  Calls-Watched k empty (asked {s} fd flag calls) =
      isset-Watched fd flag s (Calls-Watched k empty calls)
  Calls-Watched k empty (waited {s} answer calls) =
      wait-Watched answer s (Calls-Watched k empty calls)

  -- Whether an event of the kernel's interest list has the bit EPOLLIN.
  abbrev pub reads : Option EpollEvents → Bool
  reads none = false
  reads (some ev) = ev.epollin

  reads-interest : (m : Mask) → reads (interest_of m) ≡ any (both m fdevent_in)
  unfolding interest_of
  reads-interest m = ground arith

  -- Where the table and the kernel agree, a descriptor whose flags have FDEVENT_IN is one of which the
  -- kernel tells that it can be read.
  pub isset-heard :
      (s : Fdevents K) (fd : ℕ)
      → IsWatched E s
      → (isset E fd fdevent_in s).0 ≡ reads (E.interest s.kernel fd)
  unfolding isset
  isset-heard s fd w =
      rw (w fd, entry-get_fde fd fd s.table) (sym (reads-interest (entry fd s.table).s_flags))

  pub isset-interest :
      (k : K) {s : Fdevents K} (fd : ℕ)
      → ((fd : ℕ) → E.interest k fd ≡ none)
      → Calls k s
      → (isset E fd fdevent_in s).0 ≡ reads (E.interest s.kernel fd)
  isset-interest k {s} fd empty calls = isset-heard s fd (Calls-Watched k empty calls)
