-- ===== src/Tests/Watches.antt =====
-- An interest list of the kernel as a function, and the properties of the table at a few calls.
use geminidb.Prelude.{
  ℕ, ◌≡◌, ◌≢◌, refl, Bool, true, false, Option, none, some, ◌==◌, ==-refl, if◌then◌else◌, arith,
}
use geminidb.Prelude.Int.{pos}
use geminidb.Net.Fdevents.{
  fdevent_in, fdevent_out, CtlOp, ctl_add, ctl_mod, ctl_del, EpollEvents, Epoll, Fdevents, init,
  isset, set_flags, clr, entry,
}
use geminidb.Net.Fdevents.Watched.{IsWatched, interest_of}
use geminidb.Net.Fdevents.Reliable.{IsReliable}
use geminidb.Net.Fdevents.Calls.{
  Calls, created, set_done, clr_done, Calls-Watched, reads, isset-interest,
}

abbrev pub Kernel : Type 0
Kernel = ℕ → Option EpollEvents

abbrev pub update : ℕ → Option EpollEvents → Kernel → Kernel
update fd ev k fd' = if fd' == fd then ev else k fd'

abbrev pub kernel_ctl : CtlOp → Option EpollEvents → ℕ → EpollEvents → Kernel → Bool × Kernel
kernel_ctl ctl_add none fd ev k = (true, update fd (some ev) k)
kernel_ctl ctl_add (some old) fd ev k = (false, k)
kernel_ctl ctl_mod none fd ev k = (false, k)
kernel_ctl ctl_mod (some old) fd ev k = (true, update fd (some ev) k)
kernel_ctl ctl_del none fd ev k = (false, k)
kernel_ctl ctl_del (some old) fd ev k = (true, update fd none k)

there : (fd : ℕ) (ev : Option EpollEvents) (k : Kernel) → update fd ev k fd ≡ ev
there fd ev k = rw (==-refl fd) refl

elsewhere :
    (fd fd' : ℕ) (ev : Option EpollEvents) (k : Kernel) → fd' ≢ fd → update fd ev k fd' ≡ k fd'
elsewhere fd fd' ev k ne = ground arith

pub unchanged :
    (op : CtlOp) (old : Option EpollEvents) (fd : ℕ) (ev : EpollEvents) (k : Kernel)
    → (kernel_ctl op old fd ev k).0 ≡ false
    → (kernel_ctl op old fd ev k).1 ≡ k
unchanged ctl_add none fd ev k h = absurd (ground arith)
unchanged ctl_add (some old) fd ev k h = refl
unchanged ctl_mod none fd ev k h = refl
unchanged ctl_mod (some old) fd ev k h = absurd (ground arith)
unchanged ctl_del none fd ev k h = refl
unchanged ctl_del (some old) fd ev k h = absurd (ground arith)

pub others :
    (op : CtlOp) (old : Option EpollEvents) (fd fd' : ℕ) (ev : EpollEvents) (k : Kernel)
    → fd' ≢ fd
    → (kernel_ctl op old fd ev k).1 fd' ≡ k fd'
others ctl_add none fd fd' ev k ne = elsewhere fd fd' (some ev) k ne
others ctl_add (some old) fd fd' ev k ne = refl
others ctl_mod none fd fd' ev k ne = refl
others ctl_mod (some old) fd fd' ev k ne = elsewhere fd fd' (some ev) k ne
others ctl_del none fd fd' ev k ne = refl
others ctl_del (some old) fd fd' ev k ne = elsewhere fd fd' none k ne

pub added :
    (old : Option EpollEvents) (fd : ℕ) (ev : EpollEvents) (k : Kernel)
    → (kernel_ctl ctl_add old fd ev k).0 ≡ true
    → (kernel_ctl ctl_add old fd ev k).1 fd ≡ some ev
added none fd ev k h = there fd (some ev) k
added (some old) fd ev k h = absurd (ground arith)

pub modified :
    (old : Option EpollEvents) (fd : ℕ) (ev : EpollEvents) (k : Kernel)
    → (kernel_ctl ctl_mod old fd ev k).0 ≡ true
    → (kernel_ctl ctl_mod old fd ev k).1 fd ≡ some ev
modified none fd ev k h = absurd (ground arith)
modified (some old) fd ev k h = there fd (some ev) k

pub deleted :
    (old : Option EpollEvents) (fd : ℕ) (ev : EpollEvents) (k : Kernel)
    → (kernel_ctl ctl_del old fd ev k).0 ≡ true
    → (kernel_ctl ctl_del old fd ev k).1 fd ≡ none
deleted none fd ev k h = absurd (ground arith)
deleted (some old) fd ev k h = there fd none k

abbrev pub epoll : Epoll Kernel
epoll = record {
  ctl = λ op fd ev k. kernel_ctl op (k fd) fd ev k;
  interest = λ k fd. k fd;
  ctl_failed = λ op fd ev k h. unchanged op (k fd) fd ev k h;
  ctl_other = λ op fd fd' ev k ne. others op (k fd) fd fd' ev k ne;
  ctl_added = λ fd ev k h. added (k fd) fd ev k h;
  ctl_modified = λ fd ev k h. modified (k fd) fd ev k h;
  ctl_deleted = λ fd ev k h. deleted (k fd) fd ev k h;
}

adds :
    (old : Option EpollEvents) (fd : ℕ) (ev : EpollEvents) (k : Kernel)
    → old ≡ none
    → (kernel_ctl ctl_add old fd ev k).0 ≡ true
adds none fd ev k h = refl
adds (some old) fd ev k h = absurd (ground (arith, h))

modifies :
    (o : Option EpollEvents) (fd : ℕ) (ev old : EpollEvents) (k : Kernel)
    → o ≡ some old
    → (kernel_ctl ctl_mod o fd ev k).0 ≡ true
modifies none fd ev old k h = absurd (ground (arith, h))
modifies (some o) fd ev old k h = refl

deletes :
    (o : Option EpollEvents) (fd : ℕ) (ev old : EpollEvents) (k : Kernel)
    → o ≡ some old
    → (kernel_ctl ctl_del o fd ev k).0 ≡ true
deletes none fd ev old k h = absurd (ground (arith, h))
deletes (some o) fd ev old k h = refl

pub epoll-IsReliable : IsReliable epoll
epoll-IsReliable = record {
  adds = λ fd ev k h. adds (k fd) fd ev k h;
  modifies = λ fd ev old k h. modifies (k fd) fd ev old k h;
  deletes = λ fd ev old k h. deletes (k fd) fd ev old k h;
}

abbrev pub no_interest : Kernel
no_interest fd = none

pub empty_table-IsWatched : IsWatched epoll (init epoll no_interest)
unfolding interest_of entry
empty_table-IsWatched fd = refl

abbrev listening : Fdevents Kernel
listening = (set_flags epoll 2 fdevent_in (pos 1) 5 (init epoll no_interest)).1

abbrev writing : Fdevents Kernel
writing = (set_flags epoll 2 fdevent_out (pos 1) 5 listening).1

abbrev cleared : Fdevents Kernel
cleared = (clr epoll 2 fdevent_out writing).1

listening-Calls : Calls epoll no_interest listening
unfolding set_flags
listening-Calls = set_done 2 fdevent_in (pos 1) 5 created refl refl

writing-Calls : Calls epoll no_interest writing
unfolding set_flags
writing-Calls = set_done 2 fdevent_out (pos 1) 5 listening-Calls refl refl

cleared-Calls : Calls epoll no_interest cleared
unfolding set_flags clr
cleared-Calls = clr_done 2 fdevent_out writing-Calls refl

Calls-Watched_example : IsWatched epoll cleared
Calls-Watched_example = Calls-Watched epoll no_interest (λ fd. refl) cleared-Calls

isset-interest_example :
    (isset epoll 2 fdevent_in cleared).0 ≡ reads epoll (epoll.interest cleared.kernel 2)
isset-interest_example = isset-interest epoll no_interest 2 (λ fd. refl) cleared-Calls
