-- ===== src/Tests/Selects.antt =====
-- The variant of the table over `select`, at a few calls.
use geminidb.Prelude.{
  ℕ, ◌≡◌, refl, ◌↔◌, Bool, true, false, ◌||◌, Option, none, some, List, [], ◌∷◌, ◌==◌, arith,
}
use geminidb.Prelude.Int.{pos}
use geminidb.Net.Fdevents.{Mask, Fdevents, fdevent_in, fdevent_out, any, entry}
use geminidb.Net.Fdevents
use geminidb.Net.Select
use geminidb.Net.Select.{Selects, selected, wait, clr}
use geminidb.Net.Select.Tracked.{IsTracked, init-IsTracked}
use geminidb.Net.Select.Kept.{set_flags-IsTracked}
use geminidb.Net.Select.Cleared.{cleared, clr-none}
use geminidb.Net.Select.Ready.{IsIn, wait-Ready}
use geminidb.Net.Select.Agree.{Call, set_call, clr_call, del_call, epoll_calls, select_calls}
use geminidb.Net.Select.Agree.Runs.{calls_agree, epollin_of, epollout_of}
use geminidb.Tests.Watches.{epoll, no_interest, Kernel}

-- One descriptor is watched for input.
one : Selects
unfolding Select.set_flags
one = (Select.set_flags 1024 5 fdevent_in (pos 1) 3 Select.init).1

one-IsTracked : IsTracked one
unfolding one
one-IsTracked = set_flags-IsTracked 5 fdevent_in Select.init init-IsTracked 1024 (pos 1) 3 refl

one-flag : any (Fdevents.both (entry 5 one.table).s_flags fdevent_in) ≡ true
unfolding one entry
one-flag = refl

clr-none_example :
    (clr 5 fdevent_in one ≡ none)
    ↔ ((i : ℕ) → any (entry i (cleared 5 fdevent_in one one-IsTracked)).s_flags ≡ false)
clr-none_example = clr-none 5 fdevent_in one one-IsTracked one-flag

abbrev five : ℕ → Bool
five fd = fd == 5

abbrev nothing : ℕ → Bool
nothing fd = false

wait-Ready_example :
    (ready : List ℕ) × ((wait (selected 1 five nothing) one).0 ≡ some ready)
    × ((fd : ℕ) → IsIn fd ready ↔ ((five fd || nothing fd) ≡ true))
unfolding one
wait-Ready_example =
    wait-Ready five nothing one 1 one-IsTracked (λ fd e. ground (arith, e))
      (λ fd e. absurd (ground (arith, e))) refl

abbrev calls : List Call
calls =
    set_call 5 fdevent_in (pos 1) 3
    ∷ set_call 7 fdevent_out (pos 1) 4
    ∷ clr_call 5 fdevent_in
    ∷ set_call 6 fdevent_in (pos 1) 8
    ∷ del_call 7
    ∷ []

abbrev or_none : Option (Fdevents Kernel) → Fdevents Kernel
or_none none = Fdevents.init epoll no_interest
or_none (some s) = s

abbrev or_init : Option Selects → Selects
or_init none = Select.init
or_init (some s) = s

by_epoll : Fdevents Kernel
by_epoll = or_none (epoll_calls epoll calls (Fdevents.init epoll no_interest))

by_select : Selects
by_select = or_init (select_calls 1024 calls Select.init)

epoll_done : epoll_calls epoll calls (Fdevents.init epoll no_interest) ≡ some by_epoll
unfolding by_epoll epoll_calls
epoll_done = refl

select_done : select_calls 1024 calls Select.init ≡ some by_select
unfolding by_select select_calls
select_done = refl

calls_agree_example :
    (epollin_of epoll 1024 (epoll.interest by_epoll.kernel 6) ≡ by_select.readset 6)
    × (epollout_of epoll 1024 (epoll.interest by_epoll.kernel 6) ≡ by_select.writeset 6)
    × ((flag : Mask) → (Fdevents.isset epoll 6 flag by_epoll).0 ≡ (Select.isset 6 flag by_select).0)
calls_agree_example =
    calls_agree epoll 1024 no_interest calls by_epoll by_select (λ fd. refl)
      (refl, (refl, (tt, (refl, (tt, tt))))) epoll_done select_done 6
