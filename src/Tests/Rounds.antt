-- ===== src/Tests/Rounds.antt =====
-- The rounds of the event loop, at a server that gets its first link.
use geminidb.Prelude.{ℕ, ◌≡◌, refl, true, false, Option, none, some, List, [], ◌∷◌, codes, arith}
use geminidb.Prelude.Int.{pos}
use geminidb.Net.Fdevents.{Fdevents, fdevent_in, set_flags, entry, wait, Polled, polled}
use geminidb.Net.Fdevents
use geminidb.Net.Link.Socket.{arrived, accepted, read}
use geminidb.Serv.Loop.{NetworkServer}
use geminidb.Serv.Loop.Requests.{serve_link}
use geminidb.Serv.Loop.Rounds.{
  Owners, Answer, handle_event, Round, begun, then_step, handled, waited, served,
}
use geminidb.Serv.Loop.Watching.Always.{IsTended, Reach-IsTended}
use geminidb.Net.Fdevents.Watched.{IsWatched}
use geminidb.Net.Fdevents.Reliable.{set_flags-Agrees}
use geminidb.Tests.{sure}
use geminidb.Tests.Watches.{epoll, epoll-IsReliable, empty_table-IsWatched, no_interest, Kernel}
use geminidb.Tests.Turns.{given, no_usage, client, server}

abbrev owners : Owners
owners = record { serv_link = 1; reader = 2; writer = 4 }

-- The listening socket is descriptor 5.
listening : Fdevents Kernel
unfolding set_flags
listening = (set_flags epoll 5 fdevent_in (pos 0) 1 (Fdevents.init epoll no_interest)).1

listening-IsWatched : IsWatched epoll listening
unfolding listening
listening-IsWatched =
    set_flags-Agrees epoll epoll-IsReliable 5 fdevent_in (pos 0) 1 (Fdevents.init epoll no_interest)
      refl empty_table-IsWatched

abbrev nobody : NetworkServer sure.State Kernel
nobody = record server { fdes = listening; links = λ id. none }

abbrev start : Round sure.State Kernel
start = record { ready_list = []; ready_list_2 = []; serv = nobody }

start-IsTended : IsTended epoll start
start-IsTended = record {
  tended = λ id link there. absurd (ground (arith, there));
  apart = λ id id' link link' h h' ne. absurd (ground (arith, h));
  agreed = listening-IsWatched;
}

abbrev came : Answer
came = record { accepted = some (3, client); done = 0; reads = []; writes = [] }

abbrev or_nobody :
    Option (List ℕ × NetworkServer sure.State Kernel) → List ℕ × NetworkServer sure.State Kernel
or_nobody none = ([], nobody)
or_nobody (some r) = r

after_event : List ℕ × NetworkServer sure.State Kernel
unfolding listening
after_event = or_nobody (handle_event epoll owners given came (entry 5 listening.table) [] nobody)

event_handled :
    handle_event epoll owners given came (entry 5 listening.table) [] nobody
    ≡ some (after_event.0, after_event.1)
unfolding after_event listening handle_event entry
event_handled = refl

abbrev second : Round sure.State Kernel
second = record start { ready_list = after_event.0; serv = after_event.1 }

-- The poll finds bytes at the new link, which is read and then served.
abbrev polled_bytes : Polled
polled_bytes = polled (
    record {
      index = 7;
      ready_in = true;
      ready_pri = false;
      ready_out = false;
      ready_hup = false;
      ready_err = false;
    }
    ∷ [])

abbrev third : Round sure.State Kernel
third = record second {
  serv = record second.serv { fdes = (wait epoll polled_bytes second.serv.fdes).1 };
}

abbrev read_bytes : Answer
read_bytes = record {
  accepted = none;
  done = 0;
  reads = arrived (codes "ng\n\n") ∷ [];
  writes = [];
}

after_read : List ℕ × NetworkServer sure.State Kernel
after_read = or_nobody (
    handle_event epoll owners given read_bytes (entry 7 third.serv.fdes.table) third.ready_list
      third.serv)

read_handled :
    handle_event epoll owners given read_bytes
      (entry 7 third.serv.fdes.table)
      third.ready_list
      third.serv
    ≡ some (after_read.0, after_read.1)
unfolding after_read after_event listening handle_event entry wait
read_handled = refl

abbrev fourth : Round sure.State Kernel
fourth = record third { ready_list = after_read.0; serv = after_read.1 }

after_turn : List ℕ × NetworkServer sure.State Kernel
after_turn = or_nobody (serve_link epoll sure no_usage given (accepted 4 ∷ []) 3 [] fourth.serv)

first_ready : fourth.ready_list ≡ 3 ∷ []
unfolding after_read after_event listening handle_event entry wait
first_ready = refl

turn_served :
    serve_link epoll sure no_usage given (accepted 4 ∷ []) 3 [] fourth.serv
    ≡ some (after_turn.0, after_turn.1)
unfolding after_turn after_read after_event listening handle_event entry wait serve_link read
turn_served = refl

abbrev fifth : Round sure.State Kernel
fifth = record { ready_list = []; ready_list_2 = after_turn.0; serv = after_turn.1 }

Reach-IsTended_example : IsTended epoll fifth
Reach-IsTended_example =
    Reach-IsTended epoll sure no_usage owners given start fifth epoll-IsReliable start-IsTended (
      then_step fourth fifth
        (then_step third fourth
          (then_step second third
            (then_step start second begun (
              handled came 5 after_event.0 after_event.1
                (refl, λ id' link' there e. ground (arith, there)) event_handled))
            (waited polled_bytes))
          (handled read_bytes 7 after_read.0 after_read.1 tt read_handled))
        (served (accepted 4 ∷ []) 3 [] after_turn.0 after_turn.1 first_ready turn_served))
