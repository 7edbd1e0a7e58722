-- ===== src/Serv/Loop/Homed/Always.antt =====
-- All that the loop and the threads do, whatever the order, leaves every link a place.
use geminidb.Prelude.{ℕ, Bool, subst, Octets}
use geminidb.Data.LevelDb.{LevelDb}
use geminidb.Net.Fdevents.{Epoll, entry}
use geminidb.Net.Proc.{Command}
use geminidb.Serv.Commands.{Proc}
use geminidb.Serv.Loop.Rounds.{
  Owners, Round, Step, swapped, waited, handled, served, wrote, read, Reach, begun, then_step,
}
use geminidb.Serv.Loop.Homed.{IsSettled}
use geminidb.Serv.Loop.Homed.Events.{Keeps}
use geminidb.Serv.Loop.Homed.Jobs.{handle_event-Keeps}
use geminidb.Serv.Loop.Homed.Steps.{
  waited-Home, swapped-Home, served-IsSettled, wrote-IsSettled, read-IsSettled,
}

module _ {K : Type 0} (E : Epoll K) (L : LevelDb) (usage : Command Proc → Octets) (owners : Owners)
    (realloc : ℕ → Bool) where
  Step-IsSettled :
      (r r' : Round L.State K) → Step E L usage owners realloc r r' → IsSettled E r → IsSettled E r'
  Step-IsSettled r r' (swapped e) settled = record {
    homed = λ id link there.
        swapped-Home E L usage owners realloc id link.sock r e (settled.homed id link there);
    apart = settled.apart;
  }
  Step-IsSettled r r' (waited answer) settled = record {
    homed = λ id link there.
        waited-Home E L usage owners realloc id link.sock answer r (settled.homed id link there);
    apart = settled.apart;
  }
  Step-IsSettled r r' (handled answer index ready' s' fresh h) settled =
      subst (Keeps E r.ready_list_2) h (
        handle_event-Keeps E owners realloc answer (entry index r.serv.fdes.table) r.ready_list
          r.ready_list_2 r.serv fresh settled)
  Step-IsSettled r r' (served ws id ids ready' s' first h) settled =
      served-IsSettled E L usage owners realloc ws id ids ready' r s' first h settled
  Step-IsSettled r r' (wrote ws n job job' s' stands h) settled =
      wrote-IsSettled E L usage owners realloc ws n job job' r s' stands h settled
  Step-IsSettled r r' (read ws n job job' s' stands h) settled =
      read-IsSettled E L usage owners realloc ws n job job' r s' stands h settled

  -- By the flags of the table, whatever the kernel answers, no live link is lost and no two share a
  -- descriptor behind any steps, if that holds at first.
  pub Reach-IsSettled :
      (r r' : Round L.State K)
      → IsSettled E r
      → Reach E L usage owners realloc r r'
      → IsSettled E r'
  Reach-IsSettled r r' settled begun = settled
  Reach-IsSettled r r' settled (then_step m s reach step) =
      Step-IsSettled m s step (Reach-IsSettled r m settled reach)
