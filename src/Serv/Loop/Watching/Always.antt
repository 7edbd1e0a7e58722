-- ===== src/Serv/Loop/Watching/Always.antt =====
-- All that the loop and the threads do, whatever the order, over a kernel that carries its calls out.
use geminidb.Prelude.{ℕ, ◌≡◌, ◌≢◌, sym, ◌∙◌, Bool, true, some, Octets}
use geminidb.Data.LevelDb.{LevelDb}
use geminidb.Net.Fdevents.{Epoll}
use geminidb.Net.Fdevents.Reliable.{IsReliable}
use geminidb.Net.Proc.{Command}
use geminidb.Serv.Commands.{Proc}
use geminidb.Serv.Loop.{Link}
use geminidb.Serv.Loop.Apart.{HasJob}
use geminidb.Serv.Loop.Rounds.{Owners, Round, Reach}
use geminidb.Serv.Loop.Homed.{
  IsIn, Home, in_list, in_list_2, is_watched, with_writer, with_reader, IsSettled,
}
use geminidb.Serv.Loop.Homed.Always.{Reach-IsSettled}
use geminidb.Serv.Loop.Watching.{Agreed}
use geminidb.Serv.Loop.Watching.Heard.{hears, reading-hears}
use geminidb.Serv.Loop.Watching.Steps.{Reach-Agreed}

module _ {S K : Type 0} (E : Epoll K) where
  -- The link is among the ready links of this round or of the next, or the kernel watches it for input,
  -- or a pool has a job of it.
  pub data Tended (id sock : ℕ) (r : Round S K) : Type 0 where
    in_ready_list : IsIn id r.ready_list → Tended id sock r
    in_ready_list_2 : IsIn id r.ready_list_2 → Tended id sock r
    heard : hears E sock r.serv ≡ true → Tended id sock r
    in_writer : HasJob id r.serv.writer → Tended id sock r
    in_reader : HasJob id r.serv.reader → Tended id sock r

  -- Each live link is tended, no two share a descriptor, and the kernel watches what the table says.
  pub record IsTended (r : Round S K) : Type 0 where
    pub tended : (id : ℕ) (link : Link) → r.serv.links id ≡ some link → Tended id link.sock r
    pub apart :
        (id id' : ℕ) (link link' : Link)
        → r.serv.links id ≡ some link
        → r.serv.links id' ≡ some link'
        → id' ≢ id
        → link'.sock ≢ link.sock
    pub agreed : Agreed E r.serv

  Tended-Home :
      (id sock : ℕ) (r : Round S K) → Agreed E r.serv → Tended id sock r → Home E id sock r
  Tended-Home id sock r w (in_ready_list h) = in_list h
  Tended-Home id sock r w (in_ready_list_2 h) = in_list_2 h
  Tended-Home id sock r w (heard h) = is_watched (reading-hears E sock r.serv w ∙ h)
  Tended-Home id sock r w (in_writer h) = with_writer h
  Tended-Home id sock r w (in_reader h) = with_reader h

  Home-Tended :
      (id sock : ℕ) (r : Round S K) → Agreed E r.serv → Home E id sock r → Tended id sock r
  Home-Tended id sock r w (in_list h) = in_ready_list h
  Home-Tended id sock r w (in_list_2 h) = in_ready_list_2 h
  Home-Tended id sock r w (is_watched h) = heard (sym (reading-hears E sock r.serv w) ∙ h)
  Home-Tended id sock r w (with_writer h) = in_writer h
  Home-Tended id sock r w (with_reader h) = in_reader h

  IsTended-IsSettled : (r : Round S K) → IsTended r → IsSettled E r
  IsTended-IsSettled r t = record {
    homed = λ id link there. Tended-Home id link.sock r t.agreed (t.tended id link there);
    apart = t.apart;
  }

module _ {K : Type 0} (E : Epoll K) (L : LevelDb) (usage : Command Proc → Octets) (owners : Owners)
    (realloc : ℕ → Bool) where
  -- As long as no step faults, whatever the event loop and the threads of the pools do, in whatever
  -- order, no live link is lost, no two share a descriptor, and the kernel watches every descriptor
  -- for what the table of the server says: if that holds at first, then behind every step each live
  -- link is among the ready links of this round or of the next, or the kernel watches it for input,
  -- or a pool has a job of it. The kernel carries out the calls of epoll_ctl for which it has an
  -- entry, or has none where one is added; and what `accept` and `new` give is not in use.
  pub Reach-IsTended :
      (r r' : Round L.State K)
      → IsReliable E
      → IsTended E r
      → Reach E L usage owners realloc r r'
      → IsTended E r'
  Reach-IsTended r r' sure t reach =
      let w : Agreed E r'.serv = Reach-Agreed E sure L usage owners realloc r r' reach t.agreed in
      let settled : IsSettled E r' =
        Reach-IsSettled E L usage owners realloc r r' (IsTended-IsSettled E r t) reach in
      record {
        tended = λ id link there. Home-Tended E id link.sock r' w (settled.homed id link there);
        apart = settled.apart;
        agreed = w;
      }
