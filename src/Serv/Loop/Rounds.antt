-- ===== src/Serv/Loop/Rounds.antt =====
-- The rounds of `NetworkServer::serve` of src/net/server.cpp: an event of the poll, a ready link, the
-- swap of the lists of ready links, and the jobs that the threads run meanwhile.
use geminidb.Prelude.{
  ℕ, zero, suc, ◌≡◌, Bool, Option, none, some, ◌>>=◌, List, [], ◌∷◌, Octets, ◌==◌, set, get_elem?,
  if◌then◌else◌,
}
use geminidb.Data.LevelDb.{LevelDb}
use geminidb.Net.Link.Socket.{Reading, Writing}
use geminidb.Net.Fdevents.{Fdevent, Epoll, Polled, entry, wait}
use geminidb.Net.Proc.{Command}
use geminidb.Serv.Commands.{Proc}
use geminidb.Serv.Loop.{Link, ProcJob, NetworkServer, proc_result, proc_request, add_link}
use geminidb.Serv.Loop.Requests.{serve_link, worker_proc}

-- The pointers that `serve` leaves with the descriptors of the listening socket and of the pools.
pub record Owners : Type 0 where
  pub serv_link : ℕ
  pub reader : ℕ
  pub writer : ℕ

-- What the system answers while an event is handled: the link that `accept_link` makes, and its pointer;
-- which of the jobs of the pool was done first; and what the socket answers to `read` and to `write`.
pub record Answer : Type 0 where
  pub accepted : Option (ℕ × Link)
  pub done : ℕ
  pub reads : List Reading
  pub writes : List Writing

-- `ProcWorkerPool::pop`, of a job that is done. A `pop` that fails leaves the pointer to the job unset, which
-- is `none` here.
unfoldable pub take_job : ℕ → List ProcJob → Option (ProcJob × List ProcJob)
take_job n [] = none
take_job zero (job ∷ jobs) = some (job, jobs)
take_job (suc n) (job ∷ jobs) = take_job n jobs >>= λ r. some (r.0, job ∷ r.1)

module _ {S K : Type 0} (E : Epoll K) where
  unfoldable pub new_link : Option (ℕ × Link) → NetworkServer S K → NetworkServer S K
  unfolding add_link
  new_link none s = s
  new_link (some (id, link)) s = add_link E id link s

  -- The branch for a pool, of the job that was taken from it.
  unfoldable pub popped :
      List Writing → ProcJob → List ℕ → NetworkServer S K → Option (List ℕ × NetworkServer S K)
  unfolding proc_result
  popped ws job ready s = proc_result E ws job ready s >>= λ r. some (r.1, r.2)

  -- The body of the loop over the events, for an entry of the table.
  unfoldable pub handle_event :
      Owners
      → (ℕ → Bool)
      → Answer
      → Fdevent
      → List ℕ
      → NetworkServer S K
      → Option (List ℕ × NetworkServer S K)
  unfolding new_link popped take_job proc_request
  handle_event owners realloc answer fde ready s =
      if fde.data_ptr == owners.serv_link
      then some (ready, new_link answer.accepted s)
      else if fde.data_ptr == owners.reader
      then take_job answer.done s.reader
        >>= (λ r. popped answer.writes r.0 ready (record s { reader = r.1 }))
      else if fde.data_ptr == owners.writer
      then take_job answer.done s.writer
        >>= (λ r. popped answer.writes r.0 ready (record s { writer = r.1 }))
      else proc_request E realloc answer.reads fde.data_ptr fde.events ready s

-- The locals of `serve`: the ready links of this round and of the next, and the server.
pub record Round (S K : Type 0) : Type 0 where
  pub ready_list : List ℕ
  pub ready_list_2 : List ℕ
  pub serv : NetworkServer S K

-- What `accept` and `new` give is not in use.
abbrev pub IsFresh : {S K : Type 0} → Option (ℕ × Link) → NetworkServer S K → Type 0
IsFresh none s = Unit
IsFresh (some (id, link)) s =
    (s.links id ≡ none)
    × ((id' : ℕ) (link' : Link) → s.links id' ≡ some link' → link'.sock ≡ link.sock → ⊥)

module _ {K : Type 0} (E : Epoll K) (L : LevelDb) (usage : Command Proc → Octets) (owners : Owners)
    (realloc : ℕ → Bool) where
  -- What the loop and the threads do, one after the other. A thread runs a job of its pool at any time.
  -- A turn that faults, by an access out of bounds or through the pointer of a deleted link, is no step.
  pub data Step (r : Round L.State K) : Round L.State K → Type 0 where
    swapped :
        r.ready_list ≡ []
        → Step r (record { ready_list = r.ready_list_2; ready_list_2 = []; serv = r.serv })
    waited :
        (answer : Polled)
        → Step r (record r { serv = record r.serv { fdes = (wait E answer r.serv.fdes).1 } })
    handled :
        (answer : Answer) (index : ℕ) (ready' : List ℕ) (s' : NetworkServer L.State K)
        → IsFresh answer.accepted r.serv
        → handle_event E owners realloc answer (entry index r.serv.fdes.table) r.ready_list r.serv
          ≡ some (ready', s')
        → Step r (record r { ready_list = ready'; serv = s' })
    served :
        (ws : List Writing) (id : ℕ) (ids ready' : List ℕ) (s' : NetworkServer L.State K)
        → r.ready_list ≡ id ∷ ids
        → serve_link E L usage realloc ws id r.ready_list_2 r.serv ≡ some (ready', s')
        → Step r (record { ready_list = ids; ready_list_2 = ready'; serv = s' })
    wrote :
        (ws : List Writing) (n : ℕ) (job job' : ProcJob) (s' : NetworkServer L.State K)
        → get_elem? r.serv.writer n ≡ some job
        → worker_proc E L usage realloc ws job r.serv ≡ some (job', s')
        → Step r (record r { serv = record s' { writer = set s'.writer n job' } })
    read :
        (ws : List Writing) (n : ℕ) (job job' : ProcJob) (s' : NetworkServer L.State K)
        → get_elem? r.serv.reader n ≡ some job
        → worker_proc E L usage realloc ws job r.serv ≡ some (job', s')
        → Step r (record r { serv = record s' { reader = set s'.reader n job' } })

  pub data Reach (r : Round L.State K) : Round L.State K → Type 0 where
    begun : Reach r r
    then_step : (m r' : Round L.State K) → Reach r m → Step m r' → Reach r r'
