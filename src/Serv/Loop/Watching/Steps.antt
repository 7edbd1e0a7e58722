-- ===== src/Serv/Loop/Watching/Steps.antt =====
-- Every step of the loop and of the threads leaves the agreement of the table and the kernel.
use geminidb.Prelude.{
  ℕ, subst, Bool, true, false, not, ◌&&◌, Option, none, some, ◌>>=◌, List, Octets, if◌then◌else◌,
}
use geminidb.Prelude.Int.{is_minus_one}
use geminidb.Data.LevelDb.{LevelDb}
use geminidb.Net.Link.{send}
use geminidb.Net.Link.Socket.{Writing, write}
use geminidb.Net.Fdevents.{Epoll, entry}
use geminidb.Net.Fdevents.Calls.{wait-Watched}
use geminidb.Net.Fdevents.Reliable.{IsReliable}
use geminidb.Net.Proc.{Command}
use geminidb.Serv.Commands.{Proc}
use geminidb.Serv.Commands.Dispatch.{run}
use geminidb.Serv.Loop.{Link, ProcJob, NetworkServer, is_negative, put_link, proc_ok, proc_error}
use geminidb.Serv.Loop.Requests.{send_response, worker_proc}
use geminidb.Serv.Loop.Rounds.{
  Owners, Round, Step, swapped, waited, handled, served, wrote, read, Reach, begun, then_step,
}
use geminidb.Serv.Loop.Watching.{Agreed, Agrees, put_link-Agreed}
use geminidb.Serv.Loop.Watching.Turn.{serve_link-Agrees, handle_event-Agrees}

module _ {K : Type 0} (E : Epoll K) (L : LevelDb) (usage : Command Proc → Octets) where
  abbrev Works : Option (ProcJob × NetworkServer L.State K) → Type 0
  Works none = Unit
  Works (some r) = Agreed E r.1

  bound :
      {A : Type 0} (o : Option A) (f : A → Option (ProcJob × NetworkServer L.State K))
      → ((a : A) → Works (f a))
      → Works (o >>= f)
  bound none f h = tt
  bound (some a) f h = h a

  one_of :
      (b : Bool) (r r' : ProcJob × NetworkServer L.State K)
      → Agreed E r.1
      → Agreed E r'.1
      → Works (some (if b then r else r'))
  one_of true r r' h h' = h
  one_of false r r' h h' = h'

  worker_proc-Works :
      (realloc : ℕ → Bool) (ws : List Writing) (job : ProcJob) (s : NetworkServer L.State K)
      → Agreed E s
      → Works (worker_proc E L usage realloc ws job s)
  unfolding worker_proc send_response
  worker_proc-Works realloc ws job s w = bound job.cmd _ (λ cmd. bound (s.links job.link) _ (λ link.
      bound (run L usage cmd.proc job.req s.net) _ (λ r.
        let ran : ProcJob = record job { result = proc_ok; resp = r.0 } in
        let sent = send realloc r.0 link.output in
        let job' = if is_minus_one sent.0 then record ran { result = proc_error } else ran in
        let link' : Link = record link { output = sent.1 } in
        let wrote = write link.noblock sent.1 ws in
        let job'' = if is_negative wrote.0 then record job' { result = proc_error } else job' in
        let link'' : Link = record link' { output = wrote.1 } in
        let s1 : NetworkServer L.State K = record s { net = r.1 } in
        one_of (not (is_minus_one job'.result) && cmd.flags.read)
          (job'', put_link E job.link (some link'') s1) (job', put_link E job.link (some link') s1)
          (put_link-Agreed E job.link (some link'') s1 w)
          (put_link-Agreed E job.link (some link') s1 w))))

module _ {K : Type 0} (E : Epoll K) (sure : IsReliable E) (L : LevelDb)
    (usage : Command Proc → Octets) (owners : Owners) (realloc : ℕ → Bool) where
  Step-Agreed :
      (r r' : Round L.State K)
      → Step E L usage owners realloc r r'
      → Agreed E r.serv
      → Agreed E r'.serv
  Step-Agreed r r' (swapped e) w = w
  Step-Agreed r r' (waited answer) w = wait-Watched E answer r.serv.fdes w
  Step-Agreed r r' (handled answer index ready' s' fresh h) w = subst (Agrees E) h (
      handle_event-Agrees E sure owners realloc answer (entry index r.serv.fdes.table) r.ready_list
        r.serv w)
  Step-Agreed r r' (served ws id ids ready' s' first h) w =
      subst (Agrees E) h (serve_link-Agrees E sure L usage realloc ws id r.ready_list_2 r.serv w)
  Step-Agreed r r' (wrote ws n job job' s' stands h) w =
      subst (Works E L usage) h (worker_proc-Works E L usage realloc ws job r.serv w)
  Step-Agreed r r' (read ws n job job' s' stands h) w =
      subst (Works E L usage) h (worker_proc-Works E L usage realloc ws job r.serv w)

  pub Reach-Agreed :
      (r r' : Round L.State K)
      → Reach E L usage owners realloc r r'
      → Agreed E r.serv
      → Agreed E r'.serv
  Reach-Agreed r r' begun w = w
  Reach-Agreed r r' (then_step m s reach step) w = Step-Agreed m s step (Reach-Agreed r m reach w)
