-- ===== src/Serv/Loop/Answers/Threads.antt =====
-- A request that a thread answers, and the end of its job in the loop.
use geminidb.Prelude.{
  ℕ, ◌+◌, ◌^◌, ◌<◌, ◌≤◌, ◌≡◌, refl, ◌∙◌, ap, subst, Bool, true, false, not, ◌&&◌, ◌||◌, arith,
  Option, none, some, List, [], ◌∷◌, ◌++◌, Octets, drop, if◌then◌else◌,
}
use geminidb.Prelude.Int.{ℤ, pos, negsuc, is_minus_one}
use geminidb.Data.LevelDb.{LevelDb}
use geminidb.Net.Link.{send}
use geminidb.Net.Link.Packet.{packet_of}
use geminidb.Net.Link.Sent.{bound, used, send-bytes}
use geminidb.Net.Link.Socket.{Writing, write}
use geminidb.Net.Link.Socket.Taken.{fails, is_refused, write-fails, offered, write-Sent}
use geminidb.Net.Fdevents.{Epoll}
use geminidb.Net.Proc.{Command}
use geminidb.Serv.Kv.{Request}
use geminidb.Serv.Commands.{Proc, Server}
use geminidb.Serv.Commands.Dispatch.{run}
use geminidb.Serv.Loop.{
  Link, ProcJob, NetworkServer, put_link, finish_job, proc_result, is_negative, proc_error, proc_ok,
}
use geminidb.Serv.Loop.Placed.{put_link_lem}
use geminidb.Serv.Loop.Requests.{send_response, worker_proc}
use geminidb.Serv.Loop.Rounds.{popped}
use geminidb.Serv.Loop.Answers.{IsAnswered, finish_job-IsAnswered}

-- The job that the loop pushed to a pool.
abbrev pub pushed : ℕ → Command Proc → Request → ProcJob
pushed id cmd req = record { result = proc_ok; link = id; cmd = some cmd; req = req; resp = [] }

module _ {K : Type 0} (E : Epoll K) (L : LevelDb) (usage : Command Proc → Octets)
    (realloc : ℕ → Bool) (given : (n : ℕ) → realloc n ≡ true) (id : ℕ) (ws' : List Writing)
    (ready : List ℕ) (rest : Octets) (y : Octets) (ys : List Octets) (net : Server L.State)
    (ws : List Writing) where
  -- A call of the system fails for the thread or for the loop.
  abbrev pub refused : Bool
  refused = fails ws || fails ws'

  -- The job has run, and the loop that it comes back to leaves its answer on the way.
  abbrev Done : Option (ProcJob × NetworkServer L.State K) → Type 0
  Done none = ⊥
  Done (some (job', s')) =
      (ready' : List ℕ) × (t : NetworkServer L.State K) × (k : ℕ) × (k ≤ offered ws)
      × (popped E ws' job' ready s' ≡ some (ready', t))
      × IsAnswered E id rest (drop k (packet_of (y ∷ ys))) net refused (offered ws') t

  comes_back :
      (job' : ProcJob) (link' : Link) (k : ℕ) (s1 : NetworkServer L.State K)
      → job'.link ≡ id
      → (is_minus_one job'.result ≡ true → fails ws ≡ true)
      → k ≤ offered ws
      → s1.net.geminidb ≡ net.geminidb
      → link'.input.bytes ≡ rest
      → link'.output.bytes ≡ drop k (packet_of (y ∷ ys))
      → Done (some (job', put_link E id (some link') s1))
  unfolding popped proc_result put_link
  comes_back job' link' k s1 same of_job few db kept left =
      let t : NetworkServer L.State K = put_link E id (some link') s1 in
      let r = finish_job E ws' job' link' ready t in
      let there : t.links job'.link ≡ some link' =
        ap (λ i. t.links i) same ∙ put_link_lem E id (some link') s1 in
      (
        r.1,
        r.2,
        k,
        few,
        rw there refl,
        subst (λ i. IsAnswered E i rest (drop k (packet_of (y ∷ ys))) net refused (offered ws') r.2)
            same
            (finish_job-IsAnswered E ws' job' link' ready rest (drop k (packet_of (y ∷ ys))) net
              refused (offered ws') t (λ h. ground (arith, of_job h)) (λ h. ground (arith, h))
              (omega arith) db kept left),
      )

  one_of :
      (b : Bool) (r r' : ProcJob × NetworkServer L.State K)
      → Done (some r)
      → Done (some r')
      → Done (some (if b then r else r'))
  one_of true r r' h h' = h
  one_of false r r' h h' = h'

  error_of :
      (n : ℤ) (job : ProcJob)
      → is_minus_one job.result ≡ false
      → is_minus_one (if is_negative n then record job { result = proc_error } else job).result
        ≡ true
      → is_refused n ≡ true
  error_of (pos n) job fine h = absurd (ground (arith, fine, h))
  error_of (negsuc n) job fine h = refl

  same_link :
      (b : Bool) (job job' : ProcJob)
      → job.link ≡ id
      → job'.link ≡ id
      → (if b then job' else job).link ≡ id
  same_link true job job' e e' = e'
  same_link false job job' e e' = e

  worker_proc-Done :
      (cmd : Command Proc) (req : Request) (link : Link) (s : NetworkServer L.State K)
      → s.links id ≡ some link
      → run L usage cmd.proc req s.net ≡ some (y ∷ ys, net)
      → link.input.bytes ≡ rest
      → link.output.bytes ≡ []
      → bound realloc given (y ∷ ys) + used link.output < 2 ^ 30
      → Done (worker_proc E L usage realloc ws (pushed id cmd req) s)
  unfolding worker_proc send_response send
  worker_proc-Done cmd req link s there ran kept fresh small =
      let job' : ProcJob = record (pushed id cmd req) { result = proc_ok; resp = y ∷ ys } in
      let output = (send realloc (y ∷ ys) link.output).1 in
      let bytes : output.bytes ≡ packet_of (y ∷ ys) =
        send-bytes realloc given y ys link.output small ∙ ap (λ b. b ++ packet_of (y ∷ ys)) fresh in
      let link' : Link = record link { output = output } in
      let wrote = write link.noblock output ws in
      let (k, few, left) = write-Sent link.noblock output ws in
      let failed : ProcJob = record job' { result = proc_error } in
      let job'' = if is_negative wrote.0 then failed else job' in
      let s1 : NetworkServer L.State K = record s { net = net } in
      rw (there, ran)
        (one_of (not false && cmd.flags.read)
          (job'', put_link E id (some (record link' { output = wrote.1 })) s1)
          (job', put_link E id (some link') s1)
          (comes_back job'' (record link' { output = wrote.1 }) k s1
            (same_link (is_negative wrote.0) job' failed refl refl)
            (λ h. write-fails link.noblock output ws (error_of wrote.0 job' refl h)) few refl kept
            (left ∙ ap (λ b. drop k b) bytes))
          (comes_back job' link' 0 s1 refl (λ h. absurd (ground (arith, h))) (omega arith) refl kept
            bytes))

  result_of :
      (o : Option (ProcJob × NetworkServer L.State K))
      → Done o
      → (job' : ProcJob) × (s' : NetworkServer L.State K) × (ready' : List ℕ) × (t : NetworkServer
          L.State K)
        × (k : ℕ) × (k ≤ offered ws)
        × (o ≡ some (job', s'))
        × (popped E ws' job' ready s' ≡ some (ready', t))
        × IsAnswered E id rest (drop k (packet_of (y ∷ ys))) net refused (offered ws') t
  result_of none h = elim h [ ]
  result_of (some (job', s')) (ready', t, k, few, back, h) =
      (job', s', ready', t, k, few, refl, back, h)

  -- A job that the loop pushed for a link with nothing in its output, whose handler does not fail,
  -- is run by a thread and comes back to the loop. Behind that the database is the handler's, and
  -- the link keeps its input and has the response's packet in its output, but for bytes from the
  -- front, no more than the calls of the system take from the thread and then from the loop; it is
  -- deleted only where a call of the system fails. Memory is given and the output block stays below
  -- 1 GB.
  pub worker_proc-answers :
      (cmd : Command Proc) (req : Request) (link : Link) (s : NetworkServer L.State K)
      → s.links id ≡ some link
      → run L usage cmd.proc req s.net ≡ some (y ∷ ys, net)
      → link.input.bytes ≡ rest
      → link.output.bytes ≡ []
      → bound realloc given (y ∷ ys) + used link.output < 2 ^ 30
      → (job' : ProcJob) × (s' : NetworkServer L.State K) × (ready' : List ℕ) × (t : NetworkServer
          L.State K)
        × (k : ℕ) × (k ≤ offered ws)
        × (worker_proc E L usage realloc ws (pushed id cmd req) s ≡ some (job', s'))
        × (popped E ws' job' ready s' ≡ some (ready', t))
        × IsAnswered E id rest (drop k (packet_of (y ∷ ys))) net refused (offered ws') t
  worker_proc-answers cmd req link s there ran kept fresh small =
      result_of (worker_proc E L usage realloc ws (pushed id cmd req) s)
        (worker_proc-Done cmd req link s there ran kept fresh small)
