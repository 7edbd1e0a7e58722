-- ===== src/Serv/Loop/Homed/Workers.antt =====
-- What a thread does to the link of its job, and to the job in the pool.
use geminidb.Prelude.{
  ℕ, zero, suc, ◌≡◌, ◌≢◌, refl, sym, ◌∙◌, ap, inl, inr, Bool, true, false, not, ◌&&◌, Option, none,
  some, ◌>>=◌, List, [], ◌∷◌, get_elem?, set, if◌then◌else◌, Octets, arith,
}
use geminidb.Prelude.Int.{is_minus_one}
use geminidb.Data.LevelDb.{LevelDb}
use geminidb.Net.Link.{send}
use geminidb.Net.Link.Socket.{Writing, write}
use geminidb.Net.Fdevents.{Epoll}
use geminidb.Net.Proc.{Command}
use geminidb.Serv.Commands.{Proc}
use geminidb.Serv.Commands.Dispatch.{run}
use geminidb.Serv.Loop.{Link, ProcJob, NetworkServer, put_link, proc_ok, proc_error, is_negative}
use geminidb.Serv.Loop.Placed.{Lives, put_link_lem}
use geminidb.Serv.Loop.Apart.{HasJob, Untouched, put_link-Untouched}
use geminidb.Serv.Loop.Requests.{send_response, worker_proc}

-- A job that is put in the place of one of the same link.
pub HasJob-set :
    (n : ℕ) (jobs : List ProcJob) (job job' : ProcJob)
    → get_elem? jobs n ≡ some job
    → HasJob job'.link (set jobs n job')
HasJob-set n [] job job' e = absurd (ground arith)
HasJob-set zero (j ∷ jobs) job job' e = inl refl
HasJob-set (suc n) (j ∷ jobs) job job' e = inr (HasJob-set n jobs job job' e)

abbrev link_of : Option ProcJob → ℕ
link_of none = 0
link_of (some job) = job.link

pub HasJob-set_other :
    (n id : ℕ) (jobs : List ProcJob) (job job' : ProcJob)
    → get_elem? jobs n ≡ some job
    → id ≢ job.link
    → HasJob id jobs
    → HasJob id (set jobs n job')
HasJob-set_other n id [] job job' e ne h = h
HasJob-set_other zero id (j ∷ jobs) job job' e ne (inl h) = absurd (ne (sym h ∙ ap link_of e))
HasJob-set_other zero id (j ∷ jobs) job job' e ne (inr h) = inr h
HasJob-set_other (suc n) id (j ∷ jobs) job job' e ne (inl h) = inl h
HasJob-set_other (suc n) id (j ∷ jobs) job job' e ne (inr h) =
    inr (HasJob-set_other n id jobs job job' e ne h)

module _ {K : Type 0} (E : Epoll K) (L : LevelDb) (usage : Command Proc → Octets) where
  -- What the thread leaves: the job of the same link, the link on its descriptor, and the rest.
  pub record Worked (sock : ℕ) (job job' : ProcJob) (s s' : NetworkServer L.State K) : Type 0 where
    pub same_link : job'.link ≡ job.link
    pub life : Lives E job.link sock s'
    pub same_writer : s'.writer ≡ s.writer
    pub same_reader : s'.reader ≡ s.reader
    pub others : (id' sock' : ℕ) → id' ≢ job.link → Untouched E id' sock' s s'

  abbrev pub After :
      ℕ → ProcJob → NetworkServer L.State K → Option (ProcJob × NetworkServer L.State K) → Type 0
  After sock job s none = Unit
  After sock job s (some (job', s')) = Worked sock job job' s s'

  bound :
      {A : Type 0} (sock : ℕ) (job : ProcJob) (s : NetworkServer L.State K) (o : Option A)
      (f : A → Option (ProcJob × NetworkServer L.State K))
      → ((a : A) → After sock job s (f a))
      → After sock job s (o >>= f)
  bound sock job s none f h = tt
  bound sock job s (some a) f h = h a

  one_of :
      (sock : ℕ) (job : ProcJob) (s : NetworkServer L.State K) (b : Bool)
      (r r' : ProcJob × NetworkServer L.State K)
      → Worked sock job r.0 s r.1
      → Worked sock job r'.0 s r'.1
      → After sock job s (some (if b then r else r'))
  one_of sock job s true r r' h h' = h
  one_of sock job s false r r' h h' = h'

  put_back :
      (job job' : ProcJob) (link link' : Link) (s s1 : NetworkServer L.State K)
      → job'.link ≡ job.link
      → link'.sock ≡ link.sock
      → s1.writer ≡ s.writer
      → s1.reader ≡ s.reader
      → ((id' sock' : ℕ) → Untouched E id' sock' s s1)
      → Worked link.sock job job' s (put_link E job.link (some link') s1)
  unfolding put_link
  put_back job job' link link' s s1 same same_sock w r u = record {
    same_link = same;
    life = record {
      link = link';
      there = put_link_lem E job.link (some link') s1;
      same = same_sock;
    };
    same_writer = w;
    same_reader = r;
    others =
        λ id' sock' ne. put_link-Untouched E id' sock' job.link (some link') s s1 ne (u id' sock');
  }

  same_job :
      (b : Bool) (job job' : ProcJob)
      → job'.link ≡ job.link
      → (if b then job' else job).link ≡ job.link
  same_job true job job' e = e
  same_job false job job' e = refl

  pub worker_proc-After :
      (realloc : ℕ → Bool) (ws : List Writing) (job : ProcJob) (link : Link)
      (s : NetworkServer L.State K)
      → s.links job.link ≡ some link
      → After link.sock job s (worker_proc E L usage realloc ws job s)
  unfolding worker_proc send_response
  worker_proc-After realloc ws job link s there = bound link.sock job s job.cmd _ (λ cmd. rw there (
      bound link.sock job s (run L usage cmd.proc job.req s.net) _ (λ r.
        let ran : ProcJob = record job { result = proc_ok; resp = r.0 } in
        let sent = send realloc r.0 link.output in
        let job' = if is_minus_one sent.0 then record ran { result = proc_error } else ran in
        let link' : Link = record link { output = sent.1 } in
        let wrote = write link.noblock sent.1 ws in
        let job'' = if is_negative wrote.0 then record job' { result = proc_error } else job' in
        let link'' : Link = record link' { output = wrote.1 } in
        let s1 : NetworkServer L.State K = record s { net = r.1 } in
        let same : job'.link ≡ job.link =
          same_job (is_minus_one sent.0) ran (record ran { result = proc_error }) refl in
        let same' : job''.link ≡ job.link =
          same_job (is_negative wrote.0) job' (record job' { result = proc_error }) refl ∙ same in
        let u : (id' sock' : ℕ) → Untouched E id' sock' s s1 = λ id' sock'. record {
          same_link = refl;
          same_watch = refl;
          writer_kept = λ x. x;
          reader_kept = λ x. x;
        } in
        one_of link.sock job s (not (is_minus_one job'.result) && cmd.flags.read)
          (job'', put_link E job.link (some link'') s1) (job', put_link E job.link (some link') s1)
          (put_back job job'' link link'' s s1 same' refl refl refl u)
          (put_back job job' link link' s s1 same refl refl refl u))))

  nothing :
      {A B : Type 0} (o : Option A) (f : A → Option B) → ((a : A) → f a ≡ none) → (o >>= f) ≡ none
  nothing none f h = refl
  nothing (some a) f h = h a

  pub worker_proc-Gone :
      (realloc : ℕ → Bool) (ws : List Writing) (job : ProcJob) (s : NetworkServer L.State K)
      → s.links job.link ≡ none
      → worker_proc E L usage realloc ws job s ≡ none
  unfolding worker_proc
  worker_proc-Gone realloc ws job s gone = nothing job.cmd _ (λ cmd. rw gone refl)
