-- ===== src/Serv/Loop/Watching/Turn.antt =====
-- A turn of the event loop and an event leave the agreement of the table and the kernel.
use geminidb.Prelude.{
  ℕ, refl, inl, inr, Bool, Option, none, some, Option-cases, ◌>>=◌, List, [], ◌∷◌, Octets, ◌==◌,
  if◌then◌else◌,
}
use geminidb.Prelude.Int.{ℤ, pos, int_eq}
use geminidb.Data.LevelDb.{LevelDb}
use geminidb.Net.Link.{Received, null, received, undefined_result, recv}
use geminidb.Net.Link.Socket.{Writing}
use geminidb.Net.Fdevents.{Fdevent, Epoll, fdevent_in, del}
use geminidb.Net.Fdevents.Reliable.{IsReliable, set_flags-Agrees, del-Agrees}
use geminidb.Net.Proc.{Command}
use geminidb.Serv.Kv.{Request}
use geminidb.Serv.Commands.{Proc}
use geminidb.Serv.Commands.Dispatch.{Handled, to_writer, to_reader, answered}
use geminidb.Serv.Commands.Dispatch
use geminidb.Serv.Loop.{
  Link, ProcJob, NetworkServer, put_link, drop_link, proc_result, proc_request, proc_thread,
  proc_backend, less_one,
}
use geminidb.Serv.Loop.Requests.{
  new_job, hand_over, proc, after_proc, serve_request, serve_parsed, serve_link,
}
use geminidb.Serv.Loop.Rounds.{Owners, Answer, take_job, new_link, popped, handle_event}
use geminidb.Serv.Loop.Watching.{
  Agreed, Agrees, either-Agrees, put_link-Agreed, drop_link-Agreed, proc_request-Agrees,
  result-Agrees, add_link-Agreed,
}

module _ {K : Type 0} (E : Epoll K) (sure : IsReliable E) (L : LevelDb)
    (usage : Command Proc → Octets) where
  after_proc-Agrees :
      (ws : List Writing) (link : Link) (ready : List ℕ) (r : ℤ × ProcJob × NetworkServer L.State K)
      → Agreed E r.2
      → Agrees E (after_proc E L usage ws link ready r)
  unfolding after_proc
  after_proc-Agrees ws link ready (result, job, s) w =
      let ended = proc_result E ws job ready s >>= λ r. some (r.1, r.2) in
      let lost : NetworkServer L.State K = record s {
        net = record s.net { link_count = less_one s.net.link_count };
        fdes = (del E link.sock s.fdes).1;
      } in
      let w' = del-Agrees E link.sock s.fdes w in
      either-Agrees E (int_eq result proc_thread)
        (some (ready, record s { fdes = (del E link.sock s.fdes).1 }))
        (if int_eq result proc_backend then some (ready, lost) else ended) w'
        (either-Agrees E (int_eq result proc_backend) (some (ready, lost)) ended w'
          (result-Agrees E sure ws job ready s w))

  hand_over-Agreed :
      (realloc : ℕ → Bool) (job : ProcJob) (link : Link) (s : NetworkServer L.State K)
      (handled : Handled L.State)
      → Agreed E s
      → Agreed E (hand_over E L usage realloc job link s handled).2
  unfolding hand_over put_link
  hand_over-Agreed realloc job link s (to_writer cmd) w = w
  hand_over-Agreed realloc job link s (to_reader cmd) w = w
  hand_over-Agreed realloc job link s (answered resp net) w = w

  serve_request-Agrees :
      (realloc : ℕ → Bool) (ws : List Writing) (id : ℕ) (req : Request) (link : Link)
      (ready : List ℕ) (s : NetworkServer L.State K)
      → Agreed E s
      → Agrees E (serve_request E L usage realloc ws id req link ready s)
  unfolding serve_request proc
  serve_request-Agrees realloc ws id req link ready s w =
      elim (Option-cases (Dispatch.proc L usage req s.net)) [
        | inl e ↦ rw e tt
        | inr (h, e) ↦ rw e (
            after_proc-Agrees ws link ready (hand_over E L usage realloc (new_job id req) link s h)
              (hand_over-Agreed realloc (new_job id req) link s h w))
      ]

  serve_parsed-Agrees :
      (realloc : ℕ → Bool) (ws : List Writing) (id : ℕ) (link : Link) (ready : List ℕ)
      (s : NetworkServer L.State K) (req : Received)
      → Agreed E s
      → Agrees E (serve_parsed E L usage realloc ws id link ready s req)
  unfolding serve_parsed
  serve_parsed-Agrees realloc ws id link ready s null w = drop_link-Agreed E id link s w
  serve_parsed-Agrees realloc ws id link ready s undefined_result w = tt
  serve_parsed-Agrees realloc ws id link ready s (received []) w =
      set_flags-Agrees E sure link.sock fdevent_in (pos 1) id s.fdes refl w
  serve_parsed-Agrees realloc ws id link ready s (received (name ∷ args)) w =
      serve_request-Agrees realloc ws id (name ∷ args) link ready s w

  pub serve_link-Agrees :
      (realloc : ℕ → Bool) (ws : List Writing) (id : ℕ) (ready : List ℕ)
      (s : NetworkServer L.State K)
      → Agreed E s
      → Agrees E (serve_link E L usage realloc ws id ready s)
  unfolding serve_link
  serve_link-Agrees realloc ws id ready s w = elim (Option-cases (s.links id)) [
    | inl e ↦ rw e tt
    | inr (link, e) ↦
        let (req, input) = recv realloc link.input in
        let link' : Link = record link { input = input } in
        let s' : NetworkServer L.State K = put_link E id (some link') s in
        rw e (
          either-Agrees E link.error (some (ready, drop_link E id link s))
            (serve_parsed E L usage realloc ws id link' ready s' req)
            (drop_link-Agreed E id link s w)
            (serve_parsed-Agrees realloc ws id link' ready s' req
              (put_link-Agreed E id (some link') s w)))
  ]

module _ {S K : Type 0} (E : Epoll K) (sure : IsReliable E) where
  new_link-Agreed :
      (accepted : Option (ℕ × Link)) (s : NetworkServer S K)
      → Agreed E s
      → Agreed E (new_link E accepted s)
  unfolding new_link
  new_link-Agreed none s w = w
  new_link-Agreed (some (id, link)) s w = add_link-Agreed E sure id link s w

  -- A job that is taken from a pool, which is left to `rest`.
  from_pool :
      (ws : List Writing) (ready : List ℕ) (s : NetworkServer S K)
      (rest : List ProcJob → NetworkServer S K) (o : Option (ProcJob × List ProcJob))
      → ((jobs : List ProcJob) → Agreed E (rest jobs))
      → Agrees E (o >>= λ r. popped E ws r.0 ready (rest r.1))
  unfolding popped
  from_pool ws ready s rest none w = tt
  from_pool ws ready s rest (some (job, jobs)) w =
      result-Agrees E sure ws job ready (rest jobs) (w jobs)

  pub handle_event-Agrees :
      (owners : Owners) (realloc : ℕ → Bool) (answer : Answer) (fde : Fdevent) (ready : List ℕ)
      (s : NetworkServer S K)
      → Agreed E s
      → Agrees E (handle_event E owners realloc answer fde ready s)
  unfolding handle_event
  handle_event-Agrees owners realloc answer fde ready s w =
      let from_reader =
        take_job answer.done s.reader
        >>= (λ r. popped E answer.writes r.0 ready (record s { reader = r.1 })) in
      let from_writer =
        take_job answer.done s.writer
        >>= (λ r. popped E answer.writes r.0 ready (record s { writer = r.1 })) in
      let request = proc_request E realloc answer.reads fde.data_ptr fde.events ready s in
      let pools =
        if fde.data_ptr == owners.reader
        then from_reader
        else if fde.data_ptr == owners.writer
        then from_writer
        else request in
      either-Agrees E (fde.data_ptr == owners.serv_link)
        (some (ready, new_link E answer.accepted s)) pools (new_link-Agreed answer.accepted s w)
        (either-Agrees E (fde.data_ptr == owners.reader) from_reader
          (if fde.data_ptr == owners.writer then from_writer else request)
          (from_pool answer.writes ready s (λ jobs. record s { reader = jobs })
            (take_job answer.done s.reader) (λ jobs. w))
          (either-Agrees E (fde.data_ptr == owners.writer) from_writer request
            (from_pool answer.writes ready s (λ jobs. record s { writer = jobs })
              (take_job answer.done s.writer) (λ jobs. w))
            (proc_request-Agrees E realloc answer.reads fde.data_ptr fde.events ready s w)))
