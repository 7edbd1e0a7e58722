-- ===== src/Serv/Loop/Requests.antt =====
-- A ready link of the event loop of src/net/server.cpp: its request, `proc`, and what becomes of the
-- result; and `ProcWorker::proc` of src/net/worker.cpp.
use geminidb.Prelude.{
  ℕ, Bool, not, ◌&&◌, Option, none, some, ◌>>=◌, List, [], ◌∷◌, ◌++◌, Octets, if◌then◌else◌,
}
use geminidb.Prelude.Int.{ℤ, pos, is_minus_one, int_eq}
use geminidb.Data.LevelDb.{LevelDb}
use geminidb.Net.Link.{Received, null, received, undefined_result, recv, send}
use geminidb.Net.Link.Socket.{Writing, write}
use geminidb.Net.Fdevents.{Epoll, fdevent_in, set_flags, del}
use geminidb.Net.Proc.{Command, get_proc}
use geminidb.Serv.Kv.{Request}
use geminidb.Serv.Commands.{Proc}
use geminidb.Serv.Commands.Dispatch.{run, Handled, to_writer, to_reader, answered}
use geminidb.Serv.Commands.Dispatch
use geminidb.Serv.Loop.{
  Link, ProcJob, proc_ok, proc_error, proc_thread, proc_backend, less_one, NetworkServer,
  is_negative, put_link, drop_link, proc_result,
}

-- The response, sent to the link; a `send` that fails is the result of the job.
unfoldable pub send_response : (ℕ → Bool) → ProcJob → Link → ProcJob × Link
unfolding send
send_response realloc job link =
    let (ret, output) = send realloc job.resp link.output in
    (
      if is_minus_one ret then record job { result = proc_error } else job,
      record link { output = output },
    )

-- The command that `proc` finds for the job.
unfoldable pub command_of : Request → List (Command Proc) → Option (Command Proc)
unfolding get_proc
command_of [] map = none
command_of (name ∷ req) map = get_proc name map

abbrev pub new_job : ℕ → Request → ProcJob
new_job id req = record { result = pos 0; link = id; cmd = none; req = req; resp = [] }

module _ {K : Type 0} (E : Epoll K) (L : LevelDb) (usage : Command Proc → Octets) where
  -- The end of `proc`: its result, the job, and the server with the job in a pool of threads or its
  -- response in the output.
  unfoldable pub hand_over :
      (ℕ → Bool)
      → ProcJob
      → Link
      → NetworkServer L.State K
      → Handled L.State
      → ℤ × ProcJob × NetworkServer L.State K
  unfolding command_of send_response put_link
  hand_over realloc job link s (to_writer cmd) =
      let job' = record job { result = proc_ok; cmd = some cmd } in
      (proc_thread, job', record s { writer = s.writer ++ job' ∷ [] })
  hand_over realloc job link s (to_reader cmd) =
      let job' = record job { result = proc_ok; cmd = some cmd } in
      (proc_thread, job', record s { reader = s.reader ++ job' ∷ [] })
  hand_over realloc job link s (answered resp net) =
      let cmd = command_of job.req s.net.proc_map in
      let ran = record job { result = proc_ok; cmd = cmd; resp = resp } in
      let (sent, link') = send_response realloc ran link in
      (sent.result, sent, put_link E job.link (some link') (record s { net = net }))

  unfoldable pub proc :
      (ℕ → Bool)
      → ProcJob
      → Link
      → NetworkServer L.State K
      → Option (ℤ × ProcJob × NetworkServer L.State K)
  unfolding Dispatch.proc hand_over
  proc realloc job link s =
      Dispatch.proc L usage job.req s.net >>= λ handled. some (hand_over realloc job link s handled)

  -- What the loop does with the result of `proc`.
  unfoldable pub after_proc :
      List Writing
      → Link
      → List ℕ
      → ℤ × ProcJob × NetworkServer L.State K
      → Option (List ℕ × NetworkServer L.State K)
  unfolding proc_result
  after_proc ws link ready (result, job, s) =
      if int_eq result proc_thread
      then some (ready, record s { fdes = (del E link.sock s.fdes).1 })
      else if int_eq result proc_backend
      then some (
        ready,
        record s {
          net = record s.net { link_count = less_one s.net.link_count };
          fdes = (del E link.sock s.fdes).1;
        },
      )
      else (proc_result E ws job ready s >>= λ r. some (r.1, r.2))

  -- The branch of the loop over the ready links for a whole request.
  unfoldable pub serve_request :
      (ℕ → Bool)
      → List Writing
      → ℕ
      → Request
      → Link
      → List ℕ
      → NetworkServer L.State K
      → Option (List ℕ × NetworkServer L.State K)
  unfolding proc after_proc
  serve_request realloc ws id req link ready s =
      proc realloc (new_job id req) link s >>= after_proc ws link ready

  -- The branches behind `recv`.
  unfoldable pub serve_parsed :
      (ℕ → Bool)
      → List Writing
      → ℕ
      → Link
      → List ℕ
      → NetworkServer L.State K
      → Received
      → Option (List ℕ × NetworkServer L.State K)
  unfolding drop_link serve_request
  serve_parsed realloc ws id link ready s null = some (ready, drop_link E id link s)
  serve_parsed realloc ws id link ready s undefined_result = none
  serve_parsed realloc ws id link ready s (received []) =
      some (ready, record s { fdes = (set_flags E link.sock fdevent_in (pos 1) id s.fdes).1 })
  serve_parsed realloc ws id link ready s (received (name ∷ args)) =
      serve_request realloc ws id (name ∷ args) link ready s

  -- The loop's body for one ready link. The list is that of the next round, `ready_list_2`.
  unfoldable pub serve_link :
      (ℕ → Bool)
      → List Writing
      → ℕ
      → List ℕ
      → NetworkServer L.State K
      → Option (List ℕ × NetworkServer L.State K)
  unfolding recv drop_link put_link serve_parsed
  serve_link realloc ws id ready s = s.links id >>= λ link.
      let (req, input) = recv realloc link.input in
      let link' = record link { input = input } in
      let s' = put_link E id (some link') s in
      let parsed = serve_parsed realloc ws id link' ready s' req in
      if link.error then some (ready, drop_link E id link s) else parsed

  -- The loop over the ready links, each with what its socket answers to a write.
  unfoldable pub serve_links :
      (ℕ → Bool)
      → List (ℕ × List Writing)
      → List ℕ
      → NetworkServer L.State K
      → Option (List ℕ × NetworkServer L.State K)
  unfolding serve_link
  serve_links realloc [] ready s = some (ready, s)
  serve_links realloc ((id, ws) ∷ ids) ready s =
      serve_link realloc ws id ready s >>= λ r. serve_links realloc ids r.0 r.1

  -- `ProcWorker::proc`, which a thread runs on a job: the handler, `send`, and for a reading command
  -- `write`.
  unfoldable pub worker_proc :
      (ℕ → Bool)
      → List Writing
      → ProcJob
      → NetworkServer L.State K
      → Option (ProcJob × NetworkServer L.State K)
  unfolding run send_response put_link
  worker_proc realloc ws job s = job.cmd >>= λ cmd. s.links job.link >>= λ link.
      run L usage cmd.proc job.req s.net >>= λ r.
      let ran = record job { result = proc_ok; resp = r.0 } in
      let (sent, link') = send_response realloc ran link in
      let (len, output) = write link.noblock link'.output ws in
      let wrote = if is_negative len then record sent { result = proc_error } else sent in
      let s' : NetworkServer L.State K = record s { net = r.1 } in
      some (
        if not (is_minus_one sent.result) && cmd.flags.read
        then (wrote, put_link E job.link (some (record link' { output = output })) s')
        else (sent, put_link E job.link (some link') s'))
