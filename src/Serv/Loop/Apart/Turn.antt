-- ===== src/Serv/Loop/Apart/Turn.antt =====
-- A turn of the event loop over one ready link leaves the other links.
use geminidb.Prelude.{
  Any-left, ℕ, ◌≡◌, ◌≢◌, refl, ◌∙◌, subst, inl, inr, Bool, true, false, Option, none, some,
  Option-cases, ◌>>=◌, List, [], ◌∷◌, ◌++◌, if◌then◌else◌, Octets,
}
use geminidb.Prelude.Int.{pos, is_minus_one, int_eq}
use geminidb.Data.LevelDb.{LevelDb}
use geminidb.Net.Link.{Received, null, received, undefined_result, recv, send}
use geminidb.Net.Link.Socket.{Writing}
use geminidb.Net.Fdevents.{Epoll, fdevent_in, del}
use geminidb.Net.Fdevents.Others.{set_flags-Keeps, del-Keeps}
use geminidb.Net.Proc.{Command}
use geminidb.Serv.Kv.{Request}
use geminidb.Serv.Commands.{Proc, Server}
use geminidb.Serv.Commands.Dispatch.{Handled, to_writer, to_reader, answered}
use geminidb.Serv.Commands.Dispatch
use geminidb.Serv.Loop.{
  Link, ProcJob, NetworkServer, put_link, drop_link, proc_result, proc_error, proc_ok, proc_thread,
  proc_backend, less_one,
}
use geminidb.Serv.Loop.Placed.{put_link_lem}
use geminidb.Serv.Loop.Requests.{
  send_response, command_of, new_job, hand_over, proc, after_proc, serve_request, serve_parsed,
  serve_link,
}
use geminidb.Serv.Loop.Apart.{
  Untouched, put_link-Untouched, drop_link-Untouched, finish_job-Untouched,
}

module _ {K : Type 0} (E : Epoll K) (L : LevelDb) (usage : Command Proc → Octets)
    (id' sock' : ℕ) where
  abbrev After : NetworkServer L.State K → Option (List ℕ × NetworkServer L.State K) → Type 0
  After s none = Unit
  After s (some r) = Untouched E id' sock' s r.1

  result-After :
      (ws : List Writing) (job : ProcJob) (link : Link) (ready : List ℕ)
      (s t : NetworkServer L.State K)
      → t.links job.link ≡ some link
      → id' ≢ job.link
      → sock' ≢ link.sock
      → Untouched E id' sock' s t
      → After s (proc_result E ws job ready t >>= λ r. some (r.1, r.2))
  unfolding proc_result
  result-After ws job link ready s t there ne apart u =
      rw there (finish_job-Untouched E id' sock' ws job link ready s t ne apart u)

  either :
      (s : NetworkServer L.State K) (b : Bool) (o o' : Option (List ℕ × NetworkServer L.State K))
      → After s o
      → After s o'
      → After s (if b then o else o')
  either s true o o' h h' = h
  either s false o o' h h' = h'

  removed :
      (sock : ℕ) (ready : List ℕ) (s t : NetworkServer L.State K)
      → sock' ≢ sock
      → Untouched E id' sock' s t
      → After s (some (ready, record t { fdes = (del E sock t.fdes).1 }))
  removed sock ready s t apart u = record {
    same_link = u.same_link;
    same_watch = del-Keeps E sock sock' apart t.fdes ∙ u.same_watch;
    writer_kept = u.writer_kept;
    reader_kept = u.reader_kept;
  }

  -- A change of the count of the links.
  recounted :
      (n : Server L.State) (s t : NetworkServer L.State K)
      → Untouched E id' sock' s t
      → Untouched E id' sock' s (record t { net = n })
  recounted n s t u = record {
    same_link = u.same_link;
    same_watch = u.same_watch;
    writer_kept = u.writer_kept;
    reader_kept = u.reader_kept;
  }

  pub untouched : (s : NetworkServer L.State K) → Untouched E id' sock' s s
  untouched s = record {
    same_link = refl;
    same_watch = refl;
    writer_kept = λ h. h;
    reader_kept = λ h. h;
  }

  -- A job that ran at once, whose response was sent or not.
  by_result :
      (ws : List Writing) (failed : Bool) (job : ProcJob) (link link' : Link) (ready : List ℕ)
      (s t : NetworkServer L.State K)
      → t.links job.link ≡ some link'
      → id' ≢ job.link
      → sock' ≢ link.sock
      → sock' ≢ link'.sock
      → Untouched E id' sock' s t
      → After s (
          after_proc E L usage ws link ready (
            (if failed then record job { result = proc_error } else job).result,
            if failed then record job { result = proc_error } else job,
            t,
          ))
  unfolding after_proc
  by_result ws true job link link' ready s t there ne apart apart' u =
      result-After ws (record job { result = proc_error }) link' ready s t there ne apart' u
  by_result ws false job link link' ready s t there ne apart apart' u =
      let ended = proc_result E ws job ready t >>= λ r. some (r.1, r.2) in
      let left : NetworkServer L.State K = record t {
        net = record t.net { link_count = less_one t.net.link_count };
      } in
      let lost : List ℕ × NetworkServer L.State K =
        (ready, record left { fdes = (del E link.sock t.fdes).1 }) in
      either s (int_eq job.result proc_thread)
        (some (ready, record t { fdes = (del E link.sock t.fdes).1 }))
        (if int_eq job.result proc_backend then some lost else ended)
        (removed link.sock ready s t apart u)
        (either s (int_eq job.result proc_backend) (some lost) ended
          (removed link.sock ready s left apart (recounted left.net s t u))
          (result-After ws job link' ready s t there ne apart' u))

  hand_over-After :
      (realloc : ℕ → Bool) (ws : List Writing) (job : ProcJob) (link : Link) (ready : List ℕ)
      (s t : NetworkServer L.State K) (handled : Handled L.State)
      → id' ≢ job.link
      → sock' ≢ link.sock
      → Untouched E id' sock' s t
      → After s
          (after_proc E L usage ws link ready (hand_over E L usage realloc job link t handled))
  unfolding after_proc hand_over send_response
  hand_over-After realloc ws job link ready s t (to_writer cmd) ne apart u =
      let job' : ProcJob = record job { result = proc_ok; cmd = some cmd } in
      removed link.sock ready s (record t { writer = t.writer ++ job' ∷ [] }) apart
        (record {
          same_link = u.same_link;
          same_watch = u.same_watch;
          writer_kept = λ h. Any-left (λ j. j.link ≡ id') t.writer (job' ∷ []) (u.writer_kept h);
          reader_kept = u.reader_kept;
        })
  hand_over-After realloc ws job link ready s t (to_reader cmd) ne apart u =
      let job' : ProcJob = record job { result = proc_ok; cmd = some cmd } in
      removed link.sock ready s (record t { reader = t.reader ++ job' ∷ [] }) apart
        (record {
          same_link = u.same_link;
          same_watch = u.same_watch;
          writer_kept = u.writer_kept;
          reader_kept = λ h. Any-left (λ j. j.link ≡ id') t.reader (job' ∷ []) (u.reader_kept h);
        })
  hand_over-After realloc ws job link ready s t (answered resp net) ne apart u =
      let ran : ProcJob = record job {
        result = proc_ok;
        cmd = command_of job.req t.net.proc_map;
        resp = resp;
      } in
      let sent = send realloc resp link.output in
      let link' : Link = record link { output = sent.1 } in
      let t' : NetworkServer L.State K =
        put_link E job.link (some link') (record t { net = net }) in
      let u' : Untouched E id' sock' s t' =
        put_link-Untouched E id' sock' job.link (some link') s (record t { net = net }) ne
          (record {
            same_link = u.same_link;
            same_watch = u.same_watch;
            writer_kept = u.writer_kept;
            reader_kept = u.reader_kept;
          }) in
      by_result ws (is_minus_one sent.0) ran link link' ready s t'
        (put_link_lem E job.link (some link') (record t { net = net })) ne apart apart u'

  serve_request-After :
      (realloc : ℕ → Bool) (ws : List Writing) (id : ℕ) (req : Request) (link : Link)
      (ready : List ℕ) (s t : NetworkServer L.State K)
      → id' ≢ id
      → sock' ≢ link.sock
      → Untouched E id' sock' s t
      → After s (serve_request E L usage realloc ws id req link ready t)
  unfolding serve_request proc
  serve_request-After realloc ws id req link ready s t ne apart u =
      elim (Option-cases (Dispatch.proc L usage req t.net)) [
        | inl e ↦ rw e tt
        | inr (h, e) ↦
            rw e (hand_over-After realloc ws (new_job id req) link ready s t h ne apart u)
      ]

  serve_parsed-After :
      (realloc : ℕ → Bool) (ws : List Writing) (id : ℕ) (link : Link) (ready : List ℕ)
      (s t : NetworkServer L.State K) (req : Received)
      → id' ≢ id
      → sock' ≢ link.sock
      → Untouched E id' sock' s t
      → After s (serve_parsed E L usage realloc ws id link ready t req)
  unfolding serve_parsed
  serve_parsed-After realloc ws id link ready s t null ne apart u =
      drop_link-Untouched E id' sock' id link s t ne apart u
  serve_parsed-After realloc ws id link ready s t undefined_result ne apart u = tt
  serve_parsed-After realloc ws id link ready s t (received []) ne apart u = record {
    same_link = u.same_link;
    same_watch =
        set_flags-Keeps E link.sock sock' apart fdevent_in (pos 1) id t.fdes ∙ u.same_watch;
    writer_kept = u.writer_kept;
    reader_kept = u.reader_kept;
  }
  serve_parsed-After realloc ws id link ready s t (received (name ∷ args)) ne apart u =
      serve_request-After realloc ws id (name ∷ args) link ready s t ne apart u

  -- A turn of the event loop over a ready link that meets no fault of a handler leaves every other
  -- link, on another descriptor, as it was, and whether it is watched for input.
  pub serve_link-Untouched :
      (realloc : ℕ → Bool) (ws : List Writing) (id : ℕ) (link : Link) (ready ready' : List ℕ)
      (s t : NetworkServer L.State K)
      → s.links id ≡ some link
      → id' ≢ id
      → sock' ≢ link.sock
      → serve_link E L usage realloc ws id ready s ≡ some (ready', t)
      → Untouched E id' sock' s t
  unfolding serve_link
  serve_link-Untouched realloc ws id link ready ready' s t there ne apart h =
      let (req, input) = recv realloc link.input in
      let link' : Link = record link { input = input } in
      let s' : NetworkServer L.State K = put_link E id (some link') s in
      let u = untouched s in
      subst (After s) h (
        rw there (
          either s link.error (some (ready, drop_link E id link s))
            (serve_parsed E L usage realloc ws id link' ready s' req)
            (drop_link-Untouched E id' sock' id link s s ne apart u)
            (serve_parsed-After realloc ws id link' ready s s' req ne apart
              (put_link-Untouched E id' sock' id (some link') s s ne u))))
