-- ===== src/Serv/Loop/Turns.antt =====
-- A turn of the loop over a ready link.
use geminidb.Prelude.{
  ℕ, ◌≡◌, refl, ◌∙◌, ap, subst, inl, inr, Bool, true, false, Option, none, some, Option-cases,
  ◌>>=◌, List, [], ◌∷◌, ◌++◌, Octets, if◌then◌else◌,
}
use geminidb.Prelude.Int.{ℤ, pos, is_minus_one}
use geminidb.Data.LevelDb.{LevelDb}
use geminidb.Net.Link.{Received, null, received, undefined_result, recv, send}
use geminidb.Net.Link.Socket.{Writing}
use geminidb.Net.Fdevents.{Epoll}
use geminidb.Net.Fdevents.Flags.{set_flags-reading}
use geminidb.Net.Proc.{Command}
use geminidb.Serv.Kv.{Request}
use geminidb.Serv.Commands.{Proc}
use geminidb.Serv.Commands.Dispatch.{Handled, answered}
use geminidb.Serv.Commands.Dispatch
use geminidb.Serv.Loop.{
  Link, ProcJob, NetworkServer, put_link, drop_link, proc_result, proc_error, proc_ok,
}
use geminidb.Serv.Loop.Requests.{
  proc, send_response, command_of, hand_over, after_proc, serve_request, serve_parsed, serve_link,
  new_job,
}
use geminidb.Serv.Loop.Placed.{
  Placed, closed, queued, watched, put_link_lem, drop_link-Placed, lives, Ensured,
  proc_result-Ensured,
}

module _ {K : Type 0} (E : Epoll K) (L : LevelDb) (usage : Command Proc → Octets) where
  -- What holds behind the turn, if it has a result.
  abbrev pub Served :
      ℕ → ℕ → List ℕ → NetworkServer L.State K → Option (List ℕ × NetworkServer L.State K) → Type 0
  Served id sock ready s none = Unit
  Served id sock ready s (some r) = Placed E id sock ready s r.0 r.1

  result-Served :
      (id sock : ℕ) (ready : List ℕ) (s : NetworkServer L.State K)
      (o : Option (ℤ × List ℕ × NetworkServer L.State K))
      → Ensured E id sock ready s o
      → Served id sock ready s (o >>= λ r. some (r.1, r.2))
  result-Served id sock ready s none h = tt
  result-Served id sock ready s (some r) h = h

  -- A job that ran at once, whose response was sent or not.
  inline-Served :
      (ws : List Writing) (failed : Bool) (job : ProcJob) (link link' : Link) (ready : List ℕ)
      (s t : NetworkServer L.State K)
      → t.links job.link ≡ some link'
      → link'.sock ≡ link.sock
      → Served job.link link.sock ready s (
          after_proc E L usage ws link ready (
            (if failed
                then record job { result = proc_error }
                else record job { result = proc_ok }).result,
            if failed then record job { result = proc_error } else record job { result = proc_ok },
            t,
          ))
  unfolding after_proc
  inline-Served ws true job link link' ready s t there same =
      result-Served job.link link.sock ready s
        (proc_result E ws (record job { result = proc_error }) ready t)
        (subst
          (λ sock.
            Ensured E job.link sock ready s
              (proc_result E ws (record job { result = proc_error }) ready t))
          same
          (proc_result-Ensured E ws (record job { result = proc_error }) link' ready s t there))
  inline-Served ws false job link link' ready s t there same =
      result-Served job.link link.sock ready s
        (proc_result E ws (record job { result = proc_ok }) ready t)
        (subst
          (λ sock.
            Ensured E job.link sock ready s
              (proc_result E ws (record job { result = proc_ok }) ready t))
          same (proc_result-Ensured E ws (record job { result = proc_ok }) link' ready s t there))

  hand_over-Served :
      (realloc : ℕ → Bool) (ws : List Writing) (job : ProcJob) (link : Link) (ready : List ℕ)
      (s : NetworkServer L.State K) (handled : Handled L.State)
      → s.links job.link ≡ some link
      → Served job.link link.sock ready s
          (after_proc E L usage ws link ready (hand_over E L usage realloc job link s handled))
  unfolding after_proc hand_over send_response
  hand_over-Served realloc ws job link ready s (Handled.to_writer cmd) there =
      Placed.to_writer (record job { result = proc_ok; cmd = some cmd })
        (lives E job.link link _ there) refl refl
  hand_over-Served realloc ws job link ready s (Handled.to_reader cmd) there =
      Placed.to_reader (record job { result = proc_ok; cmd = some cmd })
        (lives E job.link link _ there) refl refl
  hand_over-Served realloc ws job link ready s (answered resp net) there =
      let ran : ProcJob = record job {
        result = proc_ok;
        cmd = command_of job.req s.net.proc_map;
        resp = resp;
      } in
      let sent = send realloc resp link.output in
      let link' : Link = record link { output = sent.1 } in
      let t : NetworkServer L.State K = put_link E job.link (some link') (record s { net = net }) in
      inline-Served ws (is_minus_one sent.0) ran link link' ready s t
        (put_link_lem E job.link (some link') (record s { net = net })) refl

  serve_request-Served :
      (realloc : ℕ → Bool) (ws : List Writing) (id : ℕ) (req : Request) (link : Link)
      (ready : List ℕ) (s : NetworkServer L.State K)
      → s.links id ≡ some link
      → Served id link.sock ready s (serve_request E L usage realloc ws id req link ready s)
  unfolding serve_request proc
  serve_request-Served realloc ws id req link ready s there =
      elim (Option-cases (Dispatch.proc L usage req s.net)) [
        | inl e ↦ rw e tt
        | inr (h, e) ↦ rw e (hand_over-Served realloc ws (new_job id req) link ready s h there)
      ]

  serve_parsed-Served :
      (realloc : ℕ → Bool) (ws : List Writing) (id : ℕ) (link : Link) (ready : List ℕ)
      (s : NetworkServer L.State K) (req : Received)
      → s.links id ≡ some link
      → Served id link.sock ready s (serve_parsed E L usage realloc ws id link ready s req)
  unfolding serve_parsed
  serve_parsed-Served realloc ws id link ready s null there =
      drop_link-Placed E id link.sock link ready s s
  serve_parsed-Served realloc ws id link ready s undefined_result there = tt
  serve_parsed-Served realloc ws id link ready s (received []) there =
      watched (lives E id link _ there) (set_flags-reading E link.sock (pos 1) id s.fdes)
  serve_parsed-Served realloc ws id link ready s (received (name ∷ args)) there =
      serve_request-Served realloc ws id (name ∷ args) link ready s there

  one_of :
      (id sock : ℕ) (ready : List ℕ) (s : NetworkServer L.State K) (b : Bool)
      (o o' : Option (List ℕ × NetworkServer L.State K))
      → Served id sock ready s o
      → Served id sock ready s o'
      → Served id sock ready s (if b then o else o')
  one_of id sock ready s true o o' h h' = h
  one_of id sock ready s false o o' h h' = h'

  -- A turn that began with the same pools.
  Placed-rebased :
      (id sock : ℕ) (ready ready' : List ℕ) (s s' t : NetworkServer L.State K)
      → s'.writer ≡ s.writer
      → s'.reader ≡ s.reader
      → Placed E id sock ready s' ready' t
      → Placed E id sock ready s ready' t
  Placed-rebased id sock ready ready' s s' t w r (closed h) = closed h
  Placed-rebased id sock ready ready' s s' t w r (queued l e h) = queued l e h
  Placed-rebased id sock ready ready' s s' t w r (watched l h) = watched l h
  Placed-rebased id sock ready ready' s s' t w r (Placed.to_writer job l e h) =
      Placed.to_writer job l e (h ∙ ap (λ js. js ++ job ∷ []) w)
  Placed-rebased id sock ready ready' s s' t w r (Placed.to_reader job l e h) =
      Placed.to_reader job l e (h ∙ ap (λ js. js ++ job ∷ []) r)

  rebased :
      (id sock : ℕ) (ready : List ℕ) (s s' : NetworkServer L.State K)
      (o : Option (List ℕ × NetworkServer L.State K))
      → s'.writer ≡ s.writer
      → s'.reader ≡ s.reader
      → Served id sock ready s' o
      → Served id sock ready s o
  rebased id sock ready s s' none w r h = tt
  rebased id sock ready s s' (some (ready', t)) w r h =
      Placed-rebased id sock ready ready' s s' t w r h

  -- Behind a turn over a ready link that meets no fault of a handler, the link has a place by the flags of
  -- the table.
  pub serve_link-Placed :
      (realloc : ℕ → Bool) (ws : List Writing) (id : ℕ) (link : Link) (ready ready' : List ℕ)
      (s t : NetworkServer L.State K)
      → s.links id ≡ some link
      → serve_link E L usage realloc ws id ready s ≡ some (ready', t)
      → Placed E id link.sock ready s ready' t
  unfolding serve_link put_link
  serve_link-Placed realloc ws id link ready ready' s t there h =
      let (req, input) = recv realloc link.input in
      let link' : Link = record link { input = input } in
      let s' : NetworkServer L.State K = put_link E id (some link') s in
      subst (Served id link.sock ready s) h (
        rw there (
          one_of id link.sock ready s link.error (some (ready, drop_link E id link s))
            (serve_parsed E L usage realloc ws id link' ready s' req)
            (drop_link-Placed E id link.sock link ready s s)
            (rebased id link.sock ready s s'
              (serve_parsed E L usage realloc ws id link' ready s' req) refl refl
              (serve_parsed-Served realloc ws id link' ready s' req
                (put_link_lem E id (some link') s)))))
