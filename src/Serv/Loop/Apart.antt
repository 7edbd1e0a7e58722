-- ===== src/Serv/Loop/Apart.antt =====
-- What is done to one link leaves the other links.
pub mod Turn
use geminidb.Prelude.{
  Any, ℕ, ◌≡◌, ◌≢◌, refl, sym, ◌∙◌, ap, subst, inl, inr, Bool, true, false, Bool-cases, Option,
  none, some, Option-cases, ◌>>=◌, List, [], ◌∷◌, ◌++◌, ◌==◌, if◌then◌else◌, arith, Octets,
}
use geminidb.Prelude.Int.{ℤ, pos, is_minus_one, int_eq}
use geminidb.Util.Buffer
use geminidb.Data.LevelDb.{LevelDb}
use geminidb.Net.Link.{Received, null, received, undefined_result, recv, send}
use geminidb.Net.Link.Socket.{Writing, write}
use geminidb.Net.Fdevents.{Fdevents, Epoll, fdevent_in, fdevent_out, set_flags, clr, del}
use geminidb.Net.Fdevents.Flags.{reading}
use geminidb.Net.Fdevents.Others.{set_flags-Keeps, clr-Keeps, del-Keeps}
use geminidb.Net.Proc.{Command}
use geminidb.Serv.Kv.{Request}
use geminidb.Serv.Commands.{Proc}
use geminidb.Serv.Commands.Dispatch.{Handled, to_writer, to_reader, answered}
use geminidb.Serv.Commands.Dispatch
use geminidb.Serv.Loop.{
  Link, ProcJob, NetworkServer, put_link, drop_link, count_command, count_job, watch_link,
  finish_job, proc_result, is_negative, proc_error, proc_ok, proc_thread,
}
use geminidb.Serv.Loop.Placed.{put_link_lem}
use geminidb.Serv.Loop.Requests.{
  send_response, command_of, new_job, hand_over, proc, after_proc, serve_request, serve_parsed,
  serve_link,
}

out-Keeps :
    {K : Type 0} (E : Epoll K) (id sock sock' : ℕ) (b : Bool) (fdes : Fdevents K)
    → sock' ≢ sock
    → reading E sock' (if b then fdes else (set_flags E sock fdevent_out (pos 1) id fdes).1)
      ≡ reading E sock' fdes
out-Keeps E id sock sock' true fdes apart = refl
out-Keeps E id sock sock' false fdes apart =
    set_flags-Keeps E sock sock' apart fdevent_out (pos 1) id fdes

-- A job of the link is in the pool.
abbrev pub HasJob : ℕ → List ProcJob → Type 0
HasJob id js = Any (λ job. job.link ≡ id) js

-- A link and its descriptor.
module _ {S K : Type 0} (E : Epoll K) (id' sock' : ℕ) where
  -- The link is what it was, it is watched for input or not as it was, and its jobs are still there.
  pub record Untouched (s t : NetworkServer S K) : Type 0 where
    pub same_link : t.links id' ≡ s.links id'
    pub same_watch : reading E sock' t.fdes ≡ reading E sock' s.fdes
    pub writer_kept : HasJob id' s.writer → HasJob id' t.writer
    pub reader_kept : HasJob id' s.reader → HasJob id' t.reader

  put_link-other :
      (id : ℕ) (link : Option Link) (s : NetworkServer S K)
      → id' ≢ id
      → (put_link E id link s).links id' ≡ s.links id'
  unfolding put_link
  put_link-other id link s ne = ground arith

  pub put_link-Untouched :
      (id : ℕ) (link : Option Link) (s t : NetworkServer S K)
      → id' ≢ id
      → Untouched s t
      → Untouched s (put_link E id link t)
  unfolding put_link
  put_link-Untouched id link s t ne u = record {
    same_link = put_link-other id link t ne ∙ u.same_link;
    same_watch = u.same_watch;
    writer_kept = u.writer_kept;
    reader_kept = u.reader_kept;
  }

  pub drop_link-Untouched :
      (id : ℕ) (link : Link) (s t : NetworkServer S K)
      → id' ≢ id
      → sock' ≢ link.sock
      → Untouched s t
      → Untouched s (drop_link E id link t)
  unfolding drop_link put_link
  drop_link-Untouched id link s t ne apart u = record {
    same_link = put_link-other id none t ne ∙ u.same_link;
    same_watch = del-Keeps E link.sock sock' apart t.fdes ∙ u.same_watch;
    writer_kept = u.writer_kept;
    reader_kept = u.reader_kept;
  }

  count_command-Untouched :
      (cmd : Option (Command Proc)) (s t : NetworkServer S K)
      → Untouched s t
      → Untouched s (count_command E cmd t)
  unfolding count_command
  count_command-Untouched none s t u = u
  count_command-Untouched (some cmd) s t u = record {
    same_link = u.same_link;
    same_watch = u.same_watch;
    writer_kept = u.writer_kept;
    reader_kept = u.reader_kept;
  }

  watch_link-Untouched :
      (id : ℕ) (link : Link) (ready : List ℕ) (s t : NetworkServer S K)
      → id' ≢ id
      → sock' ≢ link.sock
      → Untouched s t
      → Untouched s (watch_link E id link ready t).2
  unfolding watch_link put_link
  watch_link-Untouched id link ready s t ne apart u =
      let fdes =
        if Buffer.empty link.output
        then t.fdes
        else (set_flags E link.sock fdevent_out (pos 1) id t.fdes).1 in
      let out =
        out-Keeps E id link.sock sock' (Buffer.empty link.output) t.fdes apart ∙ u.same_watch in
      let there = put_link-other id (some link) t ne ∙ u.same_link in
      elim (Bool-cases (Buffer.empty link.input)) [
        | inl e ↦ rw e (record {
          same_link = there;
          same_watch = set_flags-Keeps E link.sock sock' apart fdevent_in (pos 1) id fdes ∙ out;
          writer_kept = u.writer_kept;
          reader_kept = u.reader_kept;
        })
        | inr e ↦ rw e (record {
          same_link = there;
          same_watch = clr-Keeps E link.sock sock' apart fdevent_in fdes ∙ out;
          writer_kept = u.writer_kept;
          reader_kept = u.reader_kept;
        })
      ]

  one_of :
      (s : NetworkServer S K) (b : Bool) (r r' : ℤ × List ℕ × NetworkServer S K)
      → Untouched s r.2
      → Untouched s r'.2
      → Untouched s (if b then r else r').2
  one_of s true r r' h h' = h
  one_of s false r r' h h' = h'

  pub finish_job-Untouched :
      (ws : List Writing) (job : ProcJob) (link : Link) (ready : List ℕ) (s t : NetworkServer S K)
      → id' ≢ job.link
      → sock' ≢ link.sock
      → Untouched s t
      → Untouched s (finish_job E ws job link ready t).2
  unfolding finish_job count_job
  finish_job-Untouched ws job link ready s t ne apart u =
      let id = job.link in
      let counted = count_command E job.cmd t in
      let u' = count_command-Untouched job.cmd s t u in
      let (len, output) = write link.noblock link.output ws in
      let gone : ℤ × List ℕ × NetworkServer S K =
        (proc_error, ready, drop_link E id link counted) in
      let plain = watch_link E id link ready counted in
      let wrote = watch_link E id (record link { output = output }) ready counted in
      let late = if is_negative len then gone else wrote in
      let dropped = drop_link-Untouched id link s counted ne apart u' in
      one_of s (is_minus_one job.result) gone (if Buffer.empty link.output then plain else late)
        dropped
        (one_of s (Buffer.empty link.output) plain late
          (watch_link-Untouched id link ready s counted ne apart u')
          (one_of s (is_negative len) gone wrote dropped (
            watch_link-Untouched id (record link { output = output }) ready s counted ne apart u')))
