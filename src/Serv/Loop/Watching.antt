-- ===== src/Serv/Loop/Watching.antt =====
-- What the calls of src/net/server.cpp leave of the agreement between the table and the kernel, where the
-- kernel carries its calls out.
pub mod Turn
pub mod Steps
pub mod Heard
pub mod Always
use geminidb.Prelude.{
  ℕ, ◌≡◌, refl, inl, inr, Bool, true, false, Option, none, some, Option-cases, ◌>>=◌, List, [], ◌∷◌,
  ◌++◌, if◌then◌else◌,
}
use geminidb.Prelude.Int.{ℤ, pos, is_minus_one, is_nonpos}
use geminidb.Util.Buffer
use geminidb.Net.Link.Socket.{Reading, Writing, read, write}
use geminidb.Net.Proc.{Command}
use geminidb.Serv.Commands.{Proc}
use geminidb.Net.Fdevents.{Mask, Epoll, Fdevents, fdevent_in, fdevent_out, set_flags, clr}
use geminidb.Net.Fdevents.Watched.{IsWatched}
use geminidb.Net.Fdevents.Reliable.{IsReliable, set_flags-Agrees, clr-Agrees, del-Agrees}
use geminidb.Serv.Loop.{
  Link, ProcJob, NetworkServer, put_link, drop_link, count_command, count_job, watch_link,
  finish_job, proc_result, proc_request, add_link, is_negative, proc_error, proc_ok,
}

wants_out :
    {K : Type 0} (E : Epoll K) (sure : IsReliable E) (b : Bool) (sock id : ℕ) (fdes : Fdevents K)
    → IsWatched E fdes
    → IsWatched E (if b then fdes else (set_flags E sock fdevent_out (pos 1) id fdes).1)
wants_out E sure true sock id fdes w = w
wants_out E sure false sock id fdes w =
    set_flags-Agrees E sure sock fdevent_out (pos 1) id fdes refl w

module _ {S K : Type 0} (E : Epoll K) where
  -- The kernel watches what the table of the server says.
  abbrev pub Agreed : NetworkServer S K → Type 0
  Agreed s = IsWatched E s.fdes

  abbrev pub Agrees : Option (List ℕ × NetworkServer S K) → Type 0
  Agrees none = Unit
  Agrees (some r) = Agreed r.1

  pub either-Agrees :
      (b : Bool) (o o' : Option (List ℕ × NetworkServer S K))
      → Agrees o
      → Agrees o'
      → Agrees (if b then o else o')
  either-Agrees true o o' h h' = h
  either-Agrees false o o' h h' = h'

  one_of :
      (b : Bool) (s s' : NetworkServer S K) → Agreed s → Agreed s' → Agreed (if b then s else s')
  one_of true s s' h h' = h
  one_of false s s' h h' = h'

  either-Agreed :
      (b : Bool) (r r' : ℤ × List ℕ × NetworkServer S K)
      → Agreed r.2
      → Agreed r'.2
      → Agreed (if b then r else r').2
  either-Agreed true r r' h h' = h
  either-Agreed false r r' h h' = h'

  pub put_link-Agreed :
      (id : ℕ) (link : Option Link) (s : NetworkServer S K)
      → Agreed s
      → Agreed (put_link E id link s)
  unfolding put_link
  put_link-Agreed id link s w = w

  pub drop_link-Agreed :
      (id : ℕ) (link : Link) (s : NetworkServer S K) → Agreed s → Agreed (drop_link E id link s)
  unfolding drop_link put_link
  drop_link-Agreed id link s w = del-Agrees E link.sock s.fdes w

  count_command-Agreed :
      (cmd : Option (Command Proc)) (s : NetworkServer S K)
      → Agreed s
      → Agreed (count_command E cmd s)
  unfolding count_command
  count_command-Agreed none s w = w
  count_command-Agreed (some cmd) s w = w

  count_job-Agreed : (job : ProcJob) (s : NetworkServer S K) → Agreed s → Agreed (count_job E job s)
  unfolding count_job
  count_job-Agreed job s w = count_command-Agreed job.cmd s w

  pub proc_request-Agrees :
      (realloc : ℕ → Bool) (rs : List Reading) (id : ℕ) (events : Mask) (ready : List ℕ)
      (s : NetworkServer S K)
      → Agreed s
      → Agrees (proc_request E realloc rs id events ready s)
  unfolding proc_request put_link
  proc_request-Agrees realloc rs id events ready s w = elim (Option-cases (s.links id)) [
    | inl gone ↦ rw gone (either-Agrees events.in_bit none (some (ready, s)) tt w)
    | inr (link, there) ↦
        let got = read realloc link.noblock link.input rs in
        let link' : Link = record link { input = got.1; error = is_nonpos got.0 } in
        let t : NetworkServer S K = if link.error then s else put_link E id (some link') s in
        rw there (
          either-Agrees events.in_bit (some (ready ++ id ∷ [], t)) (some (ready, s))
            (one_of link.error s (put_link E id (some link') s) w w) w)
  ]

  module _ (sure : IsReliable E) where
    watch_link-Agreed :
        (id : ℕ) (link : Link) (ready : List ℕ) (s : NetworkServer S K)
        → Agreed s
        → Agreed (watch_link E id link ready s).2
    unfolding watch_link put_link
    watch_link-Agreed id link ready s w =
        let fdes : Fdevents K =
          if Buffer.empty link.output
          then s.fdes
          else (set_flags E link.sock fdevent_out (pos 1) id s.fdes).1 in
        let w' : IsWatched E fdes =
          wants_out E sure (Buffer.empty link.output) link.sock id s.fdes w in
        let s' = put_link E id (some link) s in
        either-Agreed (Buffer.empty link.input)
          (
            proc_ok,
            ready,
            record s' { fdes = (set_flags E link.sock fdevent_in (pos 1) id fdes).1 },
          )
          (proc_ok, ready ++ id ∷ [], record s' { fdes = (clr E link.sock fdevent_in fdes).1 })
          (set_flags-Agrees E sure link.sock fdevent_in (pos 1) id fdes refl w')
          (clr-Agrees E sure link.sock fdevent_in fdes w')

    finish_job-Agreed :
        (ws : List Writing) (job : ProcJob) (link : Link) (ready : List ℕ) (s : NetworkServer S K)
        → Agreed s
        → Agreed (finish_job E ws job link ready s).2
    unfolding finish_job
    finish_job-Agreed ws job link ready s w =
        let counted = count_job E job s in
        let c : Agreed counted = count_job-Agreed job s w in
        let wrote = write link.noblock link.output ws in
        let written : Link = record link { output = wrote.1 } in
        let dropped : ℤ × List ℕ × NetworkServer S K =
          (proc_error, ready, drop_link E job.link link counted) in
        let d : Agreed dropped.2 = drop_link-Agreed job.link link counted c in
        let behind : ℤ × List ℕ × NetworkServer S K =
          if is_negative wrote.0 then dropped else watch_link E job.link written ready counted in
        let with_output : ℤ × List ℕ × NetworkServer S K =
          if Buffer.empty link.output then watch_link E job.link link ready counted else behind in
        either-Agreed (is_minus_one job.result) dropped with_output d (
          either-Agreed (Buffer.empty link.output) (watch_link E job.link link ready counted) behind
            (watch_link-Agreed job.link link ready counted c)
            (either-Agreed (is_negative wrote.0) dropped
              (watch_link E job.link written ready counted) d
              (watch_link-Agreed job.link written ready counted c)))

    pub result-Agrees :
        (ws : List Writing) (job : ProcJob) (ready : List ℕ) (s : NetworkServer S K)
        → Agreed s
        → Agrees (proc_result E ws job ready s >>= λ r. some (r.1, r.2))
    unfolding proc_result
    result-Agrees ws job ready s w = elim (Option-cases (s.links job.link)) [
      | inl e ↦ rw e tt
      | inr (link, e) ↦ rw e (finish_job-Agreed ws job link ready s w)
    ]

    pub add_link-Agreed :
        (id : ℕ) (link : Link) (s : NetworkServer S K) → Agreed s → Agreed (add_link E id link s)
    unfolding add_link put_link
    add_link-Agreed id link s w =
        set_flags-Agrees E sure link.sock fdevent_in (pos 1) id s.fdes refl w
