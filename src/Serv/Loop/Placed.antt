-- ===== src/Serv/Loop/Placed.antt =====
-- Where a link is behind a turn of the loop: it is never forgotten.
use geminidb.Prelude.{
  ℕ, ◌≡◌, refl, inl, inr, Bool, true, false, Bool-cases, Option, none, some, List, [], ◌∷◌, ◌++◌,
  ==-refl, if◌then◌else◌,
}
use geminidb.Prelude.Int.{ℤ, pos, is_minus_one}
use geminidb.Util.Buffer
use geminidb.Util.Buffer.{Buffer}
use geminidb.Net.Link.Socket.{Writing, write}
use geminidb.Net.Fdevents.{Epoll, fdevent_out, set_flags}
use geminidb.Net.Fdevents.Flags.{reading, set_flags-reading, clr-reading}
use geminidb.Serv.Loop.{
  Link, ProcJob, NetworkServer, put_link, drop_link, count_job, watch_link, finish_job, proc_result,
  is_negative, proc_error,
}

module _ {S K : Type 0} (E : Epoll K) where
  -- The link lives on, on its descriptor.
  pub record Lives (id sock : ℕ) (s : NetworkServer S K) : Type 0 where
    pub link : Link
    pub there : s.links id ≡ some link
    pub same : link.sock ≡ sock

  -- A link is deleted; or it waits for the next round with bytes that are left, and is not watched for
  -- input by the flags of the table; or it is watched so; or its job was pushed to a pool of threads.
  pub data Placed (id sock : ℕ) (ready : List ℕ) (s : NetworkServer S K)
      : List ℕ → NetworkServer S K → Type 0 where
    closed : {t : NetworkServer S K} → t.links id ≡ none → Placed id sock ready s ready t
    queued :
        {t : NetworkServer S K} (l : Lives id sock t)
        → Buffer.empty l.link.input ≡ false
        → reading E sock t.fdes ≡ false
        → Placed id sock ready s (ready ++ id ∷ []) t
    watched :
        {t : NetworkServer S K}
        → Lives id sock t
        → reading E sock t.fdes ≡ true
        → Placed id sock ready s ready t
    to_writer :
        {t : NetworkServer S K} (job : ProcJob)
        → Lives id sock t
        → job.link ≡ id
        → t.writer ≡ s.writer ++ job ∷ []
        → Placed id sock ready s ready t
    to_reader :
        {t : NetworkServer S K} (job : ProcJob)
        → Lives id sock t
        → job.link ≡ id
        → t.reader ≡ s.reader ++ job ∷ []
        → Placed id sock ready s ready t

  pub put_link_lem :
      (id : ℕ) (link : Option Link) (s : NetworkServer S K) → (put_link E id link s).links id ≡ link
  unfolding put_link
  put_link_lem id link s = rw (==-refl id) refl

  pub drop_link-Placed :
      (id sock : ℕ) (link : Link) (ready : List ℕ) (s t : NetworkServer S K)
      → Placed id sock ready s ready (drop_link E id link t)
  unfolding drop_link put_link
  drop_link-Placed id sock link ready s t = closed (rw (==-refl id) refl)

  abbrev pub AfterResult :
      ℕ → ℕ → List ℕ → NetworkServer S K → ℤ × List ℕ × NetworkServer S K → Type 0
  AfterResult id sock ready s r = Placed id sock ready s r.1 r.2

  pub lives :
      (id : ℕ) (link : Link) (t : NetworkServer S K) → t.links id ≡ some link → Lives id link.sock t
  lives id link t h = record { link = link; there = h; same = refl }

  watch_link-Placed :
      (id : ℕ) (link : Link) (ready : List ℕ) (s t : NetworkServer S K)
      → AfterResult id link.sock ready s (watch_link E id link ready t)
  unfolding watch_link put_link lives
  watch_link-Placed id link ready s t =
      let fdes =
        if Buffer.empty link.output
        then t.fdes
        else (set_flags E link.sock fdevent_out (pos 1) id t.fdes).1 in
      elim (Bool-cases (Buffer.empty link.input)) [
        | inl e ↦ rw e (
            watched (lives id link _ (put_link_lem id (some link) t))
              (set_flags-reading E link.sock (pos 1) id fdes))
        | inr e ↦ rw e (
            queued (lives id link _ (put_link_lem id (some link) t)) e
              (clr-reading E link.sock fdes))
      ]

  one_of :
      (id sock : ℕ) (ready : List ℕ) (s : NetworkServer S K) (b : Bool)
      (r r' : ℤ × List ℕ × NetworkServer S K)
      → AfterResult id sock ready s r
      → AfterResult id sock ready s r'
      → AfterResult id sock ready s (if b then r else r')
  one_of id sock ready s true r r' h h' = h
  one_of id sock ready s false r r' h h' = h'

  pub finish_job-Placed :
      (ws : List Writing) (job : ProcJob) (link : Link) (ready : List ℕ) (s t : NetworkServer S K)
      → AfterResult job.link link.sock ready s (finish_job E ws job link ready t)
  unfolding finish_job
  finish_job-Placed ws job link ready s t =
      let id = job.link in
      let counted = count_job E job t in
      let (len, output) = write link.noblock link.output ws in
      let gone : ℤ × List ℕ × NetworkServer S K =
        (proc_error, ready, drop_link E id link counted) in
      let plain = watch_link E id link ready counted in
      let wrote = watch_link E id (record link { output = output }) ready counted in
      let dropped = drop_link-Placed id link.sock link ready s counted in
      one_of id link.sock ready s (is_minus_one job.result) gone
        (if Buffer.empty link.output then plain else if is_negative len then gone else wrote)
        dropped
        (one_of id link.sock ready s (Buffer.empty link.output) plain
          (if is_negative len then gone else wrote) (watch_link-Placed id link ready s counted)
          (one_of id link.sock ready s (is_negative len) gone wrote dropped
            (watch_link-Placed id (record link { output = output }) ready s counted)))

  -- What holds of the result, if there is one.
  abbrev pub Ensured :
      ℕ → ℕ → List ℕ → NetworkServer S K → Option (ℤ × List ℕ × NetworkServer S K) → Type 0
  Ensured id sock ready s none = Unit
  Ensured id sock ready s (some r) = AfterResult id sock ready s r

  pub proc_result-Ensured :
      (ws : List Writing) (job : ProcJob) (link : Link) (ready : List ℕ) (s t : NetworkServer S K)
      → t.links job.link ≡ some link
      → Ensured job.link link.sock ready s (proc_result E ws job ready t)
  unfolding proc_result
  proc_result-Ensured ws job link ready s t there =
      rw there (finish_job-Placed ws job link ready s t)

  -- `proc_result` of a job whose link is there returns, and behind it the link is deleted, or is
  -- behind the other ready links with bytes that are left and is not watched for input, or is
  -- watched for input.
  pub proc_result-Placed :
      (ws : List Writing) (job : ProcJob) (link : Link) (ready : List ℕ) (s : NetworkServer S K)
      → s.links job.link ≡ some link
      → (r : ℤ × List ℕ × NetworkServer S K) × (proc_result E ws job ready s ≡ some r)
        × Placed job.link link.sock ready s r.1 r.2
  unfolding proc_result
  proc_result-Placed ws job link ready s there =
      (finish_job E ws job link ready s, rw there refl, finish_job-Placed ws job link ready s s)
