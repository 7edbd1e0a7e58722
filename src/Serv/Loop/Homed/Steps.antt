-- ===== src/Serv/Loop/Homed/Steps.antt =====
-- Every step of the loop, and of the threads meanwhile, leaves every link a place.
use geminidb.Prelude.{
  ℕ, ◌≡◌, ◌≢◌, refl, sym, ◌∙◌, subst, ap, inl, inr, Bool, Option, none, some, Option-cases, List,
  [], ◌∷◌, Any-rest, get_elem?, set, Octets, arith,
}
use geminidb.Data.LevelDb.{LevelDb}
use geminidb.Net.Link.Socket.{Writing}
use geminidb.Net.Fdevents.{Epoll, Fdevents, Polled, polled, poll_interrupted, poll_failed, wait}
use geminidb.Net.Fdevents.Flags.{reading, reading_lem}
use geminidb.Net.Fdevents.Calls.{flags-mark_ready}
use geminidb.Net.Proc.{Command}
use geminidb.Serv.Commands.{Proc}
use geminidb.Serv.Loop.{Link, ProcJob, NetworkServer}
use geminidb.Serv.Loop.Requests.{serve_link, worker_proc}
use geminidb.Serv.Loop.Turns.{serve_link-Placed}
use geminidb.Serv.Loop.Apart.{HasJob, Untouched}
use geminidb.Serv.Loop.Apart.Turn.{serve_link-Untouched}
use geminidb.Serv.Loop.Rounds.{Owners, Round}
use geminidb.Serv.Loop.Homed.{
  IsIn, Home, in_list, in_list_2, is_watched, with_writer, with_reader, IsSettled, Moved-IsSettled,
}
use geminidb.Serv.Loop.Homed.Events.{round, Lives-sock, Placed-own, Placed-grows}
use geminidb.Serv.Loop.Homed.Workers.{
  HasJob-set, HasJob-set_other, Worked, After, worker_proc-After, worker_proc-Gone,
}

module _ {K : Type 0} (E : Epoll K) (L : LevelDb) (usage : Command Proc → Octets) (owners : Owners)
    (realloc : ℕ → Bool) where
  wait-reading :
      (fd : ℕ) (answer : Polled) (s : Fdevents K)
      → reading E fd (wait E answer s).1 ≡ reading E fd s
  unfolding wait
  wait-reading fd (polled es) s =
      reading_lem E fd (wait E (polled es) s).1
      ∙ ap (λ m. m.in_bit) (flags-mark_ready es fd s.table)
      ∙ sym (reading_lem E fd s)
  wait-reading fd poll_interrupted s = refl
  wait-reading fd poll_failed s = refl

  pub waited-Home :
      (id sock : ℕ) (answer : Polled) (r : Round L.State K)
      → Home E id sock r
      → Home E id sock (record r { serv = record r.serv { fdes = (wait E answer r.serv.fdes).1 } })
  waited-Home id sock answer r (in_list h) = in_list h
  waited-Home id sock answer r (in_list_2 h) = in_list_2 h
  waited-Home id sock answer r (is_watched h) =
      is_watched (wait-reading sock answer r.serv.fdes ∙ h)
  waited-Home id sock answer r (with_writer h) = with_writer h
  waited-Home id sock answer r (with_reader h) = with_reader h

  pub swapped-Home :
      (id sock : ℕ) (r : Round L.State K)
      → r.ready_list ≡ []
      → Home E id sock r
      → Home E id sock (round r.ready_list_2 [] r.serv)
  swapped-Home id sock r e (in_list h) = absurd (subst (IsIn id) e h)
  swapped-Home id sock r e (in_list_2 h) = in_list h
  swapped-Home id sock r e (is_watched h) = is_watched h
  swapped-Home id sock r e (with_writer h) = with_writer h
  swapped-Home id sock r e (with_reader h) = with_reader h

  serve_link-Gone :
      (ws : List Writing) (id : ℕ) (ready : List ℕ) (s : NetworkServer L.State K)
      → s.links id ≡ none
      → serve_link E L usage realloc ws id ready s ≡ none
  unfolding serve_link
  serve_link-Gone ws id ready s gone = rw gone refl

  no_result : {A : Type 0} (o : Option A) (a : A) → o ≡ none → o ≡ some a → ⊥
  no_result o a e h = ground (arith, e, h)

  pub served-IsSettled :
      (ws : List Writing) (id : ℕ) (ids ready' : List ℕ) (r : Round L.State K)
      (t : NetworkServer L.State K)
      → r.ready_list ≡ id ∷ ids
      → serve_link E L usage realloc ws id r.ready_list_2 r.serv ≡ some (ready', t)
      → IsSettled E r
      → IsSettled E (round ids ready' t)
  served-IsSettled ws id ids ready' r t first h settled = elim (Option-cases (r.serv.links id)) [
    | inl gone ↦ absurd (
        no_result (serve_link E L usage realloc ws id r.ready_list_2 r.serv) (ready', t)
          (serve_link-Gone ws id r.ready_list_2 r.serv gone) h)
    | inr (link, there) ↦
        let placed =
          serve_link-Placed E L usage realloc ws id link r.ready_list_2 ready' r.serv t there h in
        Moved-IsSettled E id link.sock r (round ids ready' t)
          (record {
            clear = λ id' other at ne. settled.apart id id' link other there at ne;
            own =
                Placed-own E id link.sock r.ready_list_2 ready' ids ready' r.serv t in_list_2
                  placed;
            others = λ id' sock' ne apart.
                serve_link-Untouched E L usage id' sock' realloc ws id link r.ready_list_2 ready'
                  r.serv t there ne apart h;
            list_kept = λ id' ne at.
                Any-rest (λ i. i ≡ id') id ids (λ e. ne (sym e)) (subst (IsIn id') first at);
            list_2_kept = λ id' ne at.
                Placed-grows E id link.sock id' r.ready_list_2 ready' r.serv t placed at;
          })
          settled
  ]

  -- A thread, whose job stands in its pool again behind it.
  worked :
      (job job' : ProcJob) (link : Link) (r : Round L.State K) (s' t : NetworkServer L.State K)
      → r.serv.links job.link ≡ some link
      → t.links ≡ s'.links
      → Worked E L usage link.sock job job' r.serv s'
      → Home E job.link link.sock (record r { serv = t })
      → ((id' sock' : ℕ) → id' ≢ job.link → Untouched E id' sock' r.serv t)
      → IsSettled E r
      → IsSettled E (record r { serv = t })
  worked job job' link r s' t there same w home u settled =
      Moved-IsSettled E job.link link.sock r (record r { serv = t })
        (record {
          clear = λ id' other at ne. settled.apart job.link id' link other there at ne;
          own = λ other at. (
            Lives-sock E job.link link.sock s' other w.life (ap (λ f. f job.link) (sym same) ∙ at),
            home,
          );
          others = λ id' sock' ne apart. u id' sock' ne;
          list_kept = λ id' ne at. at;
          list_2_kept = λ id' ne at. at;
        })
        settled

  pub wrote-IsSettled :
      (ws : List Writing) (n : ℕ) (job job' : ProcJob) (r : Round L.State K)
      (s' : NetworkServer L.State K)
      → get_elem? r.serv.writer n ≡ some job
      → worker_proc E L usage realloc ws job r.serv ≡ some (job', s')
      → IsSettled E r
      → IsSettled E (record r { serv = record s' { writer = set s'.writer n job' } })
  wrote-IsSettled ws n job job' r s' stands h settled =
      elim (Option-cases (r.serv.links job.link)) [
        | inl gone ↦ absurd (
            no_result (worker_proc E L usage realloc ws job r.serv) (job', s')
              (worker_proc-Gone E L usage realloc ws job r.serv gone) h)
        | inr (link, there) ↦
            let w : Worked E L usage link.sock job job' r.serv s' =
              subst (After E L usage link.sock job r.serv) h
                (worker_proc-After E L usage realloc ws job link r.serv there) in
            let stands' : get_elem? s'.writer n ≡ some job =
              ap (λ js. get_elem? js n) w.same_writer ∙ stands in
            worked job job' link r s' (record s' { writer = set s'.writer n job' }) there refl w
              (with_writer (
                subst (λ i. HasJob i (set s'.writer n job')) w.same_link
                  (HasJob-set n s'.writer job job' stands')))
              (λ id' sock' ne. record {
                same_link = (w.others id' sock' ne).same_link;
                same_watch = (w.others id' sock' ne).same_watch;
                writer_kept = λ at.
                    HasJob-set_other n id' s'.writer job job' stands' ne
                      ((w.others id' sock' ne).writer_kept at);
                reader_kept = (w.others id' sock' ne).reader_kept;
              })
              settled
      ]

  pub read-IsSettled :
      (ws : List Writing) (n : ℕ) (job job' : ProcJob) (r : Round L.State K)
      (s' : NetworkServer L.State K)
      → get_elem? r.serv.reader n ≡ some job
      → worker_proc E L usage realloc ws job r.serv ≡ some (job', s')
      → IsSettled E r
      → IsSettled E (record r { serv = record s' { reader = set s'.reader n job' } })
  read-IsSettled ws n job job' r s' stands h settled = elim (Option-cases (r.serv.links job.link)) [
    | inl gone ↦ absurd (
        no_result (worker_proc E L usage realloc ws job r.serv) (job', s')
          (worker_proc-Gone E L usage realloc ws job r.serv gone) h)
    | inr (link, there) ↦
        let w : Worked E L usage link.sock job job' r.serv s' =
          subst (After E L usage link.sock job r.serv) h
            (worker_proc-After E L usage realloc ws job link r.serv there) in
        let stands' : get_elem? s'.reader n ≡ some job =
          ap (λ js. get_elem? js n) w.same_reader ∙ stands in
        worked job job' link r s' (record s' { reader = set s'.reader n job' }) there refl w
          (with_reader (
            subst (λ i. HasJob i (set s'.reader n job')) w.same_link
              (HasJob-set n s'.reader job job' stands')))
          (λ id' sock' ne. record {
            same_link = (w.others id' sock' ne).same_link;
            same_watch = (w.others id' sock' ne).same_watch;
            writer_kept = (w.others id' sock' ne).writer_kept;
            reader_kept = λ at.
                HasJob-set_other n id' s'.reader job job' stands' ne
                  ((w.others id' sock' ne).reader_kept at);
          })
          settled
  ]
