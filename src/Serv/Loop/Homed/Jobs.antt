-- ===== src/Serv/Loop/Homed/Jobs.antt =====
-- A job that comes back from a pool, and with it the whole of an event.
use geminidb.Prelude.{
  ℕ, zero, suc, ◌≡◌, ◌≢◌, refl, sym, ◌∙◌, subst, ap, inl, inr, Bool, Option, none, some,
  Option-cases, ◌>>=◌, List, [], ◌∷◌, Any-rest, ◌==◌, if◌then◌else◌,
}
use geminidb.Net.Link.Socket.{Writing}
use geminidb.Net.Fdevents.{Fdevent, Epoll}
use geminidb.Serv.Loop.{Link, ProcJob, NetworkServer, proc_request, proc_result, finish_job}
use geminidb.Serv.Loop.Placed.{finish_job-Placed}
use geminidb.Serv.Loop.Apart.{HasJob, Untouched, finish_job-Untouched}
use geminidb.Serv.Loop.Rounds.{Owners, Answer, take_job, new_link, popped, handle_event, IsFresh}
use geminidb.Serv.Loop.Homed.{in_list, IsSettled, Moved-IsSettled}
use geminidb.Serv.Loop.Homed.Events.{
  round, Placed-own, Placed-grows, Keeps, either, add_link-IsSettled, proc_request-Keeps,
}

-- The jobs of the other links are still in the pool.
abbrev Leaves : ℕ → List ProcJob → Option (ProcJob × List ProcJob) → Type 0
Leaves id jobs none = Unit
Leaves id jobs (some (job, rest)) = id ≢ job.link → HasJob id jobs → HasJob id rest

take_job-Leaves : (n id : ℕ) (jobs : List ProcJob) → Leaves id jobs (take_job n jobs)
unfolding take_job
take_job-Leaves n id [] = tt
take_job-Leaves zero id (job ∷ jobs) = λ ne. Any-rest (λ j. j.link ≡ id) job jobs (λ e. ne (sym e))
take_job-Leaves (suc n) id (job ∷ jobs) = elim (Option-cases (take_job n jobs)) [
  | inl e ↦ rw e tt
  | inr ((first, rest), e) ↦
      rw e (deeper first rest (subst (Leaves id jobs) e (take_job-Leaves n id jobs)))
]
  where
    deeper :
        (first : ProcJob) (rest : List ProcJob)
        → Leaves id jobs (some (first, rest))
        → Leaves id (job ∷ jobs) (some (first, job ∷ rest))
    deeper first rest h ne (inl e) = inl e
    deeper first rest h ne (inr there) = inr (h ne there)

module _ {S K : Type 0} (E : Epoll K) where
  popped-Keeps :
      (ws : List Writing) (job : ProcJob) (l l2 : List ℕ) (s s1 : NetworkServer S K)
      → s1.links ≡ s.links
      → ((id' sock' : ℕ) → id' ≢ job.link → Untouched E id' sock' s s1)
      → IsSettled E (round l l2 s)
      → Keeps E l2 (popped E ws job l s1)
  unfolding popped proc_result
  popped-Keeps ws job l l2 s s1 same u settled = elim (Option-cases (s1.links job.link)) [
    | inl gone ↦ rw gone tt
    | inr (link, there) ↦
        let r = finish_job E ws job link l s1 in
        let placed = finish_job-Placed E ws job link l s1 s1 in
        let was : s.links job.link ≡ some link = ap (λ f. f job.link) (sym same) ∙ there in
        rw there (
          Moved-IsSettled E job.link link.sock (round l l2 s) (round r.1 l2 r.2)
            (record {
              clear = λ id' other h ne. settled.apart job.link id' link other was h ne;
              own = Placed-own E job.link link.sock l r.1 r.1 l2 s1 r.2 in_list placed;
              others = λ id' sock' ne apart.
                  finish_job-Untouched E id' sock' ws job link l s s1 ne apart (u id' sock' ne);
              list_kept = λ id' ne h. Placed-grows E job.link link.sock id' l r.1 s1 r.2 placed h;
              list_2_kept = λ id' ne h. h;
            })
            settled)
  ]

  -- The branches for the two pools.
  from_reader :
      (ws : List Writing) (n : ℕ) (l l2 : List ℕ) (s : NetworkServer S K)
      → IsSettled E (round l l2 s)
      → Keeps E l2 (take_job n s.reader >>= (λ r. popped E ws r.0 l (record s { reader = r.1 })))
  from_reader ws n l l2 s settled = elim (Option-cases (take_job n s.reader)) [
    | inl e ↦ rw e tt
    | inr ((job, rest), e) ↦ rw e (
        popped-Keeps ws job l l2 s (record s { reader = rest }) refl
          (λ id' sock' ne. record {
            same_link = refl;
            same_watch = refl;
            writer_kept = λ h. h;
            reader_kept = subst (Leaves id' s.reader) e (take_job-Leaves n id' s.reader) ne;
          })
          settled)
  ]

  from_writer :
      (ws : List Writing) (n : ℕ) (l l2 : List ℕ) (s : NetworkServer S K)
      → IsSettled E (round l l2 s)
      → Keeps E l2 (take_job n s.writer >>= (λ r. popped E ws r.0 l (record s { writer = r.1 })))
  from_writer ws n l l2 s settled = elim (Option-cases (take_job n s.writer)) [
    | inl e ↦ rw e tt
    | inr ((job, rest), e) ↦ rw e (
        popped-Keeps ws job l l2 s (record s { writer = rest }) refl
          (λ id' sock' ne. record {
            same_link = refl;
            same_watch = refl;
            writer_kept = subst (Leaves id' s.writer) e (take_job-Leaves n id' s.writer) ne;
            reader_kept = λ h. h;
          })
          settled)
  ]

  new_link-IsSettled :
      (accepted : Option (ℕ × Link)) (l l2 : List ℕ) (s : NetworkServer S K)
      → IsFresh accepted s
      → IsSettled E (round l l2 s)
      → IsSettled E (round l l2 (new_link E accepted s))
  unfolding new_link
  new_link-IsSettled none l l2 s fresh settled = settled
  new_link-IsSettled (some (id, link)) l l2 s fresh settled =
      add_link-IsSettled E id link l l2 s fresh settled

  pub handle_event-Keeps :
      (owners : Owners) (realloc : ℕ → Bool) (a : Answer) (fde : Fdevent) (l l2 : List ℕ)
      (s : NetworkServer S K)
      → IsFresh a.accepted s
      → IsSettled E (round l l2 s)
      → Keeps E l2 (handle_event E owners realloc a fde l s)
  unfolding handle_event
  handle_event-Keeps owners realloc a fde l l2 s fresh settled =
      let from : List ProcJob
          → (List ProcJob → NetworkServer S K)
          → Option (List ℕ × NetworkServer S K) =
        λ jobs to. take_job a.done jobs >>= (λ r. popped E a.writes r.0 l (to r.1)) in
      let new = some (l, new_link E a.accepted s) in
      let read = from s.reader (λ rest. record s { reader = rest }) in
      let wrote = from s.writer (λ rest. record s { writer = rest }) in
      let asked = proc_request E realloc a.reads fde.data_ptr fde.events l s in
      let late = if fde.data_ptr == owners.writer then wrote else asked in
      either E l2 (fde.data_ptr == owners.serv_link) new
        (if fde.data_ptr == owners.reader then read else late)
        (new_link-IsSettled a.accepted l l2 s fresh settled)
        (either E l2 (fde.data_ptr == owners.reader) read late
          (from_reader a.writes a.done l l2 s settled)
          (either E l2 (fde.data_ptr == owners.writer) wrote asked
            (from_writer a.writes a.done l l2 s settled)
            (proc_request-Keeps E realloc a.reads fde.data_ptr fde.events l l2 s settled)))
