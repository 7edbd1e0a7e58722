-- ===== src/Serv/Loop/Homed/Events.antt =====
-- An event of the poll leaves every link a place.
use geminidb.Prelude.{
  ℕ, ◌≡◌, refl, sym, ◌∙◌, subst, ap, inl, inr, Bool, true, false, Option, none, some, Option-cases,
  List, [], ◌∷◌, ◌++◌, Any-left, Any-last, if◌then◌else◌, arith,
}
use geminidb.Prelude.Int.{pos, is_nonpos}
use geminidb.Net.Link.Socket.{Reading, read}
use geminidb.Net.Fdevents.{Mask, Epoll, fdevent_in, set_flags}
use geminidb.Net.Fdevents.Flags.{set_flags-reading}
use geminidb.Net.Fdevents.Others.{set_flags-Keeps}
use geminidb.Serv.Loop.{Link, NetworkServer, put_link, plus_one, add_link, proc_request}
use geminidb.Serv.Loop.Placed.{
  Lives, Placed, closed, queued, watched, to_writer, to_reader, put_link_lem, lives,
}
use geminidb.Serv.Loop.Apart.{HasJob, Untouched, put_link-Untouched}
use geminidb.Serv.Loop.Rounds.{Round, IsFresh}
use geminidb.Serv.Loop.Homed.{
  IsIn, Home, in_list, in_list_2, is_watched, with_writer, with_reader, IsSettled, Moved-IsSettled,
}

abbrev sock_of : Option Link → ℕ
sock_of none = 0
sock_of (some link) = link.sock

abbrev pub round : {S K : Type 0} → List ℕ → List ℕ → NetworkServer S K → Round S K
round l l2 s = record { ready_list = l; ready_list_2 = l2; serv = s }

module _ {S K : Type 0} (E : Epoll K) where
  pub Lives-sock :
      (id sock : ℕ) (s : NetworkServer S K) (link : Link)
      → Lives E id sock s
      → s.links id ≡ some link
      → link.sock ≡ sock
  Lives-sock id sock s link l there = ap sock_of (sym there ∙ l.there) ∙ l.same

  -- The link is deleted, or it has a place, where the list that it may have joined is one of the two.
  pub Placed-own :
      (id sock : ℕ) (ready ready' l l2 : List ℕ) (s t : NetworkServer S K)
      → (IsIn id ready' → Home E id sock (round l l2 t))
      → Placed E id sock ready s ready' t
      → (link : Link) → t.links id ≡ some link
      → (link.sock ≡ sock) × Home E id sock (round l l2 t)
  Placed-own id sock ready ready' l l2 s t into (closed gone) link there =
      absurd (ground (arith, gone, there))
  Placed-own id sock ready ready' l l2 s t into (queued life left h) link there =
      (Lives-sock id sock t link life there, into (Any-last (λ i. i ≡ id) ready id refl))
  Placed-own id sock ready ready' l l2 s t into (watched life h) link there =
      (Lives-sock id sock t link life there, is_watched h)
  Placed-own id sock ready ready' l l2 s t into (to_writer job life e h) link there = (
    Lives-sock id sock t link life there,
    with_writer (subst (HasJob id) (sym h) (Any-last (λ j. j.link ≡ id) s.writer job e)),
  )
  Placed-own id sock ready ready' l l2 s t into (to_reader job life e h) link there = (
    Lives-sock id sock t link life there,
    with_reader (subst (HasJob id) (sym h) (Any-last (λ j. j.link ≡ id) s.reader job e)),
  )

  pub Placed-grows :
      (id sock i : ℕ) (ready ready' : List ℕ) (s t : NetworkServer S K)
      → Placed E id sock ready s ready' t
      → IsIn i ready
      → IsIn i ready'
  Placed-grows id sock i ready ready' s t (closed gone) h = h
  Placed-grows id sock i ready ready' s t (queued life left q) h =
      Any-left (λ j. j ≡ i) ready (id ∷ []) h
  Placed-grows id sock i ready ready' s t (watched life w) h = h
  Placed-grows id sock i ready ready' s t (to_writer job life e w) h = h
  Placed-grows id sock i ready ready' s t (to_reader job life e w) h = h

  pub unchanged : (id' sock' : ℕ) (s : NetworkServer S K) → Untouched E id' sock' s s
  unchanged id' sock' s = record {
    same_link = refl;
    same_watch = refl;
    writer_kept = λ h. h;
    reader_kept = λ h. h;
  }

  -- What holds behind the event, if it has a result.
  abbrev pub Keeps : List ℕ → Option (List ℕ × NetworkServer S K) → Type 0
  Keeps l2 none = Unit
  Keeps l2 (some (l, t)) = IsSettled E (round l l2 t)

  pub add_link-IsSettled :
      (id : ℕ) (link : Link) (l l2 : List ℕ) (s : NetworkServer S K)
      → IsFresh (some (id, link)) s
      → IsSettled E (round l l2 s)
      → IsSettled E (round l l2 (add_link E id link s))
  unfolding add_link put_link
  add_link-IsSettled id link l l2 s (unused, new_sock) =
      let fdes = (set_flags E link.sock fdevent_in (pos 1) id s.fdes).1 in
      let s1 : NetworkServer S K = record s {
        net = record s.net { link_count = plus_one s.net.link_count };
        fdes = fdes;
      } in
      let t : NetworkServer S K = put_link E id (some link) s1 in
      Moved-IsSettled E id link.sock (round l l2 s) (round l l2 t) (record {
        clear = λ id' link' there ne e. new_sock id' link' there e;
        own = λ link' there. (
          Lives-sock id link.sock t link' (lives E id link t (put_link_lem E id (some link) s1))
              there,
          is_watched (set_flags-reading E link.sock (pos 1) id s.fdes),
        );
        others = λ id' sock' ne apart.
            put_link-Untouched E id' sock' id (some link) s s1 ne (record {
              same_link = refl;
              same_watch = set_flags-Keeps E link.sock sock' apart fdevent_in (pos 1) id s.fdes;
              writer_kept = λ h. h;
              reader_kept = λ h. h;
            });
        list_kept = λ id' ne h. h;
        list_2_kept = λ id' ne h. h;
      })

  -- A link that is put back with its descriptor and joins the list.
  joined :
      (id : ℕ) (link link' : Link) (l l2 : List ℕ) (s : NetworkServer S K)
      → s.links id ≡ some link
      → link'.sock ≡ link.sock
      → IsSettled E (round l l2 s)
      → IsSettled E (round (l ++ id ∷ []) l2 (put_link E id (some link') s))
  unfolding put_link
  joined id link link' l l2 s there same settled =
      let t : NetworkServer S K = put_link E id (some link') s in
      Moved-IsSettled E id link.sock (round l l2 s) (round (l ++ id ∷ []) l2 t)
        (record {
          clear = λ id' other h ne. settled.apart id id' link other there h ne;
          own = λ other h. (
            Lives-sock id link.sock t other
                (record { link = link'; there = put_link_lem E id (some link') s; same = same }) h,
            in_list (Any-last (λ i. i ≡ id) l id refl),
          );
          others = λ id' sock' ne apart.
              put_link-Untouched E id' sock' id (some link') s s ne (unchanged id' sock' s);
          list_kept = λ id' ne h. Any-left (λ i. i ≡ id') l (id ∷ []) h;
          list_2_kept = λ id' ne h. h;
        })
        settled

  -- A link that has met an error joins the list, too.
  queued_as_is :
      (id : ℕ) (l l2 : List ℕ) (s : NetworkServer S K)
      → IsSettled E (round l l2 s)
      → IsSettled E (round (l ++ id ∷ []) l2 s)
  queued_as_is id l l2 s settled = record {
    homed = λ i link there. listed i link.sock (settled.homed i link there);
    apart = settled.apart;
  }
    where
      listed :
          (i sock : ℕ) → Home E i sock (round l l2 s) → Home E i sock (round (l ++ id ∷ []) l2 s)
      listed i sock (in_list h) = in_list (Any-left (λ j. j ≡ i) l (id ∷ []) h)
      listed i sock (in_list_2 h) = in_list_2 h
      listed i sock (is_watched h) = is_watched h
      listed i sock (with_writer h) = with_writer h
      listed i sock (with_reader h) = with_reader h

  pub either :
      (l2 : List ℕ) (b : Bool) (o o' : Option (List ℕ × NetworkServer S K))
      → Keeps l2 o
      → Keeps l2 o'
      → Keeps l2 (if b then o else o')
  either l2 true o o' h h' = h
  either l2 false o o' h h' = h'

  one_of :
      (b : Bool) (l l2 : List ℕ) (s t : NetworkServer S K)
      → IsSettled E (round l l2 s)
      → IsSettled E (round l l2 t)
      → IsSettled E (round l l2 (if b then s else t))
  one_of true l l2 s t h h' = h
  one_of false l l2 s t h h' = h'

  pub proc_request-Keeps :
      (realloc : ℕ → Bool) (rs : List Reading) (id : ℕ) (events : Mask) (l l2 : List ℕ)
      (s : NetworkServer S K)
      → IsSettled E (round l l2 s)
      → Keeps l2 (proc_request E realloc rs id events l s)
  unfolding proc_request
  proc_request-Keeps realloc rs id events l l2 s settled = elim (Option-cases (s.links id)) [
    | inl gone ↦ rw gone (either l2 events.in_bit none (some (l, s)) tt settled)
    | inr (link, there) ↦
        let got = read realloc link.noblock link.input rs in
        let link' : Link = record link { input = got.1; error = is_nonpos got.0 } in
        let t = if link.error then s else put_link E id (some link') s in
        let handled : IsSettled E (round (l ++ id ∷ []) l2 t) =
          one_of link.error (l ++ id ∷ []) l2 s (put_link E id (some link') s)
            (queued_as_is id l l2 s settled) (joined id link link' l l2 s there refl settled) in
        rw there (either l2 events.in_bit (some (l ++ id ∷ [], t)) (some (l, s)) handled settled)
  ]
