-- ===== src/Serv/Loop/Watching/Heard.antt =====
-- A turn of the loop over a ready link, with what the kernel watches behind it.
use geminidb.Prelude.{
  ℕ, ◌≡◌, sym, ◌∙◌, subst, Bool, true, false, none, some, List, [], ◌∷◌, ◌++◌, Octets,
}
use geminidb.Data.LevelDb.{LevelDb}
use geminidb.Util.Buffer
use geminidb.Net.Link.Socket.{Writing}
use geminidb.Net.Fdevents.{Epoll}
use geminidb.Net.Fdevents.Flags.{reading}
use geminidb.Net.Fdevents.Calls.{reads, isset-heard}
use geminidb.Net.Fdevents.Reliable.{IsReliable}
use geminidb.Net.Proc.{Command}
use geminidb.Serv.Commands.{Proc}
use geminidb.Serv.Loop.{Link, ProcJob, NetworkServer}
use geminidb.Serv.Loop.Requests.{serve_link}
use geminidb.Serv.Loop.Placed.{Lives, Placed, closed, queued, watched, to_writer, to_reader}
use geminidb.Serv.Loop.Turns.{serve_link-Placed}
use geminidb.Serv.Loop.Watching.{Agreed, Agrees}
use geminidb.Serv.Loop.Watching.Turn.{serve_link-Agrees}

module _ {S K : Type 0} (E : Epoll K) where
  -- Whether the kernel reports that the descriptor can be read.
  abbrev pub hears : ℕ → NetworkServer S K → Bool
  hears sock s = reads E (E.interest s.fdes.kernel sock)

  pub reading-hears :
      (sock : ℕ) (s : NetworkServer S K) → Agreed E s → reading E sock s.fdes ≡ hears sock s
  unfolding reading
  reading-hears sock s w = isset-heard E s.fdes sock w

  -- A link is deleted; or it waits for the next round with bytes that are left, and the kernel does not
  -- watch it for input; or the kernel watches it for input; or its job was pushed to a pool of threads.
  pub data Attended (id sock : ℕ) (ready : List ℕ) (s : NetworkServer S K)
      : List ℕ → NetworkServer S K → Type 0 where
    is_closed : {t : NetworkServer S K} → t.links id ≡ none → Attended id sock ready s ready t
    is_queued :
        {t : NetworkServer S K} (l : Lives E id sock t)
        → Buffer.empty l.link.input ≡ false
        → hears sock t ≡ false
        → Attended id sock ready s (ready ++ id ∷ []) t
    is_heard :
        {t : NetworkServer S K}
        → Lives E id sock t
        → hears sock t ≡ true
        → Attended id sock ready s ready t
    is_to_write :
        {t : NetworkServer S K} (job : ProcJob)
        → Lives E id sock t
        → job.link ≡ id
        → t.writer ≡ s.writer ++ job ∷ []
        → Attended id sock ready s ready t
    is_to_read :
        {t : NetworkServer S K} (job : ProcJob)
        → Lives E id sock t
        → job.link ≡ id
        → t.reader ≡ s.reader ++ job ∷ []
        → Attended id sock ready s ready t

  Placed-Attended :
      (id sock : ℕ) (ready ready' : List ℕ) (s t : NetworkServer S K)
      → Agreed E t
      → Placed E id sock ready s ready' t
      → Attended id sock ready s ready' t
  Placed-Attended id sock ready ready' s t w (closed gone) = is_closed gone
  Placed-Attended id sock ready ready' s t w (queued l left h) =
      is_queued l left (sym (reading-hears sock t w) ∙ h)
  Placed-Attended id sock ready ready' s t w (watched l h) =
      is_heard l (sym (reading-hears sock t w) ∙ h)
  Placed-Attended id sock ready ready' s t w (to_writer job l e h) = is_to_write job l e h
  Placed-Attended id sock ready ready' s t w (to_reader job l e h) = is_to_read job l e h

module _ {K : Type 0} (E : Epoll K) (L : LevelDb) (usage : Command Proc → Octets) where
  -- A turn of the event loop over a ready link that meets no fault of a handler forgets no link, if
  -- the kernel watches what the table says and carries out the calls of epoll_ctl for which it has
  -- an entry, or has none where one is added: behind the turn the link is deleted, or waits for the
  -- next round with bytes that are left and the kernel does not watch it for input, or the kernel
  -- watches it for input, or its job is the last that was pushed to a pool of threads.
  pub serve_link-Attended :
      (realloc : ℕ → Bool) (ws : List Writing) (id : ℕ) (link : Link) (ready ready' : List ℕ)
      (s t : NetworkServer L.State K)
      → IsReliable E
      → Agreed E s
      → s.links id ≡ some link
      → serve_link E L usage realloc ws id ready s ≡ some (ready', t)
      → Attended E id link.sock ready s ready' t
  serve_link-Attended realloc ws id link ready ready' s t sure agreed there h =
      Placed-Attended E id link.sock ready ready' s t
        (subst (Agrees E) h (serve_link-Agrees E sure L usage realloc ws id ready s agreed))
        (serve_link-Placed E L usage realloc ws id link ready ready' s t there h)
