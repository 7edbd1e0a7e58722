-- ===== src/Serv/Commands/Dispatch/Readers.antt =====
-- Only the writer thread changes the database.
use geminidb.Prelude.{
  ℕ, Bool, true, false, Option, none, some, [], ◌∷◌, Octets, octets_eq, ◌&&◌, subst, length, sym,
  ◌∙◌, if◌then◌else◌, ◌>>=◌, get_elem?, ltb, ◌≡◌, refl, ap, Bool-cases, Option-cases, inl, inr,
  arith,
}
use geminidb.Data.LevelDb.{LevelDb}
use geminidb.Data.Binlog.{Geminidb}
use geminidb.Net.Response.{Response, reply_int}
use geminidb.Net.Proc.{Command, get_proc, add_flags, add_flag, set_proc}
use geminidb.Prelude.Int.{int_of_word}
use geminidb.Data.Queue.{qsize}
use geminidb.Serv.Kv
use geminidb.Serv.Queue
use geminidb.Serv.Kv.{Request, Outcome, answer, check_num_params}
use geminidb.Serv.Commands.{
  Proc, ProcMap, Server, built_in, reg_procs, register, proc_info, info_response,
  server_info_response, proc_version, proc_dbsize, proc_server_info, proc_ping,
}
use geminidb.Serv.Loop.{count_call}
use geminidb.Serv.Commands.Dispatch.{
  on_db, run, Handled, to_writer, to_reader, answered, start_job, proc,
}

-- The commands that read only.
abbrev pub reads_only : Proc → Bool
reads_only Proc.set = false
reads_only Proc.del = false
reads_only Proc.multi_set = false
reads_only Proc.multi_del = false
reads_only Proc.qpush = false
reads_only Proc.qpush_front = false
reads_only Proc.qpush_back = false
reads_only Proc.qpop = false
reads_only Proc.qpop_front = false
reads_only Proc.qpop_back = false
reads_only _ = true

-- A command that writes has both flags, and the others read only.
abbrev pub guarded : Command Proc → Bool
guarded cmd = if cmd.flags.write then cmd.flags.thread else reads_only cmd.proc

all_guarded : ProcMap → Bool
all_guarded [] = true
all_guarded (cmd ∷ map) = guarded cmd && all_guarded map

table-guarded : all_guarded (reg_procs built_in) ≡ true
unfolding all_guarded reg_procs register built_in set_proc add_flags add_flag octets_eq
table-guarded = refl

-- The table with its counts of calls at 0, as it is before any command.
abbrev pub uncounted : ProcMap → ProcMap
uncounted [] = []
uncounted (cmd ∷ map) = record cmd { calls = 0 } ∷ uncounted map

all_guarded-uncounted : (map : ProcMap) → all_guarded (uncounted map) ≡ all_guarded map
unfolding all_guarded
all_guarded-uncounted [] = refl
all_guarded-uncounted (cmd ∷ map) = ap (λ b. guarded cmd && b) (all_guarded-uncounted map)

-- A counted call leaves the rest of the table.
pub uncounted-count_call :
    (name : Octets) (map : ProcMap) → uncounted (count_call name map) ≡ uncounted map
unfolding count_call
uncounted-count_call name [] = refl
uncounted-count_call name (cmd ∷ map) = elim (Bool-cases (octets_eq name cmd.name)) [
  | inl e ↦ rw e refl
  | inr e ↦ rw e (ap (λ t. record cmd { calls = 0 } ∷ t) (uncounted-count_call name map))
]

get_proc-guarded :
    (name : Octets) (map : ProcMap) (cmd : Command Proc)
    → all_guarded map ≡ true
    → get_proc name map ≡ some cmd
    → guarded cmd ≡ true
unfolding get_proc all_guarded
get_proc-guarded name [] cmd h e = ground arith
get_proc-guarded name (c ∷ map) cmd h e = elim (Bool-cases (octets_eq name c.name)) [
  | inl n ↦ let same : c ≡ cmd = cc (rw n at e) in subst (λ d. guarded d ≡ true) same (ground arith)
  | inr n ↦ get_proc-guarded name map cmd (ground arith) (ground arith)
]

-- A result, if there is one, leaves the state.
abbrev pub Leaves : {D : Type 0} → Outcome D → D → Type 0
Leaves none g = Unit {0}
Leaves (some (r, h)) g = h ≡ g

module _ {D : Type 0} where
  check_num_params-Leaves :
      (n : ℕ) (req : Request) (g : D) (o : Outcome D)
      → Leaves o g
      → Leaves (check_num_params n req g o) g
  unfolding check_num_params
  check_num_params-Leaves n req g o h = elim (Bool-cases (ltb (length req) n)) [
    | inl e ↦ rw e refl
    | inr e ↦ rw e h
  ]

  bind-Leaves :
      {A : Type 0} (o : Option A) (f : A → Outcome D) (g : D)
      → ((a : A) → Leaves (f a) g)
      → Leaves (o >>= f) g
  bind-Leaves none f g h = tt
  bind-Leaves (some a) f g h = h a

  answer-Leaves : (o : Option Response) (g : D) → Leaves (answer o g) g
  answer-Leaves none g = tt
  answer-Leaves (some r) g = refl

module _ (L : LevelDb) (usage : Command Proc → Octets) where
  on_db-Leaves :
      (net : Server L.State) (o : Outcome (Geminidb L.State))
      → Leaves o net.geminidb
      → Leaves (on_db L usage net o) net
  on_db-Leaves net none h = tt
  on_db-Leaves net (some (r, g)) h = ap (λ g'. record net { geminidb = g' }) h

  -- A command that reads only leaves the server as it was.
  run-Leaves :
      (p : Proc) (req : Request) (net : Server L.State)
      → reads_only p ≡ true
      → Leaves (run L usage p req net) net
  unfolding run Kv.proc_get Kv.proc_exists Kv.proc_multi_exists Kv.proc_multi_get Queue.proc_qsize
      Queue.proc_qfront Queue.proc_qback proc_info proc_version proc_dbsize proc_server_info
      proc_ping
  run-Leaves Proc.get req net h = on_db-Leaves net _ (
      check_num_params-Leaves 2 req net.geminidb _
        (bind-Leaves (get_elem? req 1) _ net.geminidb (λ _. refl)))
  run-Leaves Proc.exists req net h = on_db-Leaves net _ (
      check_num_params-Leaves 2 req net.geminidb _
        (bind-Leaves (get_elem? req 1) _ net.geminidb (λ _. refl)))
  run-Leaves Proc.multi_exists req net h =
      on_db-Leaves net _ (check_num_params-Leaves 2 req net.geminidb _ refl)
  run-Leaves Proc.multi_get req net h =
      on_db-Leaves net _ (check_num_params-Leaves 2 req net.geminidb _ refl)
  run-Leaves Proc.qsize req net h = on_db-Leaves net _ (
      check_num_params-Leaves 2 req net.geminidb _ (
        bind-Leaves (get_elem? req 1) _ net.geminidb (λ name.
          answer-Leaves
            (reply_int (int_of_word (qsize L net.geminidb.ldb name)) (qsize L net.geminidb.ldb name)
              [])
            net.geminidb)))
  run-Leaves Proc.qfront req net h = on_db-Leaves net _ (
      check_num_params-Leaves 2 req net.geminidb _
        (bind-Leaves (get_elem? req 1) _ net.geminidb (λ _. refl)))
  run-Leaves Proc.qback req net h = on_db-Leaves net _ (
      check_num_params-Leaves 2 req net.geminidb _
        (bind-Leaves (get_elem? req 1) _ net.geminidb (λ _. refl)))
  run-Leaves Proc.info req net h = answer-Leaves (info_response L usage req net) net
  run-Leaves Proc.version req net h = refl
  run-Leaves Proc.dbsize req net h = refl
  run-Leaves Proc.ping req net h = refl
  run-Leaves Proc.server_info req net h = answer-Leaves (server_info_response L usage net) net
  run-Leaves Proc.set req net h = cc
  run-Leaves Proc.del req net h = cc
  run-Leaves Proc.multi_set req net h = cc
  run-Leaves Proc.multi_del req net h = cc
  run-Leaves Proc.qpush req net h = cc
  run-Leaves Proc.qpush_front req net h = cc
  run-Leaves Proc.qpush_back req net h = cc
  run-Leaves Proc.qpop req net h = cc
  run-Leaves Proc.qpop_front req net h = cc
  run-Leaves Proc.qpop_back req net h = cc

  -- What may become of a job: only the writer's thread may change the server.
  abbrev pub OnlyWriterWrites : Request → Server L.State → Option (Handled L.State) → Type 0
  OnlyWriterWrites req net none = Unit {0}
  OnlyWriterWrites req net (some (to_writer cmd)) = Unit {0}
  OnlyWriterWrites req net (some (to_reader cmd)) = Leaves (run L usage cmd.proc req net) net
  OnlyWriterWrites req net (some (answered resp net')) = net' ≡ net

  answered-OnlyWriterWrites :
      (req : Request) (net : Server L.State) (o : Outcome (Server L.State))
      → Leaves o net
      → OnlyWriterWrites req net (o >>= λ r. some (answered r.0 r.1))
  answered-OnlyWriterWrites req net none h = tt
  answered-OnlyWriterWrites req net (some (r, net')) h = h

  start_job-OnlyWriterWrites :
      (cmd : Command Proc) (req : Request) (net : Server L.State)
      → guarded cmd ≡ true
      → OnlyWriterWrites req net (start_job L usage cmd req net)
  unfolding start_job
  start_job-OnlyWriterWrites cmd req net h = elim (Bool-cases cmd.flags.thread) [
    | inl t ↦ elim (Bool-cases cmd.flags.write) [
      | inl w ↦ rw t (rw w tt)
      | inr w ↦ rw t (rw w (run-Leaves cmd.proc req net (ground arith)))
    ]
    | inr t ↦ rw t (
        answered-OnlyWriterWrites req net (run L usage cmd.proc req net)
          (run-Leaves cmd.proc req net (ground arith)))
  ]

  -- With the table of commands that the server registers, whatever calls of its commands have been
  -- counted, a request changes the server in the writer's thread only: the commands that the
  -- readers' threads run, and those that are run at once, leave the server and its database as they
  -- were.
  pub proc-OnlyWriterWrites :
      (req : Request) (net : Server L.State)
      → uncounted net.proc_map ≡ reg_procs built_in
      → OnlyWriterWrites req net (proc L usage req net)
  unfolding proc
  proc-OnlyWriterWrites [] net h = tt
  proc-OnlyWriterWrites (name ∷ req) net h = elim (Option-cases (get_proc name net.proc_map)) [
    | inl e ↦ rw (proc, e) refl
    | inr (cmd, e) ↦
        let safe : guarded cmd ≡ true =
          get_proc-guarded name net.proc_map cmd
            (sym (all_guarded-uncounted net.proc_map) ∙ ap all_guarded h ∙ table-guarded) e in
        rw (proc, e) (start_job-OnlyWriterWrites cmd (name ∷ req) net safe)
  ]
