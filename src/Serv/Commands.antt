-- ===== src/Serv/Commands.antt =====
-- src/serv.cpp and `NetworkServer::proc` with `proc_ping` of src/net/server.cpp: the table of commands
-- and the dispatch of a request. `usage` stands for the text that `proc_info` prints of a command's
-- times.
pub mod Dispatch
use geminidb.Prelude.{
  ℕ, suc, ◌+◌, ◌%◌, ◌^◌, Bool, true, false, Option, none, some, ◌>>=◌, List, [], ◌∷◌, ◌++◌, Octets,
  codes, octets_eq, length, get_elem?, ltb, ◌==◌, ◌&&◌, ◌||◌, if◌then◌else◌,
}
use geminidb.Prelude.Int.{ℤ}
use geminidb.Util.Number.{decimal}
use geminidb.Data.LevelDb.{LevelDb}
use geminidb.Data.Binlog.{Geminidb}
use geminidb.Data.Impl
use geminidb.Net.Response.{Response, push_back, add_int, add_int64}
use geminidb.Net.Proc.{Command, get_proc, set_proc}
use geminidb.Serv.Kv
use geminidb.Serv.Queue
use geminidb.Serv.Kv.{Request, Outcome, answer}

-- The `proc_t` functions.
pub data Proc : Type 0 where
  get : Proc
  set : Proc
  del : Proc
  exists : Proc
  multi_exists : Proc
  multi_get : Proc
  multi_set : Proc
  multi_del : Proc
  qsize : Proc
  qfront : Proc
  qback : Proc
  qpush : Proc
  qpush_front : Proc
  qpush_back : Proc
  qpop : Proc
  qpop_front : Proc
  qpop_back : Proc
  info : Proc
  version : Proc
  dbsize : Proc
  ping : Proc
  server_info : Proc

abbrev pub ProcMap : Type 0
ProcMap = List (Command Proc)

-- The fields of `NetworkServer` and `ProcServer` that the commands use.
pub record Server (S : Type 0) : Type 0 where
  pub geminidb : Geminidb S
  pub proc_map : ProcMap
  pub link_count : ℤ

-- The registrations of the constructor of `NetworkServer`.
unfoldable pub built_in : ProcMap
unfolding set_proc
built_in =
    set_proc (codes "info") (codes "r") server_info (set_proc (codes "ping") (codes "r") ping [])

-- A name, its flags and its function, of the table of `reg_procs`.
abbrev pub entries : List (Octets × Octets × Proc)
entries =
    (codes "get", codes "rt", get)
    ∷ (codes "set", codes "wt", set)
    ∷ (codes "del", codes "wt", del)
    ∷ (codes "exists", codes "rt", exists)
    ∷ (codes "multi_exists", codes "rt", multi_exists)
    ∷ (codes "multi_get", codes "rt", multi_get)
    ∷ (codes "multi_set", codes "wt", multi_set)
    ∷ (codes "multi_del", codes "wt", multi_del)
    ∷ (codes "qsize", codes "rt", qsize)
    ∷ (codes "qfront", codes "rt", qfront)
    ∷ (codes "qback", codes "rt", qback)
    ∷ (codes "qpush", codes "wt", qpush)
    ∷ (codes "qpush_front", codes "wt", qpush_front)
    ∷ (codes "qpush_back", codes "wt", qpush_back)
    ∷ (codes "qpop", codes "wt", qpop)
    ∷ (codes "qpop_front", codes "wt", qpop_front)
    ∷ (codes "qpop_back", codes "wt", qpop_back)
    ∷ (codes "info", codes "r", info)
    ∷ (codes "version", codes "r", version)
    ∷ (codes "dbsize", codes "rt", dbsize)
    ∷ []

unfoldable pub register : List (Octets × Octets × Proc) → ProcMap → ProcMap
unfolding set_proc
register [] map = map
register ((name, sflags, proc) ∷ es) map = register es (set_proc name sflags proc map)

unfoldable pub reg_procs : ProcMap → ProcMap
unfolding register
reg_procs map = register entries map

-- `calls` is an `int64_t`.
unfoldable pub total_calls : ProcMap → ℕ
total_calls [] = 0
total_calls (cmd ∷ map) = (cmd.calls + total_calls map) % 2 ^ 64

unfoldable pub add_usage : (Command Proc → Octets) → ProcMap → Response → Response
add_usage usage [] resp = resp
add_usage usage (cmd ∷ map) resp =
    add_usage usage map (push_back (usage cmd) (push_back (codes "cmd." ++ cmd.name) resp))

-- `req[1] == text` behind a test of the size.
unfoldable pub second_is : Octets → Request → Bool
second_is text (cmd ∷ x ∷ req) = octets_eq x text
second_is text _ = false

module _ (L : LevelDb) (usage : Command Proc → Octets) where
  unfoldable pub proc_dbsize : Server L.State → Outcome (Server L.State)
  unfolding Impl.size decimal
  proc_dbsize net = some (codes "ok" ∷ decimal (Impl.size L net.geminidb.ldb) ∷ [], net)

  unfoldable pub proc_version : Server L.State → Outcome (Server L.State)
  proc_version net = some (codes "ok" ∷ codes "1.0.0" ∷ [], net)

  unfoldable pub proc_ping : Server L.State → Outcome (Server L.State)
  proc_ping net = some (codes "ok" ∷ [], net)

  -- the block of `leveldb` and the block of `cmd`
  unfoldable pub info_blocks : Request → Server L.State → Response → Response
  unfolding Impl.info add_usage second_is
  info_blocks req net resp =
      let with_db =
        if length req == 1 || second_is (codes "leveldb") req
        then resp ++ Impl.info L net.geminidb.ldb
        else resp in
      if second_is (codes "cmd") req then add_usage usage net.proc_map with_db else with_db

  unfoldable pub info_response : Request → Server L.State → Option Response
  unfolding info_blocks total_calls add_int add_int64 Impl.size decimal
  info_response req net = do
    resp ←
        add_int net.link_count
          (codes "ok" ∷ codes "geminiDB-server" ∷ codes "version" ∷ [] ∷ codes "links" ∷ [])
    resp' ← add_int64 (total_calls net.proc_map) (push_back (codes "total_calls") resp)
    let sized =
        push_back (decimal (Impl.size L net.geminidb.ldb)) (push_back (codes "dbsize") resp')
    some (info_blocks req net sized)

  unfoldable pub proc_info : Request → Server L.State → Outcome (Server L.State)
  unfolding info_response
  proc_info req net = answer (info_response req net) net

  unfoldable pub server_info_response : Server L.State → Option Response
  unfolding total_calls add_int add_int64
  server_info_response net = do
    resp ← add_int net.link_count (codes "ok" ∷ codes "version" ∷ codes "1.0" ∷ codes "links" ∷ [])
    add_int64 (total_calls net.proc_map) (push_back (codes "total_calls") resp)

  -- `proc_info` of src/net/server.cpp, which `reg_procs` replaces.
  unfoldable pub proc_server_info : Server L.State → Outcome (Server L.State)
  unfolding server_info_response
  proc_server_info net = answer (server_info_response net) net
