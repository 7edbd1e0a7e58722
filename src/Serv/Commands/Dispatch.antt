-- ===== src/Serv/Commands/Dispatch.antt =====
-- `NetworkServer::proc` of src/net/server.cpp: a request is looked up, handed to a pool of threads or
-- run at once. The clocks of a job are left out, and the response is sent by the caller here.
pub mod Readers
use geminidb.Prelude.{
  Bool, true, false, Option, none, some, List, [], ◌∷◌, ◌++◌, Octets, codes, if◌then◌else◌, ◌>>=◌,
  get_elem?,
}
use geminidb.Data.LevelDb.{LevelDb}
use geminidb.Data.Binlog.{Geminidb}
use geminidb.Net.Response.{Response}
use geminidb.Net.Proc.{Command, Flags, get_proc}
use geminidb.Serv.Kv
use geminidb.Serv.Queue
use geminidb.Serv.Commands
use geminidb.Serv.Kv.{Request, Outcome}
use geminidb.Serv.Commands.{Proc, Server}

-- What becomes of a job: `PROC_THREAD` with the pool that has it, or the response.
pub data Handled (S : Type 0) : Type 0 where
  to_writer : Command Proc → Handled S
  to_reader : Command Proc → Handled S
  answered : Response → Server S → Handled S

module _ (L : LevelDb) (usage : Command Proc → Octets) where
  -- A command on the database alone.
  abbrev pub on_db : Server L.State → Outcome (Geminidb L.State) → Outcome (Server L.State)
  on_db net none = none
  on_db net (some (resp, g)) = some (resp, record net { geminidb = g })

  -- The call through `cmd->proc`.
  unfoldable pub run : Proc → Request → Server L.State → Outcome (Server L.State)
  run Proc.get req net = on_db net (Kv.proc_get L req net.geminidb)
  run Proc.set req net = on_db net (Kv.proc_set L req net.geminidb)
  run Proc.del req net = on_db net (Kv.proc_del L req net.geminidb)
  run Proc.exists req net = on_db net (Kv.proc_exists L req net.geminidb)
  run Proc.multi_exists req net = on_db net (Kv.proc_multi_exists L req net.geminidb)
  run Proc.multi_get req net = on_db net (Kv.proc_multi_get L req net.geminidb)
  run Proc.multi_set req net = on_db net (Kv.proc_multi_set L req net.geminidb)
  run Proc.multi_del req net = on_db net (Kv.proc_multi_del L req net.geminidb)
  run Proc.qsize req net = on_db net (Queue.proc_qsize L req net.geminidb)
  run Proc.qfront req net = on_db net (Queue.proc_qfront L req net.geminidb)
  run Proc.qback req net = on_db net (Queue.proc_qback L req net.geminidb)
  run Proc.qpush req net = on_db net (Queue.proc_qpush L req net.geminidb)
  run Proc.qpush_front req net = on_db net (Queue.proc_qpush_front L req net.geminidb)
  run Proc.qpush_back req net = on_db net (Queue.proc_qpush_back L req net.geminidb)
  run Proc.qpop req net = on_db net (Queue.proc_qpop L req net.geminidb)
  run Proc.qpop_front req net = on_db net (Queue.proc_qpop_front L req net.geminidb)
  run Proc.qpop_back req net = on_db net (Queue.proc_qpop_back L req net.geminidb)
  run Proc.info req net = Commands.proc_info L usage req net
  run Proc.version req net = Commands.proc_version L usage net
  run Proc.dbsize req net = Commands.proc_dbsize L usage net
  run Proc.ping req net = Commands.proc_ping L usage net
  run Proc.server_info req net = Commands.proc_server_info L usage net

  unfoldable pub start_job : Command Proc → Request → Server L.State → Option (Handled L.State)
  unfolding run
  start_job cmd req net =
      if cmd.flags.thread
      then some (if cmd.flags.write then to_writer cmd else to_reader cmd)
      else (run cmd.proc req net >>= λ r. some (answered r.0 r.1))

  -- `none` is a request without a first element, besides the faults of the commands.
  unfoldable pub proc : Request → Server L.State → Option (Handled L.State)
  unfolding start_job get_proc
  proc [] net = none
  proc (name ∷ req) net = elim (get_proc name net.proc_map) [
    | none ↦ some (answered (codes "client_error" ∷ (codes "Unknown Command: " ++ name) ∷ []) net)
    | some cmd ↦ start_job cmd (name ∷ req) net
  ]
