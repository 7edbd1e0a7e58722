-- ===== src/Tests/Lookups.antt =====
-- The properties of the keys, of `set` and `del`, and of the command table, at concrete keys.
use geminidb.Prelude.{◌≡◌, ◌≢◌, refl, none, some, List, [], ◌∷◌, Octets, codes, octets_eq, arith}
use geminidb.Prelude.Int.{pos, minus_one}
use geminidb.Serv.Kv.{proc_multi_set}
use geminidb.Serv.Kv.Stored.{proc_multi_set-committed}
use geminidb.Data.LevelDb.{memory, Contents}
use geminidb.Data.Keys.{encode_qitem_key, decode_qitem_key, qitem_seq_init}
use geminidb.Data.Keys.Distinct.{encode_qitem_key_inj, decode_qitem_key-encode_qitem_key}
use geminidb.Data.Binlog.Commit.{committed}
use geminidb.Data.Kv.{get, set, del}
use geminidb.Data.Kv.Effects.{put_ops}
use geminidb.Data.Kv.Lookup.{get-set, get-del}
use geminidb.Net.Proc.{Command, get_proc, set_proc, add_flags, add_flag}
use geminidb.Net.Proc.Lookup.{Registered, get_proc-set_proc}
use geminidb.Serv.Loop.{count_call}
use geminidb.Serv.Commands.{Proc, Server, built_in, reg_procs, register}
use geminidb.Serv.Commands.Dispatch.{proc}
use geminidb.Serv.Commands.Dispatch.Readers.{uncounted, OnlyWriterWrites, proc-OnlyWriterWrites}
use geminidb.Tests.{sure, sure-IsHealthy, jobs, run_tests, one_job, full_disk}

encode_qitem_key_inj_example : (jobs ≡ jobs) × (qitem_seq_init ≡ qitem_seq_init)
encode_qitem_key_inj_example =
    encode_qitem_key_inj jobs jobs qitem_seq_init qitem_seq_init (omega arith) (omega arith) refl

decode_qitem_key-encode_qitem_key_example :
    decode_qitem_key (encode_qitem_key jobs qitem_seq_init) ≡ some (jobs, qitem_seq_init)
decode_qitem_key-encode_qitem_key_example =
    decode_qitem_key-encode_qitem_key jobs qitem_seq_init (omega arith) (omega arith)

get-set_example :
    ((set sure jobs run_tests one_job).0 ≡ pos 1)
    × (get sure (set sure jobs run_tests one_job).1.ldb jobs ≡ (pos 1, some run_tests))
    × ((other : Octets)
        → jobs ≢ other
        → get sure (set sure jobs run_tests one_job).1.ldb other ≡ get sure one_job.ldb other)
get-set_example =
    get-set sure one_job (sure-IsHealthy one_job.ldb) jobs run_tests (λ e. ground arith) (λ k. refl)

get-del_example :
    ((del sure jobs one_job).0 ≡ pos 1)
    × (get sure (del sure jobs one_job).1.ldb jobs ≡ (pos 0, none))
    × ((other : Octets)
        → jobs ≢ other
        → get sure (del sure jobs one_job).1.ldb other ≡ get sure one_job.ldb other)
get-del_example = get-del sure one_job (sure-IsHealthy one_job.ldb) jobs (λ k. refl)

abbrev pairs : List (Octets × Octets)
pairs = (codes "a", codes "1") ∷ (codes "b", codes "2") ∷ []

get_proc-set_proc_example :
    Registered
      (codes "wt")
      Proc.set
      (get_proc (codes "set") (set_proc (codes "set") (codes "wt") Proc.set []))
get_proc-set_proc_example = get_proc-set_proc (codes "set") (codes "wt") Proc.set []

abbrev server : Server Contents
server = record {
  geminidb = one_job;
  proc_map = count_call (codes "qsize") (count_call (codes "get") (reg_procs built_in));
  link_count = pos 3;
}

server-uncounted : uncounted server.proc_map ≡ reg_procs built_in
unfolding reg_procs register built_in set_proc add_flags add_flag octets_eq count_call
server-uncounted = refl

abbrev usage : Command Proc → Octets
usage cmd = codes "calls: 0"

proc-OnlyWriterWrites_example :
    OnlyWriterWrites sure usage
      (codes "get" ∷ jobs ∷ [])
      server
      (proc sure usage (codes "get" ∷ jobs ∷ []) server)
proc-OnlyWriterWrites_example =
    proc-OnlyWriterWrites sure usage (codes "get" ∷ jobs ∷ []) server server-uncounted

-- On a disk that takes no writes the client reads `ok` all the same.
proc_multi_set-committed_example :
    proc_multi_set memory
      (codes "multi_set" ∷ codes "a" ∷ codes "1" ∷ codes "b" ∷ codes "2" ∷ [])
      full_disk
    ≡ some (
      codes "ok" ∷ codes "-1" ∷ [],
      (committed memory minus_one (pos 2) full_disk (put_ops memory pairs)).1,
    )
proc_multi_set-committed_example =
    proc_multi_set-committed memory (codes "multi_set") pairs full_disk refl (omega arith)
