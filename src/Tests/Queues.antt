-- ===== src/Tests/Queues.antt =====
-- The properties of the queue and its commands, at the queue `jobs`.
use geminidb.Prelude.{◌+◌, ◌≡◌, ◌≢◌, refl, sym, ap, ◌∙◌, some, List, [], ◌∷◌, Octets, codes, arith}
use geminidb.Prelude.Int.{pos, minus_one}
use geminidb.Util.Number.{decimal, str_to_uint64}
use geminidb.Data.Keys.{qback_seq, qitem_seq_init}
use geminidb.Data.Binlog.{Geminidb}
use geminidb.Data.Queue.{
  error64, qpush, qpop, qpush_back, qpush_front, qpop_front, qpop_back, qsize,
}
use geminidb.Data.Queue.Change.{Done}
use geminidb.Data.Queue.Push.{pushes_back, qpush_back_appends, qpush_front_prepends}
use geminidb.Data.Queue.Pop.{qpop_front_takes, qpop_back_takes, pops_back}
use geminidb.Data.Queue.Errors.{qpush_failed, qpop_failed}
use geminidb.Data.Queue.Peek.{qsize_counts}
use geminidb.Serv.Queue.{proc_qpop, proc_qpush}
use geminidb.Serv.Queue.Items.{Holds, proc_qpop-takes, proc_qpush-appends}
use geminidb.Data.LevelDb.{memory}
use geminidb.Data.Binlog.Commit.{committed-result}
use geminidb.Tests.{full_disk, sure, sure-IsHealthy, jobs, run_tests, one_job, one_job-IsQueue}

qpush_back_appends_example :
    ((qpush_back sure jobs (codes "deploy") one_job).0 ≡ 1 + 1)
    × Done sure jobs one_job.ldb
        (run_tests ∷ codes "deploy" ∷ [])
        (qpush_back sure jobs (codes "deploy") one_job).1.ldb
qpush_back_appends_example =
    qpush_back_appends sure jobs (codes "deploy") one_job qitem_seq_init (run_tests ∷ [])
      (sure-IsHealthy one_job.ldb) one_job-IsQueue (omega arith)

qpush_front_prepends_example :
    ((qpush_front sure jobs (codes "build") one_job).0 ≡ 1 + 1)
    × Done sure jobs one_job.ldb
        (codes "build" ∷ run_tests ∷ [])
        (qpush_front sure jobs (codes "build") one_job).1.ldb
qpush_front_prepends_example =
    qpush_front_prepends sure jobs (codes "build") one_job qitem_seq_init (run_tests ∷ [])
      (sure-IsHealthy one_job.ldb) one_job-IsQueue (omega arith)

qpop_front_takes_example :
    ((qpop_front sure jobs one_job).0 ≡ (pos 1, some run_tests))
    × Done sure jobs one_job.ldb [] (qpop_front sure jobs one_job).1.ldb
qpop_front_takes_example =
    qpop_front_takes sure jobs run_tests one_job qitem_seq_init [] (sure-IsHealthy one_job.ldb)
      one_job-IsQueue

qpop_back_takes_example :
    ((qpop_back sure jobs one_job).0 ≡ (pos 1, some run_tests))
    × Done sure jobs one_job.ldb [] (qpop_back sure jobs one_job).1.ldb
qpop_back_takes_example =
    qpop_back_takes sure jobs run_tests one_job qitem_seq_init [] (sure-IsHealthy one_job.ldb)
      one_job-IsQueue

qsize_counts_example : qsize sure one_job.ldb jobs ≡ 1
qsize_counts_example =
    qsize_counts sure jobs qitem_seq_init one_job.ldb (run_tests ∷ []) (λ k. refl) one_job-IsQueue

five : str_to_uint64 (codes "5") ≡ 5
unfolding str_to_uint64
five = refl

proc_qpop-takes_example :
    (r : List Octets) × (h : Geminidb sure.State) × (proc_qpop sure
        (codes "qpop" ∷ jobs ∷ codes "5" ∷ [])
        one_job
      ≡ some (r, h))
    × (r ≡ codes "ok" ∷ run_tests ∷ [])
    × Holds sure h.ldb jobs []
proc_qpop-takes_example =
    proc_qpop-takes sure sure-IsHealthy jobs (codes "qpop") (codes "5") 5 qitem_seq_init
      (run_tests ∷ []) one_job five (omega arith) one_job-IsQueue

proc_qpush-appends_example :
    (h : Geminidb sure.State) × (proc_qpush sure
        (codes "qpush" ∷ jobs ∷ codes "deploy" ∷ [])
        one_job
      ≡ some (codes "ok" ∷ decimal (1 + 1) ∷ [], h))
    × Holds sure h.ldb jobs (run_tests ∷ codes "deploy" ∷ [])
proc_qpush-appends_example =
    proc_qpush-appends sure sure-IsHealthy jobs (codes "qpush") (codes "deploy") qitem_seq_init
      (run_tests ∷ []) one_job one_job-IsQueue (omega arith)

push_fails : (qpush memory jobs (codes "deploy") qback_seq full_disk).0 ≡ error64
unfolding qpush_back
push_fails =
    let c =
      pushes_back memory jobs (codes "deploy") full_disk (λ k. refl) qitem_seq_init (run_tests ∷ [])
        one_job-IsQueue (omega arith) in
    ap (λ r. r.0) c.does ∙ committed-result memory error64 2 full_disk c.batch.ops

qpush_failed_example :
    (qpush memory jobs (codes "deploy") qback_seq full_disk).1.ldb.cells ≡ one_job.ldb
qpush_failed_example = qpush_failed memory jobs (codes "deploy") qback_seq full_disk push_fails

pop_result : (qpop memory jobs qback_seq full_disk).0 ≡ (minus_one, some run_tests)
unfolding qpop_back
pop_result =
    let c =
      pops_back memory jobs full_disk (λ k. refl) qitem_seq_init run_tests [] one_job-IsQueue in
    ap (λ r. r.0) c.does
    ∙ committed-result memory (minus_one, some run_tests) (pos 1, some run_tests) full_disk
        c.batch.ops

pop_fails : (qpop memory jobs qback_seq full_disk).0.0 ≢ pos 1
pop_fails e = apart (sym (ap (λ r. r.0) pop_result) ∙ e)
  where
    apart : minus_one ≢ pos 1
    apart h = ground arith

qpop_failed_example : (qpop memory jobs qback_seq full_disk).1.ldb.cells ≡ one_job.ldb
qpop_failed_example = qpop_failed memory jobs qback_seq full_disk pop_fails
