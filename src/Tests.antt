-- ===== src/Tests.antt =====
-- Concrete states, and the properties applied to them.
mod Queues
mod Pools
mod Turns
mod Answers
mod Selects
mod Rounds
mod Settings
mod Watches
mod Lookups
mod Packets
mod Numbers
use geminidb.Prelude.{◌≡◌, refl, true, none, Octets, codes, []}
use geminidb.Data.LevelDb.{LevelDb, Contents, WriteOp, apply_ops, read_of}
use geminidb.Data.Keys.{qitem_seq_init}
use geminidb.Data.Binlog
use geminidb.Data.Binlog.{Geminidb}
use geminidb.Data.Queue.View.{IsQueue, IsHealthy}
use geminidb.Data.Queue.Batch.{first_ops}
use geminidb.Data.Queue.Pushed.{first_ops-IsQueue}
use geminidb.Prelude.{inr, ◌∷◌, false}
use mathlib.Core.Bool.{true≢false}
use geminidb.Data.LevelDb.{Memory}

-- A database in memory, which never fails.
abbrev pub sure : LevelDb
sure = record {
  State = Contents;
  get = λ m k. read_of (m k);
  write = λ m ops. (true, apply_ops ops m);
  approximate_size = λ s a b. 7;
  property = λ s k. none;
  contents = λ m. m;
  get_reads = λ m k. inr refl;
  write_ok = λ m ops h. refl;
  write_failed = λ m ops h. absurd (true≢false h);
}

abbrev pub sure-IsHealthy : (m : Contents) → IsHealthy sure m
sure-IsHealthy m = record { reads = λ k. refl; writes = λ ops. refl }

abbrev pub jobs : Octets
jobs = codes "jobs"

abbrev pub run_tests : Octets
run_tests = codes "run the tests"

abbrev pub empty_db : Geminidb Contents
empty_db = record { ldb = λ k. none; binlogs = Binlog.init true 20000000 }

-- The queue `jobs` with one item.
abbrev pub one_job : Geminidb Contents
one_job = record {
  ldb = apply_ops (first_ops jobs run_tests) (λ k. none);
  binlogs = Binlog.init true 20000000;
}

abbrev pub one_job-IsQueue : IsQueue (one_job.ldb) jobs qitem_seq_init (run_tests ∷ [])
one_job-IsQueue = first_ops-IsQueue (λ k. none) jobs run_tests

abbrev pub empty_db-IsQueue : IsQueue (empty_db.ldb) jobs qitem_seq_init []
empty_db-IsQueue = record {
  size_is = refl;
  front_is = refl;
  back_is = refl;
  items_are = tt;
  in_range = tt;
}

-- The same contents behind a disk that takes no writes.
abbrev pub full_disk : Geminidb Memory
full_disk = record {
  ldb = record { cells = one_job.ldb; can_read = true; can_write = false };
  binlogs = Binlog.init true 20000000;
}
