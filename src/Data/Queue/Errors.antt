-- ===== src/Data/Queue/Errors.antt =====
-- The failures of the queue operations of src/data/t_queue.cpp.
use geminidb.Prelude.{ℕ, ◌≡◌, refl, ◌≢◌, false, Option, Octets, ◌==◌, arith}
use geminidb.Prelude.Int.{ℤ, pos}
use geminidb.Data.LevelDb.{LevelDb}
use geminidb.Data.Binlog.{Geminidb}
use geminidb.Data.Binlog.Safe.{
  Keeps, Keeps-gets, IsSafe, IsSafe-bind, IsSafe-unless, IsSafe-commit, transaction-IsSafe,
}
use geminidb.Data.Queue.{
  error64, qset_one, qdel_one, incr_qsize, push_ends, push_body, pop_end, pop_body, qpush, qpop,
}

module _ (L : LevelDb) {R : Type 0} where
  qset_one-Keeps :
      (name : Octets) (seq : ℕ) (item : Octets) → Keeps (qset_one L {R = R} name seq item)
  unfolding qset_one
  qset_one-Keeps name seq item = record { at = λ g. refl }

  qdel_one-Keeps : (name : Octets) (seq : ℕ) → Keeps (qdel_one L {R = R} name seq)
  unfolding qdel_one
  qdel_one-Keeps name seq = record { at = λ g. refl }

  incr_qsize-Keeps : (name : Octets) (incr : ℕ → ℕ) → Keeps (incr_qsize L {R = R} name incr)
  unfolding incr_qsize
  incr_qsize-Keeps name incr = record { at = λ g. ground arith }

  pop_end-Keeps :
      (name : Octets) (end seq size : ℕ) (bad : R) → Keeps (pop_end L name end seq size bad)
  unfolding pop_end
  pop_end-Keeps name end seq size bad = record { at = λ g. ground arith }

push_ends-Keeps :
    (L : LevelDb) (name : Octets) (end : ℕ) (ret : ℤ) (seq : ℕ)
    → Keeps (push_ends L name end ret seq)
unfolding push_ends
push_ends-Keeps L name end ret seq = record { at = λ g. ground arith }

ruleset safe_rules = (Keeps-gets, IsSafe-bind, IsSafe-unless, IsSafe-commit)

-- the test of the size behind `incr_qsize`
not_error : (size : ℕ) → (size == error64) ≡ false → ¬ (size ≡ error64)
not_error size h e = ground arith

push_body-IsSafe :
    (L : LevelDb) (name item : Octets) (end : ℕ)
    → IsSafe L (λ r. r ≡ error64) (push_body L name item end)
unfolding push_body
push_body-IsSafe L name item end =
    search (safe_rules, push_ends-Keeps, qset_one-Keeps, incr_qsize-Keeps, not_error) depth 24

-- a pop that returns 1 is no failure
one_works : (item : Option Octets) → ¬ ((λ (r : ℤ × Option Octets). r.0 ≢ pos 1) (pos 1, item))
one_works item h = h refl

pop_body-IsSafe :
    (L : LevelDb) (name : Octets) (end : ℕ) → IsSafe L (λ r. r.0 ≢ pos 1) (pop_body L name end)
unfolding pop_body
pop_body-IsSafe L name end =
    search (safe_rules, pop_end-Keeps, qdel_one-Keeps, incr_qsize-Keeps, one_works) depth 30

-- A push that returns -1, for whatever reason, has left the contents of the database.
pub qpush_failed :
    (L : LevelDb) (name item : Octets) (end : ℕ) (g : Geminidb L.State)
    → (qpush L name item end g).0 ≡ error64
    → L.contents (qpush L name item end g).1.ldb ≡ L.contents g.ldb
unfolding qpush
qpush_failed L name item end g =
    transaction-IsSafe L (λ r. r ≡ error64) (push_body L name item end) g
      (push_body-IsSafe L name item end)

-- A pop that does not return 1 has left the contents of the database.
pub qpop_failed :
    (L : LevelDb) (name : Octets) (end : ℕ) (g : Geminidb L.State)
    → (qpop L name end g).0.0 ≢ pos 1
    → L.contents (qpop L name end g).1.ldb ≡ L.contents g.ldb
unfolding qpop
qpop_failed L name end g =
    transaction-IsSafe L (λ r. r.0 ≢ pos 1) (pop_body L name end) g (pop_body-IsSafe L name end)
