-- ===== src/Util/Pool.antt =====
-- `WorkerPool` of src/util/thread.h with its two queues, `Queue` and `SelectableQueue`. A turn is what
-- one thread does between two points at which others can come between: it takes a lock, or it reads or
-- writes the pipe. A turn without a result is a thread that waits; `Signals` adds the condition variable
-- of `Queue`, on which a worker without a job sleeps. Calls of pthread do not fail here, and
-- an interrupted read of the pipe is made again.
pub mod Counts
pub mod Moves
pub mod Steady
pub mod Kept
pub mod Fifo
pub mod Spent
pub mod Stuck
pub mod Signals
pub mod Alert
pub mod Progress
use geminidb.Prelude.{
  ℕ, zero, suc, ◌+◌, Bool, true, false, Option, none, some, List, [], ◌∷◌, ◌++◌, get_elem?, set,
  ltb, if◌then◌else◌, ◌≡◌,
}
use geminidb.Prelude.Int.{ℤ, pos}

-- Where a thread of `_run_worker` stands: before or in `jobs.pop`, with a job before `proc`, behind
-- `proc`, and in `results.push` between `items.push` and `write`, where it holds the lock.
pub data Worker (J : Type 0) : Type 0 where
  idle : Worker J
  holding : J → Worker J
  finished : J → Worker J
  inserted : Worker J

-- `bytes` are those in the pipe, and `woken` says that the reader has read one and not yet taken an
-- item. The last fields record the calls: the jobs that `push` was given, those that `proc` ran, those that
-- `pop` returned, and how often `pop` found a byte and no item.
pub record Pool (J : Type 0) : Type 0 where
  pub jobs : List J
  pub items : List J
  pub bytes : ℕ
  pub locked : Bool
  pub woken : Bool
  pub workers : List (Worker J)
  pub started : Bool
  pub pushed : List J
  pub ran : List J
  pub popped : List J
  pub errors : ℕ

pub data Turn (J : Type 0) : Type 0 where
  push : J → Turn J
  work : ℕ → Turn J
  read : Turn J

module _ {J : Type 0} where
  -- `WorkerPool::WorkerPool`.
  abbrev pub init : Pool J
  init = record {
    jobs = [];
    items = [];
    bytes = 0;
    locked = false;
    woken = false;
    workers = [];
    started = false;
    pushed = [];
    ran = [];
    popped = [];
    errors = 0;
  }

  -- The loop over the answers of `pthread_create`.
  unfoldable pub create : List Bool → List (Worker J)
  create [] = []
  create (true ∷ answers) = idle ∷ create answers
  create (false ∷ answers) = create answers

  unfoldable pub start : List Bool → Pool J → ℤ × Pool J
  unfolding create
  start answers p =
      if p.started
      then (pos 0, p)
      else (pos 0, record p { workers = create answers; started = true })

  -- `Queue::push`, which never waits.
  unfoldable pub push_job : J → Pool J → Option (Pool J)
  push_job j p = some (record p { jobs = p.jobs ++ j ∷ []; pushed = p.pushed ++ j ∷ [] })

  -- `Queue::pop` by the worker at `i`: it waits while there is no job.
  unfoldable pub pop_job : ℕ → List J → Pool J → Option (Pool J)
  pop_job i [] p = none
  pop_job i (j ∷ js) p = some (record p { jobs = js; workers = set p.workers i (holding j) })

  -- The first half of `SelectableQueue::push`, under the lock.
  unfoldable pub insert_item : ℕ → J → Pool J → Option (Pool J)
  insert_item i j p =
      if p.locked
      then none
      else some (record p {
        items = p.items ++ j ∷ [];
        locked = true;
        workers = set p.workers i inserted;
      })

  -- The other half: `write` waits while the pipe is full.
  unfoldable pub write_byte : ℕ → ℕ → Pool J → Option (Pool J)
  write_byte room i p =
      if ltb p.bytes room
      then some (record p { bytes = suc p.bytes; locked = false; workers = set p.workers i idle })
      else none

  -- The next turn of the loop of `_run_worker` in the worker at `i`.
  unfoldable pub run_worker : ℕ → ℕ → Option (Worker J) → Pool J → Option (Pool J)
  unfolding pop_job insert_item write_byte
  run_worker room i none p = none
  run_worker room i (some idle) p = pop_job i p.jobs p
  run_worker room i (some (holding j)) p =
      some (record p { ran = p.ran ++ j ∷ []; workers = set p.workers i (finished j) })
  run_worker room i (some (finished j)) p = insert_item i j p
  run_worker room i (some inserted) p = write_byte room i p

  -- `SelectableQueue::pop` behind its `read`, under the lock.
  unfoldable pub take_item : List J → Pool J → Pool J
  take_item [] p = record p { woken = false; errors = suc p.errors }
  take_item (j ∷ js) p = record p { items = js; woken = false; popped = p.popped ++ j ∷ [] }

  -- `SelectableQueue::pop`: `read` waits while the pipe is empty.
  unfoldable pub read_byte : ℕ → Pool J → Option (Pool J)
  read_byte zero p = none
  read_byte (suc n) p = some (record p { bytes = n; woken = true })

  unfoldable pub pop_result : Pool J → Option (Pool J)
  unfolding take_item read_byte
  pop_result p =
      if p.woken then if p.locked then none else some (take_item p.items p) else read_byte p.bytes p

  -- The turns, for a pipe with room for `room` bytes.
  unfoldable pub turn : ℕ → Turn J → Pool J → Option (Pool J)
  unfolding push_job run_worker pop_result
  turn room (push j) p = push_job j p
  turn room (work i) p = run_worker room i (get_elem? p.workers i) p
  turn room read p = pop_result p

-- The pools that the threads can reach from a fresh one, in any order of their turns.
pub data Reach {J : Type 0} (room : ℕ) (p : Pool J) : Pool J → Type 0 where
  fresh : Reach room p p
  next :
      {q : Pool J} (a : Turn J) (r : Pool J)
      → Reach room p q
      → turn room a q ≡ some r
      → Reach room p r
