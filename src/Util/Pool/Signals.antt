-- ===== src/Util/Pool/Signals.antt =====
-- The condition variable of `Queue` in src/util/thread.h, over the turns of the pool: `push` signals behind
-- its lock, and a worker that finds no job in `pop` sleeps in `pthread_cond_wait` until it is woken.
pub mod Below
use geminidb.Prelude.{
  ℕ, zero, suc, Bool, true, false, not, ◌&&◌, Option, none, some, ◌>>=◌, List, [], ◌∷◌, length,
  get_elem?, ◌==◌, if◌then◌else◌, ◌≡◌,
}
use geminidb.Util.Pool.{Pool, Worker, idle, holding, finished, inserted, turn, work, read, push_job}
use geminidb.Util.Pool.Steady.{opened}

-- `signals` counts the calls of `push` that have unlocked and not yet signalled.
pub record Signalled (J : Type 0) : Type 0 where
  pub pool : Pool J
  pub asleep : ℕ → Bool
  pub signals : ℕ

-- A signal wakes the sleeping worker that the system chooses, and `wakes` is a wake-up without a signal.
pub data SignalTurn (J : Type 0) : Type 0 where
  pushes : J → SignalTurn J
  signals_to : ℕ → SignalTurn J
  wakes : ℕ → SignalTurn J
  works : ℕ → SignalTurn J
  reads : SignalTurn J

abbrev pub all_awake : ℕ → (ℕ → Bool) → Bool
all_awake zero asleep = true
all_awake (suc n) asleep = not (asleep n) && all_awake n asleep

abbrev pub put : ℕ → Bool → (ℕ → Bool) → ℕ → Bool
put i b asleep k = if k == i then b else asleep k

-- The test of the loop of `pop`, by a worker that is there.
abbrev pub must_wait : {J : Type 0} → Option (Worker J) → List J → Bool
must_wait (some idle) [] = true
must_wait (some idle) (j ∷ js) = false
must_wait (some (holding j)) js = false
must_wait (some (finished j)) js = false
must_wait (some inserted) js = false
must_wait none js = false

module _ {J : Type 0} where
  -- The workers that `start` has created, all awake.
  abbrev pub awake_from : List Bool → Signalled J
  awake_from answers = record { pool = opened answers; asleep = λ i. false; signals = 0 }

  -- `pthread_cond_signal`: one sleeping worker wakes; where none sleeps, it has no effect.
  unfoldable pub cond_signal : ℕ → ℕ → Signalled J → Option (Signalled J)
  cond_signal i zero s = none
  cond_signal i (suc n) s =
      if s.asleep i
      then some (record s { asleep = put i false s.asleep; signals = n })
      else if all_awake (length s.pool.workers) s.asleep
      then some (record s { signals = n })
      else none

  -- `pthread_cond_wait` or the turn of the worker.
  unfoldable pub wait_or_work : ℕ → ℕ → Signalled J → Option (Signalled J)
  wait_or_work room i s =
      if must_wait (get_elem? s.pool.workers i) s.pool.jobs
      then some (record s { asleep = put i true s.asleep })
      else (turn room (work i) s.pool >>= λ p. some (record s { pool = p }))

  unfoldable pub signal_turn : ℕ → SignalTurn J → Signalled J → Option (Signalled J)
  unfolding cond_signal wait_or_work push_job
  signal_turn room (pushes j) s =
      push_job j s.pool >>= λ p. some (record s { pool = p; signals = suc s.signals })
  signal_turn room (signals_to i) s = cond_signal i s.signals s
  signal_turn room (wakes i) s = some (record s { asleep = put i false s.asleep })
  signal_turn room (works i) s = if s.asleep i then none else wait_or_work room i s
  signal_turn room reads s = turn room read s.pool >>= λ p. some (record s { pool = p })

-- What the threads can reach from a fresh pool, in any order of their turns.
pub data SignalReach {J : Type 0} (room : ℕ) (s : Signalled J) : Signalled J → Type 0 where
  at_start : SignalReach room s s
  and_then :
      {t : Signalled J} (a : SignalTurn J) (r : Signalled J)
      → SignalReach room s t
      → signal_turn room a t ≡ some r
      → SignalReach room s r
