-- ===== src/Util/Pool/Signals/Below.antt =====
-- The turns with signals are turns of the pool below.
use geminidb.Prelude.{
  ℕ, zero, suc, refl, subst, inl, inr, Bool, true, false, Option, none, some, Option-cases, ◌>>=◌,
  List, get_elem?, length, if◌then◌else◌,
}
use geminidb.Util.Pool.{Pool, Turn, push, work, read, turn, push_job, Reach, fresh, next}
use geminidb.Util.Pool.Steady.{opened}
use geminidb.Util.Pool.Signals.{
  Signalled, SignalTurn, pushes, signals_to, wakes, works, reads, all_awake, put, must_wait,
  awake_from, cond_signal, wait_or_work, signal_turn, SignalReach, at_start, and_then,
}

module _ {J : Type 0} where
  -- The pool below is one that the turns of the pool reach.
  abbrev Below : ℕ → Pool J → Option (Signalled J) → Type 0
  Below room p none = Unit
  Below room p (some s) = Reach room p s.pool

  one_of :
      (room : ℕ) (p : Pool J) (b : Bool) (o o' : Option (Signalled J))
      → Below room p o
      → Below room p o'
      → Below room p (if b then o else o')
  one_of room p true o o' h h' = h
  one_of room p false o o' h h' = h'

  moved :
      (room : ℕ) (p : Pool J) (a : Turn J) (s : Signalled J)
      → Reach room p s.pool
      → Below room p (turn room a s.pool >>= λ q. some (record s { pool = q }))
  moved room p a s path = elim (Option-cases (turn room a s.pool)) [
    | inl e ↦ rw e tt
    | inr (q, e) ↦ rw e (next a q path e)
  ]

  signalled :
      (room : ℕ) (p : Pool J) (i m : ℕ) (s : Signalled J)
      → Reach room p s.pool
      → Below room p (cond_signal i m s)
  unfolding cond_signal
  signalled room p i zero s path = tt
  signalled room p i (suc m) s path =
      let lost : Option (Signalled J) = some (record s { signals = m }) in
      one_of room p (s.asleep i) (some (record s { asleep = put i false s.asleep; signals = m }))
        (if all_awake (length s.pool.workers) s.asleep then lost else none) path
        (one_of room p (all_awake (length s.pool.workers) s.asleep) lost none path tt)

  signal_turn-Below :
      (room : ℕ) (p : Pool J) (a : SignalTurn J) (s : Signalled J)
      → Reach room p s.pool
      → Below room p (signal_turn room a s)
  unfolding signal_turn wait_or_work push_job turn
  signal_turn-Below room p (pushes j) s path = next (push j) _ path refl
  signal_turn-Below room p (signals_to i) s path = signalled room p i s.signals s path
  signal_turn-Below room p (wakes i) s path = path
  signal_turn-Below room p (works i) s path =
      let waits = must_wait (get_elem? s.pool.workers i) s.pool.jobs in
      let slept : Option (Signalled J) = some (record s { asleep = put i true s.asleep }) in
      let worked = turn room (work i) s.pool >>= λ q. some (record s { pool = q }) in
      one_of room p (s.asleep i) none (if waits then slept else worked) tt
        (one_of room p waits slept worked path (moved room p (work i) s path))
  signal_turn-Below room p reads s path = moved room p read s path

  pub SignalReach-Reach :
      (room : ℕ) (answers : List Bool) {s : Signalled J}
      → SignalReach room (awake_from answers) s
      → Reach room (opened answers) s.pool
  SignalReach-Reach room answers at_start = fresh
  SignalReach-Reach room answers (and_then {t} a r path e) =
      subst (Below room (opened answers)) e
        (signal_turn-Below room (opened answers) a t (SignalReach-Reach room answers path))
