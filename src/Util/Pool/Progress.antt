-- ===== src/Util/Pool/Progress.antt =====
-- What a worker pool brings to its end: the jobs it was given are delivered, whatever the order of the
-- turns, with the signals that wake its workers.
pub mod Effort
pub mod Rest
use geminidb.Prelude.{
  ℕ, zero, suc, ◌+◌, ◌≤◌, ◌<◌, ◌≡◌, ap, inl, inr, Bool, true, List, [], length, arith,
}
use geminidb.Util.Pool.Steady.{Reach-Steady, opened}
use geminidb.Util.Pool.Kept.{Reach-Kept}
use geminidb.Util.Pool.Stuck.{Stuck-idle, Stuck-delivered}
use geminidb.Util.Pool.Signals.{Signalled, awake_from, SignalReach, and_then}
use geminidb.Util.Pool.Signals.Below.{SignalReach-Reach}
use geminidb.Util.Pool.Alert.{Alert, SignalReach-Alert}
use geminidb.Util.Pool.Progress.Effort.{Own, effort, Own-Spent}
use geminidb.Util.Pool.Progress.Rest.{AtRest, moves_or_rests, AtRest-Stuck, AtRest-no_jobs}

module _ {J : Type 0} where
  -- Whatever turns the workers and the reader take, and whomever the signals wake, in a while all the jobs
  -- are delivered: they are, or some turn can be taken, and behind every turn it is so.
  pub data Delivers (room : ℕ) : Signalled J → Type 0 where
    delivered : {s : Signalled J} → length s.pool.popped ≡ length s.pool.pushed → Delivers room s
    going :
        {s : Signalled J} (t : Signalled J)
        → Own room s t
        → ((r : Signalled J) → Own room s r → Delivers room r)
        → Delivers room s

  rest :
      (room : ℕ) (answers : List Bool) {s : Signalled J}
      → SignalReach room (awake_from answers) s
      → 0 < length (opened {J = J} answers).workers
      → AtRest room s
      → length s.pool.pushed ≤ length s.pool.popped + room
      → Delivers room s
  rest room answers {s} path some_worker r few =
      let n = length (opened {J = J} answers).workers in
      let a : Alert n s = SignalReach-Alert room answers some_worker path in
      let below = SignalReach-Reach room answers path in
      let steady = Reach-Steady room answers below in
      let kept = Reach-Kept (λ _. true) room answers below in
      let stuck = AtRest-Stuck room n s a r in
      let none_left : s.pool.jobs ≡ [] =
        AtRest-no_jobs room n s a r (Stuck-idle room s.pool stuck steady kept few) in
      delivered (Stuck-delivered room s.pool stuck steady kept (ap length none_left) few)

  delivers :
      (room : ℕ) (answers : List Bool) (m : ℕ) {s : Signalled J}
      → effort (length (opened {J = J} answers).workers) s ≤ m
      → SignalReach room (awake_from answers) s
      → 0 < length (opened {J = J} answers).workers
      → length s.pool.pushed ≤ length s.pool.popped + room
      → Delivers room s
  delivers room answers zero {s} small path some_worker few = elim (moves_or_rests room s) [
    | inl (t, o) ↦
        let n = length (opened {J = J} answers).workers in
        let a : Alert n s = SignalReach-Alert room answers some_worker path in
        absurd (omega (arith, small, (Own-Spent room n a o).less))
    | inr r ↦ rest room answers path some_worker r few
  ]
  delivers room answers (suc m) {s} small path some_worker few = elim (moves_or_rests room s) [
    | inr r ↦ rest room answers path some_worker r few
    | inl (t, o) ↦
        let n = length (opened {J = J} answers).workers in
        let a : Alert n s = SignalReach-Alert room answers some_worker path in
        going t o (λ r o'.
          let e = Own-Spent room n a o' in
          delivers room answers m (omega (arith, small, e.less)) (and_then o'.by r path o'.made)
            some_worker (omega (arith, few, e.more, ap length e.given)))
  ]

  -- In a pool that was started with a worker, with no more jobs on the way than the pipe has room
  -- for bytes, all the jobs are delivered in a while, whatever turns the workers and the reader
  -- take and whichever sleeping worker a signal wakes: as long as they are not, some thread can
  -- take a turn or give a signal, also where workers sleep on the condition variable.
  pub Reach-Delivers :
      (room : ℕ) (answers : List Bool) {s : Signalled J}
      → SignalReach room (awake_from answers) s
      → 0 < length (opened {J = J} answers).workers
      → length s.pool.pushed ≤ length s.pool.popped + room
      → Delivers room s
  Reach-Delivers room answers {s} =
      delivers room answers (effort (length (opened {J = J} answers).workers) s) (omega arith)
