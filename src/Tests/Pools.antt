-- ===== src/Tests/Pools.antt =====
-- The properties of the worker pool, at a pool with one worker and a few turns.
use geminidb.Prelude.{
  ℕ, ◌+◌, ◌≡◌, refl, ◌<◌, ◌≤◌, Bool, true, some, List, [], ◌∷◌, length, arith, ◌==◌,
}
use geminidb.Util.Pool.{Pool, Turn, push, work, read, turn, Reach, fresh, next, start}
use geminidb.Util.Pool.Steady.{Steady, Reach-Steady, opened}
use geminidb.Util.Pool.Kept.{Kept, Reach-Kept}
use geminidb.Util.Pool.Fifo.{Runs, fresh_serial, view, Reach-Runs}
use geminidb.Util.Pool.Signals.{
  Signalled, SignalTurn, pushes, signals_to, works, awake_from, signal_turn, SignalReach, at_start,
  and_then,
}
use geminidb.Util.Pool.Progress.{Delivers, Reach-Delivers}

abbrev one_thread : List Bool
one_thread = true ∷ []

abbrev is_seven : ℕ → Bool
is_seven j = j == 7

abbrev turns : List (Turn ℕ)
turns = push 7 ∷ push 9 ∷ work 0 ∷ work 0 ∷ work 0 ∷ work 0 ∷ work 0 ∷ read ∷ read ∷ []

-- The pool behind turns that can all be taken.
abbrev behind : List (Turn ℕ) → Pool ℕ → Pool ℕ
behind [] p = p
behind (a ∷ then) p = elim (turn 2 a p) [ some q ↦ behind then q | _ ↦ p ]

abbrev busy : Pool ℕ
busy = behind turns (opened one_thread)

busy_reached : Reach 2 (opened one_thread) busy
unfolding turn start
busy_reached =
    next read _
      (next read _
        (next (work 0) _
          (next (work 0) _
            (next (work 0) _
              (next (work 0) _
                (next (work 0) _ (next (push 9) _ (next (push 7) _ fresh refl) refl) refl) refl)
              refl)
            refl)
          refl)
        refl)
      refl

Reach-Steady_example : Steady 2 busy
Reach-Steady_example = Reach-Steady 2 one_thread busy_reached

Reach-Kept_example : Kept is_seven busy
Reach-Kept_example = Reach-Kept is_seven 2 one_thread busy_reached

one : length (opened {J = ℕ} one_thread).workers ≡ 1
unfolding start
one = refl

Reach-Runs_example : Runs fresh_serial (view busy)
Reach-Runs_example = Reach-Runs 2 one_thread one busy_reached

-- A worker sleeps, and two jobs come; the signal of the first wakes it, and that of the second is still
-- to come.
abbrev signal_turns : List (SignalTurn ℕ)
signal_turns = works 0 ∷ pushes 7 ∷ pushes 9 ∷ signals_to 0 ∷ works 0 ∷ works 0 ∷ works 0 ∷ []

abbrev then_turns : List (SignalTurn ℕ) → Signalled ℕ → Signalled ℕ
then_turns [] s = s
then_turns (a ∷ then) s = elim (signal_turn 2 a s) [ some t ↦ then_turns then t | _ ↦ s ]

abbrev woken_up : Signalled ℕ
woken_up = then_turns signal_turns (awake_from one_thread)

woken_up_reached : SignalReach 2 (awake_from one_thread) woken_up
unfolding signal_turn start turn
woken_up_reached =
    and_then (works 0) _
      (and_then (works 0) _
        (and_then (works 0) _
          (and_then (signals_to 0) _
            (and_then (pushes 9) _ (and_then (pushes 7) _ (and_then (works 0) _ at_start refl) refl)
              refl)
            refl)
          refl)
        refl)
      refl

some_worker : 0 < length (opened {J = ℕ} one_thread).workers
unfolding start
some_worker = omega arith

few : length woken_up.pool.pushed ≤ length woken_up.pool.popped + 2
unfolding start signal_turn turn
few = omega arith

Reach-Delivers_example : Delivers 2 woken_up
Reach-Delivers_example = Reach-Delivers 2 one_thread woken_up_reached some_worker few
