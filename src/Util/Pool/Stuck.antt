-- ===== src/Util/Pool/Stuck.antt =====
-- Where a worker pool can be stuck.
use geminidb.Prelude.{
  ℕ, ◌+◌, ◌≤◌, ◌≡◌, ◌≢◌, refl, subst, ◌⊎◌, inl, inr, true, false, Bool-cases, none, some, get_elem?,
  length, arith,
}
use geminidb.Util.Pool.{
  Pool, Worker, idle, holding, finished, inserted, work, read, turn, run_worker, insert_item,
  write_byte, pop_result, read_byte,
}
use geminidb.Util.Pool.Counts.{
  total, total-set, total_zero, writing, writing_there, carried, count_all,
}
use geminidb.Util.Pool.Steady.{Steady, MovedBy}
use geminidb.Util.Pool.Kept.{Kept}

module _ {J : Type 0} where
  -- Neither the reader nor a worker can move, but for workers that wait in `pop`.
  abbrev pub Stuck : ℕ → Pool J → Type 0
  Stuck room p =
      ((i : ℕ) (v : Worker J)
        → get_elem? p.workers i ≡ some v
        → (v ≡ idle) ⊎ (turn room (work i) p ≡ none))
      × (turn room read p ≡ none)

  blocked :
      (room i : ℕ) (p : Pool J) (w : Worker J)
      → get_elem? p.workers i ≡ some w
      → turn room (work i) p ≡ none
      → run_worker room i (some w) p ≡ none
  unfolding turn
  blocked room i p w at h = subst (λ o. run_worker room i o p ≡ none) at h

  blocked_writer :
      (room i : ℕ) (p : Pool J) → run_worker room i (some inserted) p ≡ none → room ≤ p.bytes
  unfolding run_worker write_byte
  blocked_writer room i p h = ground arith

  -- A worker that cannot move while the lock is free waits for a job.
  waits :
      (room i : ℕ) (p : Pool J) (w : Worker J)
      → run_worker room i (some w) p ≡ none
      → p.locked ≡ false
      → (w ≡ idle) ⊎ (w ≡ inserted)
  unfolding run_worker insert_item
  waits room i p idle h free = inl refl
  waits room i p (holding j) h free = absurd (ground arith)
  waits room i p (finished j) h free = absurd (ground arith)
  waits room i p inserted h free = inr refl

  reader_waits :
      (room : ℕ) (p : Pool J)
      → turn room read p ≡ none
      → p.locked ≡ false
      → (p.woken ≡ false) × (p.bytes ≡ 0)
  unfolding turn pop_result read_byte
  reader_waits room p h free = ground arith

  stands : {A : Type 0} (v : Worker J) → v ≡ inserted → (v ≡ idle) ⊎ A → A
  stands v is (inl e) = absurd (ground (arith, is, e))
  stands v is (inr a) = a

  -- With no more jobs on the way than the pipe has room for, its writer is not blocked.
  Stuck-unlocked :
      (room : ℕ) (p : Pool J)
      → Stuck room p
      → Steady room p
      → Kept (λ _. true) p
      → length p.pushed ≤ length p.popped + room
      → p.locked ≡ false
  Stuck-unlocked room p (w, r) s k few = elim (Bool-cases p.locked) [
    | inr free ↦ free
    | inl locked ↦
        let one : total writing p.workers ≡ 1 = ground (arith, s.held, locked) in
        let (i, at) = writing_there p.workers one in
        let full : room ≤ p.bytes =
          blocked_writer room i p
            (blocked room i p inserted at (stands inserted refl (w i inserted at))) in
        absurd (
          omega (
            arith,
            full,
            one,
            s.matched,
            k.placed,
            few,
            count_all p.pushed,
            count_all p.popped,
            count_all p.items,
          ))
  ]

  one_more : (p : Pool J) (i : ℕ) → MovedBy writing p i inserted idle → total writing p.workers ≢ 0
  unfolding writing
  one_more p i moved h = omega (arith, moved, h)

  all_idle :
      (room : ℕ) (p : Pool J)
      → Stuck room p
      → Steady room p
      → p.locked ≡ false
      → (i : ℕ) (v : Worker J) → get_elem? p.workers i ≡ some v
      → v ≡ idle
  all_idle room p (w, r) s free i v at = elim (w i v at) [
    | inl e ↦ e
    | inr stops ↦ elim (waits room i p v (blocked room i p v at stops) free) [
      | inl e ↦ e
      | inr e ↦
          let moved : MovedBy writing p i inserted idle =
            total-set writing p.workers i inserted idle
              (subst (λ u. get_elem? p.workers i ≡ some u) e at) in
          absurd (one_more p i moved (ground (arith, s.held, free)))
    ]
  ]

  -- Every worker waits for a job.
  pub Stuck-idle :
      (room : ℕ) (p : Pool J)
      → Stuck room p
      → Steady room p
      → Kept (λ _. true) p
      → length p.pushed ≤ length p.popped + room
      → (i : ℕ) (v : Worker J) → get_elem? p.workers i ≡ some v
      → v ≡ idle
  Stuck-idle room p stuck s k few = all_idle room p stuck s (Stuck-unlocked room p stuck s k few)

  -- All jobs have been delivered, if none is left in the queue.
  pub Stuck-delivered :
      (room : ℕ) (p : Pool J)
      → Stuck room p
      → Steady room p
      → Kept (λ _. true) p
      → length p.jobs ≡ 0
      → length p.pushed ≤ length p.popped + room
      → length p.popped ≡ length p.pushed
  unfolding carried
  Stuck-delivered room p (w, r) s k none_queued few =
      let free = Stuck-unlocked room p (w, r) s k few in
      let (calm, empty) = reader_waits room p r free in
      let none_carried : total (carried (λ _. true)) p.workers ≡ 0 =
        total_zero (carried (λ _. true)) p.workers
          (λ i v at. rw (all_idle room p (w, r) s free i v at) refl) in
      let none_ready : length p.items ≡ 0 = ground (arith, s.matched, s.held, free, calm, empty) in
      omega (
        arith,
        k.placed,
        none_carried,
        none_queued,
        none_ready,
        count_all p.pushed,
        count_all p.popped,
        count_all p.items,
        count_all p.jobs,
      )
