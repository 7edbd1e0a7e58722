-- ===== src/Util/Pool/Kept.antt =====
-- Where the jobs of a worker pool are, and which of them have run.
use geminidb.Prelude.{ℕ, ◌+◌, ◌≡◌, refl, ap, Bool, some, List, [], ◌∷◌, get_elem?, arith}
use geminidb.Util.Pool.{Pool, Worker, idle, holding, finished, inserted, Reach, start}
use geminidb.Util.Pool.Moves.{Moves, reach_keeps}
use geminidb.Util.Pool.Counts.{total, total-set, count, count-append, carried, unrun}
use geminidb.Util.Pool.Steady.{MovedBy, opened, opened-total}

module _ {J : Type 0} where
  -- Every job that passes the test is in one place, and has run if it is behind `proc`.
  pub record Kept (t : J → Bool) (p : Pool J) : Type 0 where
    pub placed :
        count t p.pushed
        ≡ count t p.popped + count t p.items + total (carried t) p.workers + count t p.jobs
    pub once : count t p.pushed ≡ count t p.ran + total (unrun t) p.workers + count t p.jobs

  -- The sums of the jobs on the way and of those before `proc`, when the worker at `i` moves.
  shares :
      (t : J → Bool) (p : Pool J) (i : ℕ) (w v : Worker J)
      → get_elem? p.workers i ≡ some w
      → MovedBy (carried t) p i w v × MovedBy (unrun t) p i w v
  shares t p i w v at =
      (total-set (carried t) p.workers i w v at, total-set (unrun t) p.workers i w v at)

  Moves-Kept : (room : ℕ) (t : J → Bool) → Moves room (λ _ p q. Kept t p → Kept t q)
  unfolding carried unrun
  Moves-Kept room t = record {
    on_push = λ j p k.
        let said = count-append t p.pushed (j ∷ []) in
        let queued = count-append t p.jobs (j ∷ []) in
        record {
          placed = omega (arith, k.placed, said, queued);
          once = omega (arith, k.once, said, queued);
        };
    on_pop = λ i p j js at e k.
        let all : count t p.jobs ≡ count t (j ∷ js) = ap (count t) e in
        let first : count t (j ∷ js) ≡ count t (j ∷ []) + count t js = count-append t (j ∷ []) js in
        let (there, ahead) = shares t p i idle (holding j) at in
        record {
          placed = omega (arith, k.placed, all, first, there);
          once = omega (arith, k.once, all, first, ahead);
        };
    on_proc = λ i p j at k.
        let ran = count-append t p.ran (j ∷ []) in
        let (there, ahead) = shares t p i (holding j) (finished j) at in
        record {
          placed = omega (arith, k.placed, there);
          once = omega (arith, k.once, ran, ahead);
        };
    on_insert = λ i p j at free k.
        let put = count-append t p.items (j ∷ []) in
        let (there, ahead) = shares t p i (finished j) inserted at in
        record {
          placed = omega (arith, k.placed, put, there);
          once = omega (arith, k.once, ahead);
        };
    on_write = λ i p at lt k.
        let (there, ahead) = shares t p i inserted idle at in
        record { placed = omega (arith, k.placed, there); once = omega (arith, k.once, ahead) };
    on_read = λ p n calm e k. record { placed = k.placed; once = k.once };
    on_none = λ p woken free e k. record { placed = k.placed; once = k.once };
    on_take = λ p j js woken free e k.
        let all : count t p.items ≡ count t (j ∷ js) = ap (count t) e in
        let first : count t (j ∷ js) ≡ count t (j ∷ []) + count t js = count-append t (j ∷ []) js in
        let given = count-append t p.popped (j ∷ []) in
        record { placed = omega (arith, k.placed, all, first, given); once = k.once };
  }

  opened-Kept : (t : J → Bool) (answers : List Bool) → Kept t (opened answers)
  unfolding start carried unrun count
  opened-Kept t answers = record {
    placed = omega (arith, opened-total (carried t) answers refl);
    once = omega (arith, opened-total (unrun t) answers refl);
  }

  -- A pool loses no job and doubles none: at every time, of the jobs that pass any test, as many
  -- were pushed as were given back, stand behind `proc`, are with a worker or wait, and as many as
  -- ran or are before `proc`.
  pub Reach-Kept :
      (t : J → Bool) (room : ℕ) (answers : List Bool) {q : Pool J}
      → Reach room (opened answers) q
      → Kept t q
  Reach-Kept t room answers path =
      reach_keeps (Kept t) (Moves-Kept room t) path (opened-Kept t answers)
