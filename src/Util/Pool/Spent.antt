-- ===== src/Util/Pool/Spent.antt =====
-- What a turn of a worker or of the reader of a pool spends.
use geminidb.Prelude.{
  ℕ, ◌+◌, ◌*◌, ◌≤◌, ◌<◌, ◌≡◌, refl, ap, Bool, true, false, [], ◌∷◌, length, length-append, arith,
}
use geminidb.Util.Pool.{Pool, Worker, idle, holding, finished, inserted, Turn, push, work, read}
use geminidb.Util.Pool.Moves.{Moves}
use geminidb.Util.Pool.Counts.{total, total-set, length-set}
use geminidb.Util.Pool.Steady.{one_if, MovedBy}

module _ {J : Type 0} where
  -- How many turns are left: those for a job of each worker, for a byte, and for the reader.
  unfoldable cost : Worker J → ℕ
  cost idle = 0
  cost (holding j) = 5
  cost (finished j) = 4
  cost inserted = 3

  unfoldable pub left : Pool J → ℕ
  unfolding cost
  left p = 6 * length p.jobs + total cost p.workers + 2 * p.bytes + one_if p.woken

  -- What a turn of a worker or of the reader spends and leaves.
  pub record Spent (p q : Pool J) : Type 0 where
    pub less : left q < left p
    pub staff : length q.workers ≡ length p.workers
    pub given : q.pushed ≡ p.pushed
    pub more : length p.popped ≤ length q.popped

  abbrev pub is_own : Turn J → Bool
  is_own (push j) = false
  is_own (work i) = true
  is_own read = true

  pub Moves-Spent : (room : ℕ) → Moves room (λ a p q. is_own a ≡ true → Spent p q)
  unfolding left cost
  Moves-Spent room = record {
    on_push = λ j p own. absurd (ground arith);
    on_pop = λ i p j js at e own.
        let moved : MovedBy cost p i idle (holding j) = total-set cost p.workers i _ _ at in
        record {
          less = omega (arith, moved, ap length e);
          staff = length-set p.workers i (holding j);
          given = refl;
          more = omega arith;
        };
    on_proc = λ i p j at own.
        let moved : MovedBy cost p i (holding j) (finished j) = total-set cost p.workers i _ _ at in
        record {
          less = omega (arith, moved);
          staff = length-set p.workers i (finished j);
          given = refl;
          more = omega arith;
        };
    on_insert = λ i p j at free own.
        let moved : MovedBy cost p i (finished j) inserted = total-set cost p.workers i _ _ at in
        record {
          less = omega (arith, moved);
          staff = length-set p.workers i inserted;
          given = refl;
          more = omega arith;
        };
    on_write = λ i p at lt own.
        let moved : MovedBy cost p i inserted idle = total-set cost p.workers i _ _ at in
        record {
          less = omega (arith, moved);
          staff = length-set p.workers i idle;
          given = refl;
          more = omega arith;
        };
    on_read = λ p n calm e own. record {
      less = ground (arith, calm, e);
      staff = refl;
      given = refl;
      more = omega arith;
    };
    on_none = λ p woken free e own. record {
      less = ground (arith, woken);
      staff = refl;
      given = refl;
      more = omega arith;
    };
    on_take = λ p j js woken free e own. record {
      less = ground (arith, woken);
      staff = refl;
      given = refl;
      more = omega (arith, length-append p.popped (j ∷ []));
    };
  }
