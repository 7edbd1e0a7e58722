-- ===== src/Util/Pool/Steady.antt =====
-- What stays true of a worker pool, whatever the order of the turns.
use geminidb.Prelude.{
  ℕ, ◌+◌, ◌≡◌, refl, Bool, true, false, List, [], ◌∷◌, set, length, length-append, if◌then◌else◌,
  arith, ◌≤◌,
}
use geminidb.Util.Pool.{Pool, Worker, idle, holding, finished, inserted, Reach, create, start, init}
use geminidb.Util.Pool.Moves.{Moves, reach_keeps}
use geminidb.Util.Pool.Counts.{total, total-set, writing}

abbrev pub one_if : Bool → ℕ
one_if b = if b then 1 else 0

module _ {J : Type 0} where
  -- There is an item for every byte in the pipe, for a byte that was read, and for a byte that is not
  -- written yet; the lock is held by the worker that has still to write one.
  pub record Steady (room : ℕ) (p : Pool J) : Type 0 where
    pub matched : length p.items ≡ p.bytes + one_if p.woken + total writing p.workers
    pub held : total writing p.workers ≡ one_if p.locked
    pub fits : p.bytes ≤ room
    pub sound : p.errors ≡ 0

  -- A worker that moves takes its share of a sum with it.
  abbrev pub MovedBy : (Worker J → ℕ) → (p : Pool J) (i : ℕ) (w v : Worker J) → Type 0
  MovedBy f p i w v = total f (set p.workers i v) + f w ≡ total f p.workers + f v

  Moves-Steady : (room : ℕ) → Moves room (λ _ p q. Steady room p → Steady room q)
  unfolding writing
  Moves-Steady room = record {
    on_push =
        λ j p s. record { matched = s.matched; held = s.held; fits = s.fits; sound = s.sound };
    on_pop = λ i p j js at e s.
        let moved : MovedBy writing p i idle (holding j) = total-set writing p.workers i _ _ at in
        record {
          matched = omega (arith, s.matched, moved);
          held = omega (arith, s.held, moved);
          fits = s.fits;
          sound = s.sound;
        };
    on_proc = λ i p j at s.
        let moved : MovedBy writing p i (holding j) (finished j) =
          total-set writing p.workers i _ _ at in
        record {
          matched = omega (arith, s.matched, moved);
          held = omega (arith, s.held, moved);
          fits = s.fits;
          sound = s.sound;
        };
    on_insert = λ i p j at free s.
        let moved : MovedBy writing p i (finished j) inserted =
          total-set writing p.workers i _ _ at in
        record {
          matched = omega (arith, s.matched, moved, length-append p.items (j ∷ []));
          held = ground (arith, s.held, moved, free);
          fits = s.fits;
          sound = s.sound;
        };
    on_write = λ i p at lt s.
        let moved : MovedBy writing p i inserted idle = total-set writing p.workers i _ _ at in
        record {
          matched = omega (arith, s.matched, moved);
          held = ground (arith, s.held, moved);
          fits = omega arith;
          sound = s.sound;
        };
    on_read = λ p n calm e s. record {
      matched = ground (arith, s.matched, calm, e);
      held = s.held;
      fits = omega (arith, s.fits, e);
      sound = s.sound;
    };
    on_none = λ p woken free e s. absurd (ground (arith, s.matched, woken, e));
    on_take = λ p j js woken free e s. record {
      matched = ground (arith, s.matched, woken, e);
      held = s.held;
      fits = s.fits;
      sound = s.sound;
    };
  }

  create-idle : (f : Worker J → ℕ) (answers : List Bool) → f idle ≡ 0 → total f (create answers) ≡ 0
  unfolding create total
  create-idle f [] h = refl
  create-idle f (true ∷ answers) h = omega (arith, h, create-idle f answers h)
  create-idle f (false ∷ answers) h = create-idle f answers h

  -- The pool behind `start`, and that of any sum of its workers.
  abbrev pub opened : List Bool → Pool J
  opened answers = (start answers init).1

  pub opened-total :
      (f : Worker J → ℕ) (answers : List Bool) → f idle ≡ 0 → total f (opened answers).workers ≡ 0
  unfolding start
  opened-total f answers h = create-idle f answers h

  opened-Steady : (room : ℕ) (answers : List Bool) → Steady room (opened answers)
  unfolding start writing
  opened-Steady room answers = record {
    matched = omega (arith, create-idle writing answers refl);
    held = create-idle writing answers refl;
    fits = omega arith;
    sound = refl;
  }

  -- At every time the results of a pool are as many as the bytes in its pipe, a byte that was read,
  -- and a byte that a worker has still to write under the lock; so a reader that has read a byte
  -- has never found the results empty.
  pub Reach-Steady :
      (room : ℕ) (answers : List Bool) {q : Pool J} → Reach room (opened answers) q → Steady room q
  Reach-Steady room answers path =
      reach_keeps (Steady room) (Moves-Steady room) path (opened-Steady room answers)
