-- ===== src/Util/Pool/Fifo.antt =====
-- A pool with one worker, such as the server's pool of writers, seen as a serial machine.
use geminidb.Prelude.{
  ℕ, zero, suc, ◌≡◌, refl, sym, subst, ◌⊎◌, inl, inr, Bool, true, false, some, List, [], ◌∷◌, ◌++◌,
  append_assoc, append-nil, get_elem?, length, arith,
}
use geminidb.Util.Pool.{
  Pool, Worker, idle, holding, finished, inserted, Turn, Reach, fresh, next, create, start,
}
use geminidb.Util.Pool.Moves.{Moves, turn_related}
use geminidb.Util.Pool.Counts.{length-set}
use geminidb.Util.Pool.Steady.{opened}

-- The machine that a client of the pool may rely on: it runs the jobs one after the other, in the order
-- in which it was given them, and gives them back in that order.
pub record Serial (J : Type 0) : Type 0 where
  pub asked : List J
  pub waiting : List J
  pub ready : List J
  pub ran : List J
  pub served : List J

abbrev pub fresh_serial : {J : Type 0} → Serial J
fresh_serial = record { asked = []; waiting = []; ready = []; ran = []; served = [] }

pub data Serves {J : Type 0} (s t : Serial J) : Type 0 where
  ask :
      (j : J)
      → t ≡ record s { asked = s.asked ++ j ∷ []; waiting = s.waiting ++ j ∷ [] }
      → Serves s t
  serve :
      (j : J) (js : List J)
      → s.waiting ≡ j ∷ js
      → t ≡ record s { waiting = js; ready = s.ready ++ j ∷ []; ran = s.ran ++ j ∷ [] }
      → Serves s t
  hand :
      (j : J) (js : List J)
      → s.ready ≡ j ∷ js
      → t ≡ record s { ready = js; served = s.served ++ j ∷ [] }
      → Serves s t

pub data Runs {J : Type 0} (s : Serial J) : Serial J → Type 0 where
  started : Runs s s
  then : {t u : Serial J} → Runs s t → Serves t u → Runs s u

module _ {J : Type 0} where
  -- The jobs of the workers before and behind `proc`.
  unfoldable pub before_proc : List (Worker J) → List J
  before_proc [] = []
  before_proc (holding j ∷ ws) = j ∷ before_proc ws
  before_proc (idle ∷ ws) = before_proc ws
  before_proc (finished j ∷ ws) = before_proc ws
  before_proc (inserted ∷ ws) = before_proc ws

  unfoldable pub behind_proc : List (Worker J) → List J
  behind_proc [] = []
  behind_proc (finished j ∷ ws) = j ∷ behind_proc ws
  behind_proc (idle ∷ ws) = behind_proc ws
  behind_proc (holding j ∷ ws) = behind_proc ws
  behind_proc (inserted ∷ ws) = behind_proc ws

  unfoldable pub view : Pool J → Serial J
  unfolding before_proc behind_proc
  view p = record {
    asked = p.pushed;
    waiting = before_proc p.workers ++ p.jobs;
    ready = p.items ++ behind_proc p.workers;
    ran = p.ran;
    served = p.popped;
  }

  only :
      (ws : List (Worker J)) (i : ℕ) (w : Worker J)
      → length ws ≡ 1
      → get_elem? ws i ≡ some w
      → (ws ≡ w ∷ []) × (i ≡ 0)
  only [] i w one at = absurd (omega arith)
  only (v ∷ []) zero w one at = (cc, refl)
  only (v ∷ []) (suc i) w one at = absurd (ground arith)
  only (v ∷ u ∷ ws) i w one at = absurd (omega arith)

  -- What a turn is to the machine: nothing, or a step.
  abbrev Simulates : Turn J → Pool J → Pool J → Type 0
  Simulates a p q =
      length p.workers ≡ 1 → (length q.workers ≡ 1) × ((view p ≡ view q) ⊎ Serves (view p) (view q))

  Moves-Simulates : (room : ℕ) → Moves room Simulates
  unfolding view before_proc behind_proc
  Moves-Simulates room = record {
    on_push = λ j p one.
        (one, inr (ask j (rw (append_assoc (before_proc p.workers) p.jobs (j ∷ [])) refl)));
    on_pop = λ i p j js at e one.
        let (alone, first) = only p.workers i idle one at in
        (omega (arith, length-set p.workers i (holding j)), inl (rw (alone, first, e) refl));
    on_proc = λ i p j at one.
        let (alone, first) = only p.workers i (holding j) one at in
        (
          omega (arith, length-set p.workers i (finished j)),
          inr (serve j p.jobs (rw alone refl) (rw (alone, first, append-nil p.items) refl)),
        );
    on_insert = λ i p j at free one.
        let (alone, first) = only p.workers i (finished j) one at in
        (
          omega (arith, length-set p.workers i inserted),
          inl (rw (alone, first, append-nil (p.items ++ j ∷ [])) refl),
        );
    on_write = λ i p at lt one.
        let (alone, first) = only p.workers i inserted one at in
        (omega (arith, length-set p.workers i idle), inl (rw (alone, first) refl));
    on_read = λ p n calm e one. (one, inl refl);
    on_none = λ p woken free e one. (one, inl refl);
    on_take = λ p j js woken free e one.
        (one, inr (hand j (js ++ behind_proc p.workers) (rw e refl) refl));
  }

  create-idle :
      (answers : List Bool)
      → (before_proc (create answers) ≡ []) × (behind_proc (create answers) ≡ [])
  unfolding create before_proc behind_proc
  create-idle [] = (refl, refl)
  create-idle (true ∷ answers) = create-idle answers
  create-idle (false ∷ answers) = create-idle answers

  opened-view : (answers : List Bool) → view (opened answers) ≡ fresh_serial
  unfolding view start
  opened-view answers = let (before, behind) = create-idle answers in rw (before, behind) refl

  -- A pool with one worker, whatever the order of the turns of its client and its threads,
  -- implements a serial machine: a turn is nothing to the machine, or it takes a job, runs the
  -- first job that waits, or gives back the first job that has run.
  pub Reach-Runs :
      (room : ℕ) (answers : List Bool) {q : Pool J}
      → length (opened {J = J} answers).workers ≡ 1
      → Reach room (opened answers) q
      → Runs fresh_serial (view q)
  Reach-Runs room answers one path = (simulated path).1
    where
      stepped : {s t u : Serial J} → Runs s t → (t ≡ u) ⊎ Serves t u → Runs s u
      stepped {s} runs (inl e) = subst (Runs s) e runs
      stepped runs (inr st) = then runs st

      simulated :
          {q : Pool J}
          → Reach room (opened answers) q
          → (length q.workers ≡ 1) × Runs fresh_serial (view q)
      simulated fresh = (one, subst (Runs fresh_serial) (sym (opened-view answers)) started)
      simulated (next a r path e) =
          let (single, runs) = simulated path in
          let (single', st) = turn_related room Simulates (Moves-Simulates room) e single in
          (single', stepped runs st)

  -- The machine keeps the order.
  pub record Ordered (s : Serial J) : Type 0 where
    pub all_asked : s.asked ≡ s.ran ++ s.waiting
    pub all_ran : s.ran ≡ s.served ++ s.ready

  Serves-Ordered : {s t : Serial J} → Serves s t → Ordered s → Ordered t
  Serves-Ordered {s} (ask j e) o = subst Ordered (sym e) (record {
    all_asked = rw (o.all_asked, append_assoc s.ran s.waiting (j ∷ [])) refl;
    all_ran = o.all_ran;
  })
  Serves-Ordered {s} (serve j js h e) o = subst Ordered (sym e) (record {
    all_asked = rw (o.all_asked, h, append_assoc s.ran (j ∷ []) js) refl;
    all_ran = rw (o.all_ran, append_assoc s.served s.ready (j ∷ [])) refl;
  })
  Serves-Ordered {s} (hand j js h e) o = subst Ordered (sym e) (record {
    all_asked = o.all_asked;
    all_ran = rw (o.all_ran, h, append_assoc s.served (j ∷ []) js) refl;
  })

  pub Runs-Ordered : {s : Serial J} → Runs fresh_serial s → Ordered s
  Runs-Ordered started = record { all_asked = refl; all_ran = refl }
  Runs-Ordered (then runs st) = Serves-Ordered st (Runs-Ordered runs)
