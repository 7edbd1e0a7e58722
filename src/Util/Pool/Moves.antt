-- ===== src/Util/Pool/Moves.antt =====
-- The moves that a turn of a worker pool can make, one by one.
pub mod Stays
use geminidb.Prelude.{
  ℕ, zero, suc, ◌<◌, ◌≡◌, refl, subst, Bool, true, false, Option, none, some, List, [], ◌∷◌, ◌++◌,
  get_elem?, set, if◌then◌else◌, ltb, arith,
}
use geminidb.Util.Pool.{
  Pool, Worker, idle, holding, finished, inserted, Turn, push, work, read, turn, run_worker,
  push_job, pop_job, insert_item, write_byte, pop_result, take_item, read_byte, Reach, fresh, next,
}

module _ {J : Type 0} where
  -- A relation between the pools before and after a turn, for each move.
  pub record Moves {κ} (room : ℕ) (R : Turn J → Pool J → Pool J → Type κ) : Type κ where
    pub on_push :
        (j : J) (p : Pool J)
        → R (push j) p (record p { jobs = p.jobs ++ j ∷ []; pushed = p.pushed ++ j ∷ [] })
    pub on_pop :
        (i : ℕ) (p : Pool J) (j : J) (js : List J)
        → get_elem? p.workers i ≡ some idle
        → p.jobs ≡ j ∷ js
        → R (work i) p (record p { jobs = js; workers = set p.workers i (holding j) })
    pub on_proc :
        (i : ℕ) (p : Pool J) (j : J)
        → get_elem? p.workers i ≡ some (holding j)
        → R (work i) p (record p { ran = p.ran ++ j ∷ []; workers = set p.workers i (finished j) })
    pub on_insert :
        (i : ℕ) (p : Pool J) (j : J)
        → get_elem? p.workers i ≡ some (finished j)
        → p.locked ≡ false
        → R (work i) p (record p {
          items = p.items ++ j ∷ [];
          locked = true;
          workers = set p.workers i inserted;
        })
    pub on_write :
        (i : ℕ) (p : Pool J)
        → get_elem? p.workers i ≡ some inserted
        → p.bytes < room
        → R
            (work i)
            p
            (record p { bytes = suc p.bytes; locked = false; workers = set p.workers i idle })
    pub on_read :
        (p : Pool J) (n : ℕ)
        → p.woken ≡ false
        → p.bytes ≡ suc n
        → R read p (record p { bytes = n; woken = true })
    pub on_none :
        (p : Pool J)
        → p.woken ≡ true
        → p.locked ≡ false
        → p.items ≡ []
        → R read p (record p { woken = false; errors = suc p.errors })
    pub on_take :
        (p : Pool J) (j : J) (js : List J)
        → p.woken ≡ true
        → p.locked ≡ false
        → p.items ≡ j ∷ js
        → R read p (record p { items = js; woken = false; popped = p.popped ++ j ∷ [] })

  -- What holds of the result, if there is one.
  abbrev Ensures {κ} : (Pool J → Type κ) → Option (Pool J) → Type κ
  Ensures P none = Unit
  Ensures P (some q) = P q

  Ensures-if {κ} :
      (P : Pool J → Type κ) (b : Bool) (o o' : Option (Pool J))
      → (b ≡ true → Ensures P o)
      → (b ≡ false → Ensures P o')
      → Ensures P (if b then o else o')
  Ensures-if P true o o' h h' = h refl
  Ensures-if P false o o' h h' = h' refl

  module _ {κ} (room : ℕ) (R : Turn J → Pool J → Pool J → Type κ) (m : Moves room R) where
    pop_job-moves :
        (i : ℕ) (p : Pool J) (jobs : List J)
        → get_elem? p.workers i ≡ some idle
        → p.jobs ≡ jobs
        → Ensures (R (work i) p) (pop_job i jobs p)
    unfolding pop_job
    pop_job-moves i p [] at e = tt
    pop_job-moves i p (j ∷ js) at e = m.on_pop i p j js at e

    run_worker-moves :
        (i : ℕ) (p : Pool J) (w : Option (Worker J))
        → get_elem? p.workers i ≡ w
        → Ensures (R (work i) p) (run_worker room i w p)
    unfolding run_worker insert_item write_byte
    run_worker-moves i p none at = tt
    run_worker-moves i p (some idle) at = pop_job-moves i p p.jobs at refl
    run_worker-moves i p (some (holding j)) at = m.on_proc i p j at
    run_worker-moves i p (some (finished j)) at =
        Ensures-if (R (work i) p) p.locked none _ (λ _. tt) (m.on_insert i p j at)
    run_worker-moves i p (some inserted) at =
        Ensures-if (R (work i) p) (ltb p.bytes room) _ none (λ lt. m.on_write i p at (ground arith))
          (λ _. tt)

    take_item-moves :
        (p : Pool J) (items : List J)
        → p.woken ≡ true
        → p.locked ≡ false
        → p.items ≡ items
        → R read p (take_item items p)
    unfolding take_item
    take_item-moves p [] woken free e = m.on_none p woken free e
    take_item-moves p (j ∷ js) woken free e = m.on_take p j js woken free e

    read_byte-moves :
        (p : Pool J) (bytes : ℕ)
        → p.woken ≡ false
        → p.bytes ≡ bytes
        → Ensures (R read p) (read_byte bytes p)
    unfolding read_byte
    read_byte-moves p zero calm e = tt
    read_byte-moves p (suc n) calm e = m.on_read p n calm e

    turn-moves : (a : Turn J) (p : Pool J) → Ensures (R a p) (turn room a p)
    unfolding turn push_job pop_result
    turn-moves (push j) p = m.on_push j p
    turn-moves (work i) p = run_worker-moves i p (get_elem? p.workers i) refl
    turn-moves read p =
        Ensures-if (R read p) p.woken _ _
          (λ woken.
            Ensures-if (R read p) p.locked none _ (λ _. tt)
              (λ free. take_item-moves p p.items woken free refl))
          (λ calm. read_byte-moves p p.bytes calm refl)

    pub turn_related : {a : Turn J} {p q : Pool J} → turn room a p ≡ some q → R a p q
    turn_related {a} {p} e = subst (Ensures (R a p)) e (turn-moves a p)

  -- An invariant that every move keeps.
  pub reach_keeps {κ} :
      {room : ℕ} {p q : Pool J} (P : Pool J → Type κ)
      → Moves room (λ _ r s. P r → P s)
      → Reach room p q
      → P p
      → P q
  reach_keeps P m fresh h = h
  reach_keeps {room} P m (next a r path e) h =
      turn_related room (λ _ r s. P r → P s) m e (reach_keeps P m path h)
