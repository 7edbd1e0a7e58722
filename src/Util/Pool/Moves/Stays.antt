-- ===== src/Util/Pool/Moves/Stays.antt =====
-- What a turn of the pool leaves of the other workers.
use geminidb.Prelude.{
  ℕ, zero, suc, ◌<◌, ◌≡◌, ◌≢◌, refl, ap, some, List, [], ◌∷◌, get_elem?, set, length, arith,
}
use geminidb.Util.Pool.{Pool, Worker, Turn, push, work, read}
use geminidb.Util.Pool.Counts.{length-set}
use geminidb.Util.Pool.Moves.{Moves}

module _ {J : Type 0} where
  get_elem?-set_other :
      (ws : List (Worker J)) (k i : ℕ) (v : Worker J)
      → i ≢ k
      → get_elem? (set ws k v) i ≡ get_elem? ws i
  get_elem?-set_other [] k i v ne = refl
  get_elem?-set_other (w ∷ ws) zero zero v ne = absurd (ne refl)
  get_elem?-set_other (w ∷ ws) zero (suc i) v ne = refl
  get_elem?-set_other (w ∷ ws) (suc k) zero v ne = refl
  get_elem?-set_other (w ∷ ws) (suc k) (suc i) v ne =
      get_elem?-set_other ws k i v (λ e. ne (ap suc e))

  pub in_range :
      (ws : List (Worker J)) (i : ℕ) (v : Worker J) → get_elem? ws i ≡ some v → i < length ws
  in_range [] i v h = absurd (ground (arith, h))
  in_range (w ∷ ws) zero v h = omega arith
  in_range (w ∷ ws) (suc i) v h = omega (arith, in_range ws i v h)

  -- The workers that a turn of the pool is not about, and the jobs that the reader leaves.
  abbrev pub Stays : Turn J → Pool J → Pool J → Type 0
  Stays (push j) p q = q.workers ≡ p.workers
  Stays (work k) p q =
      (length q.workers ≡ length p.workers)
      × ((i : ℕ) → i ≢ k → get_elem? q.workers i ≡ get_elem? p.workers i)
  Stays read p q = (q.workers ≡ p.workers) × (q.jobs ≡ p.jobs)

  pub Moves-Stays : (room : ℕ) → Moves room Stays
  Moves-Stays room = record {
    on_push = λ j p. refl;
    on_pop =
        λ k p j js at e. (length-set p.workers k _, λ i ne. get_elem?-set_other p.workers k i _ ne);
    on_proc =
        λ k p j at. (length-set p.workers k _, λ i ne. get_elem?-set_other p.workers k i _ ne);
    on_insert =
        λ k p j at free. (length-set p.workers k _, λ i ne. get_elem?-set_other p.workers k i _ ne);
    on_write =
        λ k p at lt. (length-set p.workers k _, λ i ne. get_elem?-set_other p.workers k i _ ne);
    on_read = λ p n calm e. (refl, refl);
    on_none = λ p woken free e. (refl, refl);
    on_take = λ p j js woken free e. (refl, refl);
  }
