-- ===== src/Util/Pool/Counts.antt =====
-- What the workers of a pool add up to, and how many jobs of a list pass a test.
use geminidb.Prelude.{
  ℕ, zero, suc, ◌+◌, ◌≡◌, refl, Bool, true, some, List, [], ◌∷◌, ◌++◌, get_elem?, set, length,
  if◌then◌else◌, arith,
}
use geminidb.Util.Pool.{Worker, idle, holding, finished, inserted}

module _ {J : Type 0} where
  unfoldable pub total : (Worker J → ℕ) → List (Worker J) → ℕ
  total f [] = 0
  total f (w ∷ ws) = f w + total f ws

  -- A worker that moves takes its share with it.
  pub total-set :
      (f : Worker J → ℕ) (ws : List (Worker J)) (i : ℕ) (w v : Worker J)
      → get_elem? ws i ≡ some w
      → total f (set ws i v) + f w ≡ total f ws + f v
  unfolding total
  total-set f [] i w v h = absurd (ground arith)
  total-set f (u ∷ ws) zero w v h = ground arith
  total-set f (u ∷ ws) (suc i) w v h = omega (arith, total-set f ws i w v h)

  pub total_zero :
      (f : Worker J → ℕ) (ws : List (Worker J))
      → ((i : ℕ) (w : Worker J) → get_elem? ws i ≡ some w → f w ≡ 0)
      → total f ws ≡ 0
  unfolding total
  total_zero f [] h = refl
  total_zero f (w ∷ ws) h = omega (arith, h 0 w refl, total_zero f ws (λ i v e. h (suc i) v e))

  pub length-set : (ws : List (Worker J)) (i : ℕ) (v : Worker J) → length (set ws i v) ≡ length ws
  length-set [] i v = refl
  length-set (w ∷ ws) zero v = refl
  length-set (w ∷ ws) (suc i) v = omega (arith, length-set ws i v)

  -- Whether a worker is between `items.push` and `write`.
  unfoldable pub writing : Worker J → ℕ
  writing idle = 0
  writing (holding j) = 0
  writing (finished j) = 0
  writing inserted = 1

  later :
      {w : Worker J} (ws : List (Worker J))
      → (i : ℕ) × (get_elem? ws i ≡ some inserted)
      → (i : ℕ) × (get_elem? (w ∷ ws) i ≡ some inserted)
  later ws (i, e) = (suc i, e)

  pub writing_there :
      (ws : List (Worker J)) → total writing ws ≡ 1 → (i : ℕ) × (get_elem? ws i ≡ some inserted)
  unfolding total writing
  writing_there [] h = absurd (omega arith)
  writing_there (inserted ∷ ws) h = (0, refl)
  writing_there (idle ∷ ws) h = later ws (writing_there ws (omega arith))
  writing_there (holding j ∷ ws) h = later ws (writing_there ws (omega arith))
  writing_there (finished j ∷ ws) h = later ws (writing_there ws (omega arith))

  unfoldable pub count : (J → Bool) → List J → ℕ
  count t [] = 0
  count t (j ∷ js) = (if t j then 1 else 0) + count t js

  pub count-append : (t : J → Bool) (js ks : List J) → count t (js ++ ks) ≡ count t js + count t ks
  unfolding count
  count-append t [] ks = omega arith
  count-append t (j ∷ js) ks = omega (arith, count-append t js ks)

  pub count_all : (js : List J) → count (λ _. true) js ≡ length js
  unfolding count
  count_all [] = refl
  count_all (j ∷ js) = omega (arith, count_all js)

  -- The job that a worker carries, counted if it passes the test, and likewise before `proc`.
  unfoldable pub carried : (J → Bool) → Worker J → ℕ
  unfolding count
  carried t idle = 0
  carried t (holding j) = count t (j ∷ [])
  carried t (finished j) = count t (j ∷ [])
  carried t inserted = 0

  unfoldable pub unrun : (J → Bool) → Worker J → ℕ
  unfolding count
  unrun t idle = 0
  unrun t (holding j) = count t (j ∷ [])
  unrun t (finished j) = 0
  unrun t inserted = 0
