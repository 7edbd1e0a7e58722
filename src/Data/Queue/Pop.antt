-- ===== src/Data/Queue/Pop.antt =====
-- A pop takes the item at its end of the queue, and touches nothing else.
use geminidb.Prelude.{
  ℕ, suc, ◌+◌, ◌^◌, ◌<◌, ◌≡◌, refl, ap, ◌∙◌, some, List, [], ◌∷◌, ◌++◌, Octets, All, length,
  length-append, octets_eq, false, arith,
}
use geminidb.Prelude.Int.{pos, minus_one}
use geminidb.Prelude.Words.{to_le}
use geminidb.Data.LevelDb.{LevelDb}
use geminidb.Data.Keys.{encode_qitem_key, qfront_seq, qback_seq, qitem_min_seq, qitem_max_seq}
use geminidb.Data.Binlog.{Geminidb}
use geminidb.Data.Queue.{qpop, qpop_front, qpop_back}
use geminidb.Data.Queue.View.{
  IsQueue, IsReadable, IsHealthy, Foreign, op_key, octets_eq-ne, read_item, read_number, read_size,
  Cells-init,
}
use geminidb.Data.Queue.Change.{Changes, Changes-healthy, Done}
use geminidb.Data.Queue.Batch.{last_ops, pop_ops, moved_in, qpop_last, qpop_more}
use geminidb.Data.Queue.Popped.{last_ops-IsQueue, pop_front-IsQueue, pop_back-IsQueue}

module _ (L : LevelDb) (name : Octets) (g : Geminidb L.State) (readable : IsReadable L g.ldb) where
  pops_last :
      (end front : ℕ) (x : Octets)
      → IsQueue (L.contents g.ldb) name front (x ∷ [])
      → L.contents g.ldb (encode_qitem_key name end) ≡ some (to_le 8 front)
      → Changes L name g [] (minus_one, some x) (pos 1, some x) (qpop L name end g)
  pops_last end front x q e =
      let low : qitem_min_seq < front = q.in_range.0 in
      let high : front + 0 < qitem_max_seq = q.in_range.1 in
      record {
        batch = record {
          ops = last_ops name front;
          front = front;
          queue = last_ops-IsQueue (L.contents g.ldb) name front front;
          own = λ k f. (
            octets_eq-ne _ k (f.1 front (omega arith)),
            (
              octets_eq-ne _ k f.0,
              (
                octets_eq-ne _ k (f.1 qfront_seq (omega arith)),
                (octets_eq-ne _ k (f.1 qback_seq (omega arith)), tt),
              ),
            ),
          );
        };
        does =
            qpop_last L name g end front x
              (read_number L g.ldb readable name end front (omega arith) e)
              (read_item L g.ldb readable name front x q.items_are.0)
              (read_size L g.ldb readable name (x ∷ []) (omega arith) q.size_is);
      }

  own_keys :
      (end seq seq' size : ℕ)
      → end < 2 ^ 64
      → seq < 2 ^ 64
      → (k : Octets) → Foreign name k
      → All (λ op. octets_eq (op_key op) k ≡ false) (pop_ops name end seq seq' size)
  own_keys end seq seq' size he hs k f =
      (octets_eq-ne _ k (f.1 seq hs), (octets_eq-ne _ k f.0, (octets_eq-ne _ k (f.1 end he), tt)))

  pops_front :
      (front : ℕ) (x : Octets) (xs : List Octets)
      → IsQueue (L.contents g.ldb) name front (x ∷ xs)
      → Changes L name g xs (minus_one, some x) (pos 1, some x) (qpop_front L name g)
  unfolding qpop_front
  pops_front front x [] q = pops_last qfront_seq front x q q.front_is
  pops_front front x (y ∷ xs) q =
      let low : qitem_min_seq < front = q.in_range.0 in
      let high : front + suc (length xs) < qitem_max_seq = q.in_range.1 in
      let n = suc (length xs) in
      let next : moved_in qfront_seq front ≡ suc front = omega arith in
      record {
        batch = record {
          ops = pop_ops name qfront_seq front (suc front) n;
          front = suc front;
          queue = pop_front-IsQueue (L.contents g.ldb) name front x xs y q;
          own = own_keys qfront_seq front (suc front) n (omega arith) (omega arith);
        };
        does =
            qpop_more L name g qfront_seq front n x
              (read_number L g.ldb readable name qfront_seq front (omega arith) q.front_is)
              (read_item L g.ldb readable name front x q.items_are.0)
              (read_size L g.ldb readable name (x ∷ y ∷ xs) (omega arith) q.size_is ∙ omega arith)
              (omega arith) (omega arith)
            ∙ rw next refl;
      }

  pub pops_back :
      (front : ℕ) (z : Octets) (xs : List Octets)
      → IsQueue (L.contents g.ldb) name front (xs ++ z ∷ [])
      → Changes L name g xs (minus_one, some z) (pos 1, some z) (qpop_back L name g)
  unfolding qpop_back
  pops_back front z [] q =
      pops_last qback_seq front z q (q.back_is ∙ ap (λ w. some (to_le 8 w)) (omega arith))
  pops_back front z (x ∷ xs) q =
      let low : qitem_min_seq < front = q.in_range.0 in
      let count : length (xs ++ z ∷ []) ≡ suc (length xs) =
        omega (arith, length-append xs (z ∷ [])) in
      let high : front + length (xs ++ z ∷ []) < qitem_max_seq = q.in_range.1 in
      let n = suc (length xs) in
      let seq = front + suc (length xs) in
      let next : moved_in qback_seq seq ≡ front + length xs = omega arith in
      record {
        batch = record {
          ops = pop_ops name qback_seq seq (front + length xs) n;
          front = front;
          queue = pop_back-IsQueue (L.contents g.ldb) name front x xs z q;
          own = own_keys qback_seq seq (front + length xs) n (omega arith) (omega arith);
        };
        does =
            qpop_more L name g qback_seq seq n z
              (read_number L g.ldb readable name qback_seq seq (omega arith)
                (q.back_is ∙ ap (λ w. some (to_le 8 w)) (omega arith)))
              (read_item L g.ldb readable name seq z
                (Cells-init name (L.contents g.ldb) front (x ∷ xs) z q.items_are).1)
              (read_size L g.ldb readable name (x ∷ xs ++ z ∷ []) (omega arith) q.size_is
                ∙ omega arith)
              (omega arith) (omega arith)
            ∙ rw next refl;
      }

-- On a database whose reads and writes succeed and which holds the queue with a first item,
-- `qpop_front` returns 1 with that item and leaves the others, and no key but the queue's own
-- changes.
pub qpop_front_takes :
    (L : LevelDb) (name x : Octets) (g : Geminidb L.State) (front : ℕ) (xs : List Octets)
    → IsHealthy L g.ldb
    → IsQueue (L.contents g.ldb) name front (x ∷ xs)
    → ((qpop_front L name g).0 ≡ (pos 1, some x)) × Done L name g.ldb xs (qpop_front L name g).1.ldb
qpop_front_takes L name x g front xs healthy q =
    Changes-healthy L name g xs (minus_one, some x) (pos 1, some x) _ healthy
      (pops_front L name g healthy.reads front x xs q)

-- On a database whose reads and writes succeed and which holds the queue with a last item,
-- `qpop_back` returns 1 with that item and leaves the others, and no key but the queue's own
-- changes.
pub qpop_back_takes :
    (L : LevelDb) (name x : Octets) (g : Geminidb L.State) (front : ℕ) (xs : List Octets)
    → IsHealthy L g.ldb
    → IsQueue (L.contents g.ldb) name front (xs ++ x ∷ [])
    → ((qpop_back L name g).0 ≡ (pos 1, some x)) × Done L name g.ldb xs (qpop_back L name g).1.ldb
qpop_back_takes L name x g front xs healthy q =
    Changes-healthy L name g xs (minus_one, some x) (pos 1, some x) _ healthy
      (pops_back L name g healthy.reads front x xs q)
