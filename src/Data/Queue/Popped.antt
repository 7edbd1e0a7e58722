-- ===== src/Data/Queue/Popped.antt =====
-- The cells of a queue after the batch of a pop.
use geminidb.Prelude.{
  ℕ, suc, ◌+◌, ◌^◌, ◌<◌, ◌≡◌, refl, ap, ◌∙◌, ◌≢◌, some, List, [], ◌∷◌, ◌++◌, Octets, length,
  length-append, octets_eq_refl, arith,
}
use geminidb.Prelude.Words.{to_le}
use geminidb.Data.LevelDb.{Contents, apply_ops}
use geminidb.Data.Keys.{
  encode_qsize_key, encode_qitem_key, qfront_seq, qback_seq, qitem_min_seq, qitem_max_seq,
}
use geminidb.Data.Queue.View.{
  IsQueue, apply_ops-other, item_apart, size_apart, apart_size, Cells-same, Cells-init,
}
use geminidb.Data.Queue.Batch.{last_ops, pop_ops}

pub last_ops-IsQueue :
    (m : Contents) (name : Octets) (seq front : ℕ)
    → IsQueue (apply_ops (last_ops name seq) m) name front []
unfolding apply_ops
last_ops-IsQueue m name seq front = record {
  size_is =
      rw
        (
          apart_size name qback_seq,
          apart_size name qfront_seq,
          octets_eq_refl (encode_qsize_key name),
        )
        refl;
  front_is =
      rw
        (
          item_apart name qback_seq qfront_seq (omega arith) (omega arith) (omega arith),
          octets_eq_refl (encode_qitem_key name qfront_seq),
        )
        refl;
  back_is = rw (octets_eq_refl (encode_qitem_key name qback_seq)) refl;
  items_are = tt;
  in_range = tt;
}

module _ (m : Contents) (name : Octets) (end seq seq' size : ℕ) where
  abbrev popped : Contents
  popped = apply_ops (pop_ops name end seq seq' size) m

  popped-size : popped (encode_qsize_key name) ≡ some (to_le 8 size)
  unfolding apply_ops
  popped-size = rw (apart_size name end, octets_eq_refl (encode_qsize_key name)) refl

  popped_end : popped (encode_qitem_key name end) ≡ some (to_le 8 seq')
  unfolding apply_ops
  popped_end = rw (octets_eq_refl (encode_qitem_key name end)) refl

  popped_elsewhere :
      (j : ℕ)
      → end < 2 ^ 64
      → seq < 2 ^ 64
      → j < 2 ^ 64
      → end ≢ j
      → seq ≢ j
      → popped (encode_qitem_key name j) ≡ m (encode_qitem_key name j)
  popped_elsewhere j he hs hj h h' =
      apply_ops-other (pop_ops name end seq seq' size) m (encode_qitem_key name j)
        (item_apart name seq j hs hj h', (size_apart name j, (item_apart name end j he hj h, tt)))

module _ (m : Contents) (name : Octets) (front : ℕ) (x : Octets) (xs : List Octets) where
  pub pop_front-IsQueue :
      (y : Octets)
      → IsQueue m name front (x ∷ y ∷ xs)
      → IsQueue
          (apply_ops (pop_ops name qfront_seq front (suc front) (suc (length xs))) m)
          name
          (suc front)
          (y ∷ xs)
  pop_front-IsQueue y q =
      let n = suc (length xs) in
      let m' = popped m name qfront_seq front (suc front) n in
      let low : qitem_min_seq < front = q.in_range.0 in
      let high : front + suc (length xs) < qitem_max_seq = q.in_range.1 in
      record {
        size_is = popped-size m name qfront_seq front (suc front) n;
        front_is = popped_end m name qfront_seq front (suc front) n;
        back_is =
            popped_elsewhere m name qfront_seq front (suc front) n qback_seq (omega arith)
              (omega arith) (omega arith) (omega arith) (omega arith)
            ∙ q.back_is
            ∙ ap (λ w. some (to_le 8 w)) (omega arith);
        items_are =
            Cells-same name m m' (suc front) (y ∷ xs)
              (λ j above below.
                popped_elsewhere m name qfront_seq front (suc front) n j (omega arith) (omega arith)
                  (omega arith) (omega arith) (omega arith))
              q.items_are.1;
        in_range = (omega arith, omega arith);
      }

  pub pop_back-IsQueue :
      (z : Octets)
      → IsQueue m name front (x ∷ xs ++ z ∷ [])
      → IsQueue
          (apply_ops
            (pop_ops name qback_seq (front + suc (length xs)) (front + length xs) (suc (length xs)))
            m)
          name
          front
          (x ∷ xs)
  pop_back-IsQueue z q =
      let n = suc (length xs) in
      let seq = front + suc (length xs) in
      let seq' = front + length xs in
      let m' = popped m name qback_seq seq seq' n in
      let count : length (xs ++ z ∷ []) ≡ suc (length xs) =
        omega (arith, length-append xs (z ∷ [])) in
      let low : qitem_min_seq < front = q.in_range.0 in
      let high : front + length (xs ++ z ∷ []) < qitem_max_seq = q.in_range.1 in
      record {
        size_is = popped-size m name qback_seq seq seq' n;
        front_is =
            popped_elsewhere m name qback_seq seq seq' n qfront_seq (omega arith) (omega arith)
              (omega arith) (omega arith) (omega arith)
            ∙ q.front_is;
        back_is = popped_end m name qback_seq seq seq' n ∙ ap (λ w. some (to_le 8 w)) (omega arith);
        items_are =
            Cells-same name m m' front (x ∷ xs)
              (λ j above below.
                popped_elsewhere m name qback_seq seq seq' n j (omega arith) (omega arith)
                  (omega arith) (omega arith) (omega arith))
              (Cells-init name m front (x ∷ xs) z q.items_are).0;
        in_range = (low, omega arith);
      }
