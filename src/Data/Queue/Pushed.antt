-- ===== src/Data/Queue/Pushed.antt =====
-- The cells of a queue after the batch of a push.
use geminidb.Prelude.{
  ℕ, suc, ◌+◌, ◌^◌, ◌<◌, ◌≡◌, refl, sym, ap, subst, ◌∙◌, ◌≢◌, some, List, [], ◌∷◌, ◌++◌, Octets,
  length, length-append, octets_eq_refl, arith,
}
use geminidb.Prelude.Words.{to_le}
use geminidb.Data.LevelDb.{Contents, apply_ops}
use geminidb.Data.Keys.{
  encode_qsize_key, encode_qitem_key, qfront_seq, qback_seq, qitem_min_seq, qitem_max_seq,
  qitem_seq_init,
}
use geminidb.Data.Queue.View.{
  IsQueue, Cells, apply_ops-other, item_apart, size_apart, Cells-same, Cells-append,
}
use geminidb.Data.Queue.Batch.{first_ops, push_ops}

-- What the cells hold after the batch of a push.
module _ (m : Contents) (name item : Octets) (end seq size : ℕ) where
  abbrev pushed : Contents
  pushed = apply_ops (push_ops name item end seq size) m

  pushed-size : pushed (encode_qsize_key name) ≡ some (to_le 8 size)
  unfolding apply_ops
  pushed-size = rw (octets_eq_refl (encode_qsize_key name)) refl

  pushed-item : pushed (encode_qitem_key name seq) ≡ some item
  unfolding apply_ops
  pushed-item = rw (size_apart name seq, octets_eq_refl (encode_qitem_key name seq)) refl

  pushed_end :
      end < 2 ^ 64
      → seq < 2 ^ 64
      → seq ≢ end
      → pushed (encode_qitem_key name end) ≡ some (to_le 8 seq)
  unfolding apply_ops
  pushed_end he hs h =
      rw
        (
          size_apart name end,
          item_apart name seq end hs he h,
          octets_eq_refl (encode_qitem_key name end),
        )
        refl

  pushed_elsewhere :
      (j : ℕ)
      → end < 2 ^ 64
      → seq < 2 ^ 64
      → j < 2 ^ 64
      → end ≢ j
      → seq ≢ j
      → pushed (encode_qitem_key name j) ≡ m (encode_qitem_key name j)
  pushed_elsewhere j he hs hj h h' =
      apply_ops-other (push_ops name item end seq size) m (encode_qitem_key name j)
        (item_apart name end j he hj h, (item_apart name seq j hs hj h', (size_apart name j, tt)))

pub first_ops-IsQueue :
    (m : Contents) (name item : Octets)
    → IsQueue (apply_ops (first_ops name item) m) name qitem_seq_init (item ∷ [])
unfolding apply_ops
first_ops-IsQueue m name item = record {
  size_is = rw (octets_eq_refl (encode_qsize_key name)) refl;
  front_is =
      rw
        (
          size_apart name qfront_seq,
          item_apart name qitem_seq_init qfront_seq (omega arith) (omega arith) (omega arith),
          item_apart name qback_seq qfront_seq (omega arith) (omega arith) (omega arith),
          octets_eq_refl (encode_qitem_key name qfront_seq),
        )
        refl;
  back_is =
      rw
        (
          size_apart name qback_seq,
          item_apart name qitem_seq_init qback_seq (omega arith) (omega arith) (omega arith),
          octets_eq_refl (encode_qitem_key name qback_seq),
        )
        refl;
  items_are = (
    rw (size_apart name qitem_seq_init, octets_eq_refl (encode_qitem_key name qitem_seq_init)) refl,
    tt,
  );
  in_range = omega arith;
}

module _ (m : Contents) (name item : Octets) (front : ℕ) (x : Octets) (xs : List Octets)
    (q : IsQueue m name front (x ∷ xs)) where
  pub push_back-IsQueue :
      (back : ℕ)
      → back ≡ front + suc (length xs)
      → back < qitem_max_seq
      → IsQueue
          (apply_ops (push_ops name item qback_seq back (suc (suc (length xs)))) m)
          name
          front
          (x ∷ xs ++ item ∷ [])
  push_back-IsQueue back e room =
      let count : length (xs ++ item ∷ []) ≡ suc (length xs) =
        omega (arith, length-append xs (item ∷ [])) in
      let low : qitem_min_seq < front = q.in_range.0 in
      let n = suc (suc (length xs)) in
      let m' = pushed m name item qback_seq back n in
      record {
        size_is = rw count (pushed-size m name item qback_seq back n);
        front_is =
            pushed_elsewhere m name item qback_seq back n qfront_seq (omega arith) (omega arith)
              (omega arith) (omega arith) (omega arith)
            ∙ q.front_is;
        back_is = rw count (
            pushed_end m name item qback_seq back n (omega arith) (omega arith) (omega arith)
            ∙ ap (λ w. some (to_le 8 w)) (omega arith));
        items_are =
            Cells-append name m' front (x ∷ xs) item
              (Cells-same name m m' front (x ∷ xs)
                (λ j above below.
                  pushed_elsewhere m name item qback_seq back n j (omega arith) (omega arith)
                    (omega arith) (omega arith) (omega arith))
                q.items_are)
              (subst (λ w. m' (encode_qitem_key name w) ≡ some item) e
                (pushed-item m name item qback_seq back n));
        in_range = (low, omega (arith, count));
      }

  pub push_front-IsQueue :
      (seq : ℕ)
      → suc seq ≡ front
      → qitem_min_seq < seq
      → IsQueue
          (apply_ops (push_ops name item qfront_seq seq (suc (suc (length xs)))) m)
          name
          seq
          (item ∷ x ∷ xs)
  push_front-IsQueue seq e low =
      let high : front + length xs < qitem_max_seq = q.in_range.1 in
      let n = suc (suc (length xs)) in
      let m' = pushed m name item qfront_seq seq n in
      record {
        size_is = pushed-size m name item qfront_seq seq n;
        front_is =
            pushed_end m name item qfront_seq seq n (omega arith) (omega arith) (omega arith);
        back_is =
            pushed_elsewhere m name item qfront_seq seq n qback_seq (omega arith) (omega arith)
              (omega arith) (omega arith) (omega arith)
            ∙ q.back_is
            ∙ ap (λ w. some (to_le 8 w)) (omega arith);
        items_are = (
          pushed-item m name item qfront_seq seq n,
          Cells-same name m m' (suc seq) (x ∷ xs)
              (λ j above below.
                pushed_elsewhere m name item qfront_seq seq n j (omega arith) (omega arith)
                  (omega arith) (omega arith) (omega arith))
              (subst (λ w. Cells m name w (x ∷ xs)) (sym e) q.items_are),
        );
        in_range = (low, omega arith);
      }
