-- ===== src/Data/Queue/Push.antt =====
-- A push adds its item at its end of the queue, and touches nothing else.
use native.Mathlib.Numerals.{add-one}
use geminidb.Prelude.{
  ℕ, suc, ◌+◌, ◌-◌, ◌^◌, ◌<◌, ◌≡◌, refl, none, List, [], ◌∷◌, ◌++◌, Octets, All, length, octets_eq,
  false, arith,
}
use geminidb.Data.LevelDb.{LevelDb}
use geminidb.Data.Keys.{
  encode_qitem_key, qfront_seq, qback_seq, qitem_min_seq, qitem_max_seq, qitem_seq_init,
}
use geminidb.Data.Binlog.{Geminidb}
use geminidb.Data.Queue.{error64, qpush, qpush_front, qpush_back}
use geminidb.Data.Queue.View.{
  IsQueue, IsReadable, IsHealthy, Foreign, op_key, octets_eq-ne, read_number, read_no_number,
  read_size,
}
use geminidb.Data.Queue.Change.{Changes, Changes-healthy, Done}
use geminidb.Data.Queue.Batch.{first_ops, push_ops, qpush_first, qpush_more}
use geminidb.Data.Queue.Pushed.{first_ops-IsQueue, push_back-IsQueue, push_front-IsQueue}

-- Whether an end of the queue has a number left for one more item.
abbrev pub RoomBack : ℕ → List Octets → Type 0
RoomBack front [] = Unit {0}
RoomBack front (x ∷ xs) = front + length (x ∷ xs) < qitem_max_seq

abbrev pub RoomFront : ℕ → List Octets → Type 0
RoomFront front [] = Unit {0}
RoomFront front (x ∷ xs) = suc qitem_min_seq < front

module _ (L : LevelDb) (name item : Octets) (g : Geminidb L.State)
    (readable : IsReadable L g.ldb) where
  pushes_first :
      (end front : ℕ)
      → IsQueue (L.contents g.ldb) name front []
      → L.contents g.ldb (encode_qitem_key name end) ≡ none
      → Changes L name g (item ∷ []) error64 1 (qpush L name item end g)
  pushes_first end front q e = record {
    batch = record {
      ops = first_ops name item;
      front = qitem_seq_init;
      queue = first_ops-IsQueue (L.contents g.ldb) name item;
      own = λ k f. (
        octets_eq-ne _ k (f.1 qfront_seq (omega arith)),
        (
          octets_eq-ne _ k (f.1 qback_seq (omega arith)),
          (octets_eq-ne _ k (f.1 qitem_seq_init (omega arith)), (octets_eq-ne _ k f.0, tt)),
        ),
      );
    };
    does =
        qpush_first L name g item end (read_no_number L g.ldb readable name end e)
          (read_size L g.ldb readable name [] (omega arith) q.size_is);
  }

  own_keys :
      (end seq size : ℕ)
      → end < 2 ^ 64
      → seq < 2 ^ 64
      → (k : Octets) → Foreign name k
      → All (λ op. octets_eq (op_key op) k ≡ false) (push_ops name item end seq size)
  own_keys end seq size he hs k f =
      (octets_eq-ne _ k (f.1 end he), (octets_eq-ne _ k (f.1 seq hs), (octets_eq-ne _ k f.0, tt)))

  pub pushes_back :
      (front : ℕ) (items : List Octets)
      → IsQueue (L.contents g.ldb) name front items
      → RoomBack front items
      → Changes L name g (items ++ item ∷ []) error64 (length items + 1) (qpush_back L name item g)
  unfolding qpush_back
  pushes_back front [] q room = pushes_first qback_seq front q q.back_is
  pushes_back front (x ∷ xs) q room =
      let low : qitem_min_seq < front = q.in_range.0 in
      let back = front + suc (length xs) in
      record {
        batch = record {
          ops = push_ops name item qback_seq back (suc (suc (length xs)));
          front = front;
          queue = push_back-IsQueue (L.contents g.ldb) name item front x xs q back refl room;
          own = own_keys qback_seq back (suc (suc (length xs))) (omega arith) (omega arith);
        };
        does = rw (← add-one (suc (length xs))) (
            qpush_more L name g item qback_seq (front + suc (length xs) - 1) back (suc (length xs))
              (read_number L g.ldb readable name qback_seq (front + suc (length xs) - 1)
                (omega arith) q.back_is)
              (omega arith) (omega arith) (omega arith)
              (read_size L g.ldb readable name (x ∷ xs) (omega arith) q.size_is) (omega arith));
      }

  pushes_front :
      (front : ℕ) (items : List Octets)
      → IsQueue (L.contents g.ldb) name front items
      → RoomFront front items
      → Changes L name g (item ∷ items) error64 (length items + 1) (qpush_front L name item g)
  unfolding qpush_front
  pushes_front front [] q room = pushes_first qfront_seq front q q.front_is
  pushes_front front (x ∷ xs) q room =
      let high : front + length xs < qitem_max_seq = q.in_range.1 in
      let seq = front - 1 in
      record {
        batch = record {
          ops = push_ops name item qfront_seq seq (suc (suc (length xs)));
          front = seq;
          queue =
              push_front-IsQueue (L.contents g.ldb) name item front x xs q seq (omega arith)
                (omega arith);
          own = own_keys qfront_seq seq (suc (suc (length xs))) (omega arith) (omega arith);
        };
        does = rw (← add-one (suc (length xs))) (
            qpush_more L name g item qfront_seq front seq (suc (length xs))
              (read_number L g.ldb readable name qfront_seq front (omega arith) q.front_is)
              (omega arith) (omega arith) (omega arith)
              (read_size L g.ldb readable name (x ∷ xs) (omega arith) q.size_is) (omega arith));
      }

-- On a database whose reads and writes succeed and which holds the queue with these items, with a
-- number left at the back, `qpush_back` returns the new size and puts the item behind the others,
-- and no key but the queue's own changes.
pub qpush_back_appends :
    (L : LevelDb) (name item : Octets) (g : Geminidb L.State) (front : ℕ) (items : List Octets)
    → IsHealthy L g.ldb
    → IsQueue (L.contents g.ldb) name front items
    → RoomBack front items
    → ((qpush_back L name item g).0 ≡ length items + 1)
      × Done L name g.ldb (items ++ item ∷ []) (qpush_back L name item g).1.ldb
qpush_back_appends L name item g front items healthy q room =
    Changes-healthy L name g (items ++ item ∷ []) error64 (length items + 1) _ healthy
      (pushes_back L name item g healthy.reads front items q room)

-- On a database whose reads and writes succeed and which holds the queue with these items, with a
-- number left at the front, `qpush_front` returns the new size and puts the item before the others,
-- and no key but the queue's own changes.
pub qpush_front_prepends :
    (L : LevelDb) (name item : Octets) (g : Geminidb L.State) (front : ℕ) (items : List Octets)
    → IsHealthy L g.ldb
    → IsQueue (L.contents g.ldb) name front items
    → RoomFront front items
    → ((qpush_front L name item g).0 ≡ length items + 1)
      × Done L name g.ldb (item ∷ items) (qpush_front L name item g).1.ldb
qpush_front_prepends L name item g front items healthy q room =
    Changes-healthy L name g (item ∷ items) error64 (length items + 1) _ healthy
      (pushes_front L name item g healthy.reads front items q room)
