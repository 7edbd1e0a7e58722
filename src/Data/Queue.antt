-- ===== src/Data/Queue.antt =====
-- src/data/t_queue.cpp: a queue is a size, the sequence numbers of its two ends, and an item for each
-- number between them. An `int` is a ℤ; an `int64_t` is its bit pattern, with -1 as `error64`.
pub mod View
pub mod Change
pub mod Batch
pub mod Pushed
pub mod Push
pub mod Popped
pub mod Pop
pub mod Errors
pub mod Peek
use geminidb.Prelude.{
  ℕ, ◌+◌, ◌-◌, ◌%◌, ◌^◌, Bool, true, false, Option, none, some, Octets, length, ltb, leb, ◌==◌,
  ◌&&◌, ◌||◌, if◌then◌else◌,
}
use geminidb.Prelude.Int.{ℤ, pos, minus_one, is_minus_one, int_eq}
use geminidb.Prelude.Words.{to_le, of_le}
use geminidb.Data.LevelDb.{LevelDb, found, not_found, failed}
use geminidb.Data.Keys.{
  encode_qsize_key, encode_qitem_key, qfront_seq, qback_seq, qitem_min_seq, qitem_max_seq,
  qitem_seq_init,
}
use geminidb.Data.Binlog
use geminidb.Data.Binlog.{
  Geminidb, Flow, next, Body, ◌>>=◌, ◌>>◌, return, return_if, gets, change, commit_or, transaction,
}

abbrev pub error64 : ℕ
error64 = 2 ^ 64 - 1

-- `seq + 1` and `seq - 1` at `uint64_t`, and `size + incr` at `int64_t`
abbrev pub plus_one : ℕ → ℕ
plus_one w = (w + 1) % 2 ^ 64

abbrev pub less_one : ℕ → ℕ
less_one w = (w + (2 ^ 64 - 1)) % 2 ^ 64

-- `size > 0` at `int64_t`
abbrev pub is_positive64 : ℕ → Bool
is_positive64 w = ltb 0 w && ltb w (2 ^ 63)

module _ (L : LevelDb) where
  -- the `int`, and what is written to `*val`
  unfoldable pub qget_by_seq : L.State → Octets → ℕ → ℤ × Option Octets
  qget_by_seq s name seq = elim (L.get s (encode_qitem_key name seq)) [
    | found v ↦ (pos 1, some v)
    | not_found ↦ (pos 0, none)
    | failed ↦ (minus_one, none)
  ]

  -- the eight bytes of a number, if there are eight
  number_in : ℤ × Option Octets → ℤ × ℕ
  number_in (ret, none) = (ret, 0)
  number_in (ret, some val) = if length val == 8 then (ret, of_le val) else (minus_one, 0)

  unfoldable pub qget_uint64 : L.State → Octets → ℕ → ℤ × ℕ
  unfolding number_in
  qget_uint64 s name seq = number_in (qget_by_seq s name seq)

  unfoldable pub qsize : L.State → Octets → ℕ
  qsize s name = elim (L.get s (encode_qsize_key name)) [
    | found v ↦ if length v == 8 then of_le v else error64
    | not_found ↦ 0
    | failed ↦ error64
  ]

  peek : L.State → Octets → ℤ × ℕ → ℤ × Option Octets
  peek s name (ret, seq) =
      if is_minus_one ret
      then (minus_one, none)
      else if int_eq ret (pos 0)
      then (pos 0, none)
      else qget_by_seq s name seq

  unfoldable pub qfront : L.State → Octets → ℤ × Option Octets
  unfolding peek
  qfront s name = peek s name (qget_uint64 s name qfront_seq)

  unfoldable pub qback : L.State → Octets → ℤ × Option Octets
  unfolding peek
  qback s name = peek s name (qget_uint64 s name qback_seq)

  module _ {R : Type 0} where
    -- Both return 0 whatever happens.
    qdel_one : Octets → ℕ → Body L.State R ℤ
    qdel_one name seq g =
        (next (pos 0), record g { binlogs = Binlog.delete (encode_qitem_key name seq) g.binlogs })

    qset_one : Octets → ℕ → Octets → Body L.State R ℤ
    qset_one name seq item g =
        (next (pos 0), record g { binlogs = Binlog.put (encode_qitem_key name seq) item g.binlogs })

    store_qsize : Octets → ℕ → ℕ → Body L.State R ℕ
    unfolding qdel_one
    store_qsize name old size =
        if old == error64
        then (λ g. (next error64, g))
        else if is_positive64 size
        then (do change (Binlog.put (encode_qsize_key name) (to_le 8 size)); (λ g. (next size, g)))
        else (do
          change (Binlog.delete (encode_qsize_key name))
          r ← qdel_one name qfront_seq
          r2 ← qdel_one name qback_seq
          (λ g. (next size, g)))

    -- The size is read from the database, and not from the batch.
    incr_qsize : Octets → (ℕ → ℕ) → Body L.State R ℕ
    unfolding store_qsize
    incr_qsize name incr = do size ← gets (λ s. qsize s name); store_qsize name size (incr size)

  -- the number of the new item, and the ends that it moves
  push_ends : Octets → ℕ → ℤ → ℕ → Body L.State ℕ ℕ
  unfolding qset_one
  push_ends name front_or_back_seq ret seq =
      if int_eq ret (pos 0)
      then (do
        r ← qset_one name qfront_seq (to_le 8 qitem_seq_init)
        return_if (is_minus_one r) error64
        r2 ← qset_one name qback_seq (to_le 8 qitem_seq_init)
        return_if (is_minus_one r2) error64
        (λ g. (next qitem_seq_init, g)))
      else (do
        let seq' = if front_or_back_seq == qfront_seq then less_one seq else plus_one seq
        r ← qset_one name front_or_back_seq (to_le 8 seq')
        return_if (is_minus_one r) error64
        (λ g. (next seq', g)))

  push_body : Octets → Octets → ℕ → Body L.State ℕ ℕ
  unfolding push_ends qset_one incr_qsize
  push_body name item front_or_back_seq = do
    (ret, old) ← gets (λ s. qget_uint64 s name front_or_back_seq)
    return_if (is_minus_one ret) error64
    seq ← push_ends name front_or_back_seq ret old
    return_if (leb seq qitem_min_seq || leb qitem_max_seq seq) error64
    r ← qset_one name seq item
    return_if (is_minus_one r) error64
    size ← incr_qsize name plus_one
    return_if (size == error64) error64
    commit_or L error64 size

  unfoldable pub qpush : Octets → Octets → ℕ → Geminidb L.State → ℕ × Geminidb L.State
  unfolding push_body
  qpush name item front_or_back_seq = transaction (push_body name item front_or_back_seq)

  unfoldable pub qpush_front : Octets → Octets → Geminidb L.State → ℕ × Geminidb L.State
  unfolding qpush
  qpush_front name item = qpush name item qfront_seq

  unfoldable pub qpush_back : Octets → Octets → Geminidb L.State → ℕ × Geminidb L.State
  unfolding qpush
  qpush_back name item = qpush name item qback_seq

  -- the end that a pop moves, where items are left
  pop_end : {R : Type 0} → Octets → ℕ → ℕ → ℕ → R → Body L.State R (Unit {0})
  unfolding qset_one
  pop_end name front_or_back_seq seq size bad =
      if is_positive64 size
      then (do
        r ←
            qset_one name front_or_back_seq
              (to_le 8 (if front_or_back_seq == qfront_seq then plus_one seq else less_one seq))
        return_if (is_minus_one r) bad)
      else (λ g. (next tt, g))

  -- The result is the `int` and what has been written to `*item`.
  pop_body : Octets → ℕ → Body L.State (ℤ × Option Octets) (ℤ × Option Octets)
  unfolding qdel_one incr_qsize pop_end
  pop_body name front_or_back_seq = do
    (ret, seq) ← gets (λ s. qget_uint64 s name front_or_back_seq)
    return_if (is_minus_one ret) (minus_one, none)
    return_if (int_eq ret (pos 0)) (pos 0, none)
    (ret2, item) ← gets (λ s. qget_by_seq s name seq)
    return_if (is_minus_one ret2) (minus_one, item)
    return_if (int_eq ret2 (pos 0)) (pos 0, item)
    r ← qdel_one name seq
    return_if (is_minus_one r) (minus_one, item)
    size ← incr_qsize name less_one
    return_if (size == error64) (minus_one, item)
    pop_end name front_or_back_seq seq size (minus_one, item)
    commit_or L (minus_one, item) (pos 1, item)

  unfoldable pub qpop : Octets → ℕ → Geminidb L.State → (ℤ × Option Octets) × Geminidb L.State
  unfolding pop_body
  qpop name front_or_back_seq = transaction (pop_body name front_or_back_seq)

  unfoldable pub qpop_front : Octets → Geminidb L.State → (ℤ × Option Octets) × Geminidb L.State
  unfolding qpop
  qpop_front name = qpop name qfront_seq

  unfoldable pub qpop_back : Octets → Geminidb L.State → (ℤ × Option Octets) × Geminidb L.State
  unfolding qpop
  qpop_back name = qpop name qback_seq
