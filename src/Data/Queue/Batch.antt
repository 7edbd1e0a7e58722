-- ===== src/Data/Queue/Batch.antt =====
-- Which batch a push or a pop hands to the database, from what it reads.
use geminidb.Prelude.{
  ℕ, ◌+◌, ◌^◌, ◌<◌, ◌≡◌, some, List, [], ◌∷◌, Octets, ◌==◌, if◌then◌else◌, arith, inl, inr,
  Bool-cases,
}
use geminidb.Prelude.Int.{pos, minus_one}
use geminidb.Prelude.Words.{to_le}
use geminidb.Data.LevelDb.{LevelDb, WriteOp}
use geminidb.Data.Keys.{
  encode_qsize_key, encode_qitem_key, qfront_seq, qback_seq, qitem_min_seq, qitem_max_seq,
  qitem_seq_init,
}
use geminidb.Data.Binlog
use geminidb.Data.Binlog.{Geminidb, transaction}
use geminidb.Data.Binlog.Commit.{committed}
use geminidb.Data.Queue.{error64, plus_one, less_one, qget_uint64, qget_by_seq, qsize, qpush, qpop}

-- What the first push into a queue writes.
abbrev pub first_ops : Octets → Octets → List WriteOp
first_ops name item =
    WriteOp.put (encode_qitem_key name qfront_seq) (to_le 8 qitem_seq_init)
    ∷ WriteOp.put (encode_qitem_key name qback_seq) (to_le 8 qitem_seq_init)
    ∷ WriteOp.put (encode_qitem_key name qitem_seq_init) item
    ∷ WriteOp.put (encode_qsize_key name) (to_le 8 1)
    ∷ []

-- What a push writes at the number `seq` of the end `end`, if it leaves `size` items.
abbrev pub push_ops : Octets → Octets → ℕ → ℕ → ℕ → List WriteOp
push_ops name item end seq size =
    WriteOp.put (encode_qitem_key name end) (to_le 8 seq)
    ∷ WriteOp.put (encode_qitem_key name seq) item
    ∷ WriteOp.put (encode_qsize_key name) (to_le 8 size)
    ∷ []

-- What a pop of the last item writes.
abbrev pub last_ops : Octets → ℕ → List WriteOp
last_ops name seq =
    WriteOp.delete (encode_qitem_key name seq)
    ∷ WriteOp.delete (encode_qsize_key name)
    ∷ WriteOp.delete (encode_qitem_key name qfront_seq)
    ∷ WriteOp.delete (encode_qitem_key name qback_seq)
    ∷ []

-- What a pop of another item writes, if it leaves `size` items and moves the end to `seq'`.
abbrev pub pop_ops : Octets → ℕ → ℕ → ℕ → ℕ → List WriteOp
pop_ops name end seq seq' size =
    WriteOp.delete (encode_qitem_key name seq)
    ∷ WriteOp.put (encode_qsize_key name) (to_le 8 size)
    ∷ WriteOp.put (encode_qitem_key name end) (to_le 8 seq')
    ∷ []

abbrev pub moved_out : ℕ → ℕ → ℕ
moved_out end seq = if end == qfront_seq then less_one seq else plus_one seq

abbrev pub moved_in : ℕ → ℕ → ℕ
moved_in end seq = if end == qfront_seq then plus_one seq else less_one seq

module _ (L : LevelDb) (name : Octets) (g : Geminidb L.State) where
  pub qpush_first :
      (item : Octets) (end : ℕ)
      → qget_uint64 L g.ldb name end ≡ (pos 0, 0)
      → qsize L g.ldb name ≡ 0
      → qpush L name item end g ≡ committed L error64 1 g (first_ops name item)
  unfolding qpush transaction committed Binlog.put
  qpush_first item end ends size = ground arith

  pub qpush_more :
      (item : Octets) (end old seq n : ℕ)
      → qget_uint64 L g.ldb name end ≡ (pos 1, old)
      → moved_out end old ≡ seq
      → qitem_min_seq < seq
      → seq < qitem_max_seq
      → qsize L g.ldb name ≡ n
      → n + 1 < 2 ^ 63
      → qpush L name item end g ≡ committed L error64 (n + 1) g (push_ops name item end seq (n + 1))
  unfolding qpush transaction committed Binlog.put
  qpush_more item end old seq n ends moved low high size fits = ground arith

  pub qpop_last :
      (end seq : ℕ) (item : Octets)
      → qget_uint64 L g.ldb name end ≡ (pos 1, seq)
      → qget_by_seq L g.ldb name seq ≡ (pos 1, some item)
      → qsize L g.ldb name ≡ 1
      → qpop L name end g
        ≡ committed L (minus_one, some item) (pos 1, some item) g (last_ops name seq)
  unfolding qpop transaction committed Binlog.put Binlog.delete
  qpop_last end seq item ends read size = ground arith

  pub qpop_more :
      (end seq n : ℕ) (item : Octets)
      → qget_uint64 L g.ldb name end ≡ (pos 1, seq)
      → qget_by_seq L g.ldb name seq ≡ (pos 1, some item)
      → qsize L g.ldb name ≡ n + 1
      → 0 < n
      → n < 2 ^ 63
      → qpop L name end g
        ≡ committed L
            (minus_one, some item)
            (pos 1, some item)
            g
            (pop_ops name end seq (moved_in end seq) n)
  unfolding qpop transaction committed Binlog.put Binlog.delete
  qpop_more end seq n item ends read size many fits = elim (Bool-cases (end == qfront_seq)) [
    | inl e ↦ rw e (ground arith steps 10000000)
    | inr e ↦ rw e (ground arith steps 10000000)
  ]
