-- ===== src/Data/Queue/Peek.antt =====
-- What the readers of a queue return, and what a pop or a push does at an empty or a full queue.
use geminidb.Prelude.{
  ℕ, suc, ◌+◌, ◌-◌, ◌^◌, ◌<◌, ◌≤◌, ◌≡◌, refl, ap, ◌∙◌, ◌⊎◌, inl, inr, true, Option, none, some,
  List, [], ◌∷◌, Octets, length, leb, ◌||◌, arith,
}
use native.Mathlib.Nat.{add-zero}
use geminidb.Prelude.Int.{ℤ, pos}
use geminidb.Prelude.Words.{to_le}
use geminidb.Data.LevelDb.{LevelDb}
use geminidb.Data.Keys.{encode_qitem_key, qfront_seq, qback_seq, qitem_min_seq, qitem_max_seq}
use geminidb.Data.Binlog.{Geminidb, transaction}
use geminidb.Data.Queue.{error64, qget_uint64, qsize, qfront, qback, qpush, qpop}
use geminidb.Data.Queue.View.{
  IsQueue, IsReadable, read_item, read_number, read_no_number, read_size, Cells,
}
use geminidb.Data.Queue.Batch.{moved_out}

abbrev pub head_of : List Octets → ℤ × Option Octets
head_of [] = (pos 0, none)
head_of (x ∷ xs) = (pos 1, some x)

abbrev pub last_of : List Octets → ℤ × Option Octets
last_of [] = (pos 0, none)
last_of (x ∷ []) = (pos 1, some x)
last_of (x ∷ y ∷ xs) = last_of (y ∷ xs)

module _ (L : LevelDb) (name : Octets) (front : ℕ) where
  fits :
      (s : L.State) (items : List Octets)
      → IsQueue (L.contents s) name front items
      → length items < 2 ^ 64
  fits s [] q = omega arith
  fits s (x ∷ xs) q = omega (arith, q.in_range.1)

  -- On a readable database that holds the queue with these items, `qsize` returns their number.
  pub qsize_counts :
      (s : L.State) (items : List Octets)
      → IsReadable L s
      → IsQueue (L.contents s) name front items
      → qsize L s name ≡ length items
  qsize_counts s items readable q = read_size L s readable name items (fits s items q) q.size_is

  -- On a readable database that holds the queue with these items, `qfront` returns 1 with the first
  -- of them, or 0 if there is none.
  pub qfront_peeks :
      (s : L.State) (items : List Octets)
      → IsReadable L s
      → IsQueue (L.contents s) name front items
      → qfront L s name ≡ head_of items
  unfolding qfront
  qfront_peeks s [] readable q = rw (read_no_number L s readable name qfront_seq q.front_is) refl
  qfront_peeks s (x ∷ xs) readable q = ground (
    arith,
    read_number L s readable name qfront_seq front (omega (arith, q.in_range)) q.front_is,
    read_item L s readable name front x q.items_are.0,
  )

  -- The cell of the last item.
  last_cell :
      (m : Octets → Option Octets) (seq : ℕ) (x : Octets) (xs : List Octets)
      → Cells m name seq (x ∷ xs)
      → (z : Octets) × (m (encode_qitem_key name (seq + length xs)) ≡ some z)
        × (last_of (x ∷ xs) ≡ (pos 1, some z))
  last_cell m seq x [] cells = (x, rw add-zero cells.0, refl)
  last_cell m seq x (y ∷ xs) (here, there) =
      let (z, at, e) = last_cell m (suc seq) y xs there in (z, rw (moved seq (length xs)) at, e)
    where
      moved : (a b : ℕ) → a + suc b ≡ suc a + b
      moved a b = omega arith

  -- On a readable database that holds the queue with these items, `qback` returns 1 with the last
  -- of them, or 0 if there is none.
  pub qback_peeks :
      (s : L.State) (items : List Octets)
      → IsReadable L s
      → IsQueue (L.contents s) name front items
      → qback L s name ≡ last_of items
  unfolding qback
  qback_peeks s [] readable q = rw (read_no_number L s readable name qback_seq q.back_is) refl
  qback_peeks s (x ∷ xs) readable q =
      let (z, at, e) = last_cell (L.contents s) front x xs q.items_are in
      let back : front + suc (length xs) - 1 ≡ front + length xs = omega arith in
      let high : front + length xs < qitem_max_seq = q.in_range.1 in
      ground (
        arith,
        e,
        read_number L s readable name qback_seq (front + length xs) (omega arith)
            (q.back_is ∙ ap (λ w. some (to_le 8 w)) back),
        read_item L s readable name (front + length xs) z at,
      )

  qpop-none :
      (g : Geminidb L.State) (end : ℕ)
      → qget_uint64 L g.ldb name end ≡ (pos 0, 0)
      → ((qpop L name end g).0 ≡ (pos 0, none)) × ((qpop L name end g).1.ldb ≡ g.ldb)
  unfolding qpop transaction
  qpop-none g end e = rw e (refl, refl)

  -- On a readable database that holds the empty queue, a pop at either end returns 0 and leaves the
  -- database.
  pub qpop_empty :
      (g : Geminidb L.State) (end : ℕ)
      → (end ≡ qfront_seq) ⊎ (end ≡ qback_seq)
      → IsReadable L g.ldb
      → IsQueue (L.contents g.ldb) name front []
      → ((qpop L name end g).0 ≡ (pos 0, none)) × ((qpop L name end g).1.ldb ≡ g.ldb)
  qpop_empty g end (inl e) readable q =
      qpop-none g end (read_no_number L g.ldb readable name end (rw e q.front_is))
  qpop_empty g end (inr e) readable q =
      qpop-none g end (read_no_number L g.ldb readable name end (rw e q.back_is))

  -- A push at an end that has no number left returns -1 and leaves the database.
  pub qpush_full :
      (g : Geminidb L.State) (item : Octets) (end seq : ℕ)
      → qget_uint64 L g.ldb name end ≡ (pos 1, seq)
      → (moved_out end seq ≤ qitem_min_seq) ⊎ (qitem_max_seq ≤ moved_out end seq)
      → ((qpush L name item end g).0 ≡ error64) × ((qpush L name item end g).1.ldb ≡ g.ldb)
  unfolding qpush transaction
  qpush_full g item end seq reads out =
      let refused : (leb (moved_out end seq) qitem_min_seq || leb qitem_max_seq (moved_out end seq))
          ≡ true =
        ground arith in
      rw (reads, refused) (refl, refl)
