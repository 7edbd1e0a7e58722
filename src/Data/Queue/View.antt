-- ===== src/Data/Queue/View.antt =====
-- What the cells of the database say of a queue, and how a batch changes them.
use geminidb.Prelude.{
  ℕ, suc, ◌+◌, ◌-◌, ◌^◌, ◌<◌, ◌≤◌, ◌≡◌, refl, sym, ap, ◌∙◌, ◌≢◌, true, false, Option, none, some,
  List, [], ◌∷◌, ◌++◌, Octets, length, All, octets_eq, octets_eq_iff, Bool-cases, inl, inr, arith,
}
use native.Mathlib.Nat.{add-zero}
use geminidb.Prelude.Int.{pos}
use geminidb.Prelude.Words.{to_le, length-to_le, of_le-to_le_eight}
use geminidb.Data.LevelDb.{LevelDb, read_of, WriteOp, Contents, apply_op, apply_ops}
use geminidb.Data.Keys.{
  encode_kv_key, encode_qsize_key, encode_qitem_key, qfront_seq, qback_seq, qitem_min_seq,
  qitem_max_seq,
}
use geminidb.Data.Keys.Distinct.{
  encode_qitem_key_inj, encode_qsize_key_inj, qsize_key-ne-qitem_key, kv_key-ne-qsize_key,
  kv_key-ne-qitem_key,
}
use geminidb.Data.Queue.{qget_by_seq, qget_uint64, number_in, qsize}

abbrev pub size_cell : List Octets → Option Octets
size_cell [] = none
size_cell (x ∷ xs) = some (to_le 8 (length (x ∷ xs)))

abbrev pub end_cell : List Octets → ℕ → Option Octets
end_cell [] seq = none
end_cell (x ∷ xs) seq = some (to_le 8 seq)

-- The items stand under the numbers from `seq` on.
abbrev pub Cells : Contents → Octets → ℕ → List Octets → Type 0
Cells m name seq [] = Unit {0}
Cells m name seq (x ∷ xs) = (m (encode_qitem_key name seq) ≡ some x) × Cells m name (suc seq) xs

abbrev pub InRange : ℕ → List Octets → Type 0
InRange front [] = Unit {0}
InRange front (x ∷ xs) = (qitem_min_seq < front) × (front + length xs < qitem_max_seq)

-- The contents hold the queue `name` with these items, the first of them at the number `front`.
pub record IsQueue (m : Contents) (name : Octets) (front : ℕ) (items : List Octets) : Type 0 where
  pub size_is : m (encode_qsize_key name) ≡ size_cell items
  pub front_is : m (encode_qitem_key name qfront_seq) ≡ end_cell items front
  pub back_is : m (encode_qitem_key name qback_seq) ≡ end_cell items (front + length items - 1)
  pub items_are : Cells m name front items
  pub in_range : InRange front items

-- No read of this state fails.
abbrev pub IsReadable : (L : LevelDb) → L.State → Type 0
IsReadable L s = (k : Octets) → L.get s k ≡ read_of (L.contents s k)

-- Besides, no write fails.
pub record IsHealthy (L : LevelDb) (s : L.State) : Type 0 where
  pub reads : IsReadable L s
  pub writes : (ops : List WriteOp) → (L.write s ops).0 ≡ true

-- A key that is none of the queue's.
abbrev pub Foreign : Octets → Octets → Type 0
Foreign name k =
    (encode_qsize_key name ≢ k) × ((seq : ℕ) → seq < 2 ^ 64 → encode_qitem_key name seq ≢ k)

module _ (L : LevelDb) (s : L.State) (readable : IsReadable L s) (name : Octets) where
  pub read_item :
      (seq : ℕ) (x : Octets)
      → L.contents s (encode_qitem_key name seq) ≡ some x
      → qget_by_seq L s name seq ≡ (pos 1, some x)
  unfolding qget_by_seq
  read_item seq x e = ground (arith, readable (encode_qitem_key name seq))

  pub read_number :
      (seq w : ℕ)
      → w < 2 ^ 64
      → L.contents s (encode_qitem_key name seq) ≡ some (to_le 8 w)
      → qget_uint64 L s name seq ≡ (pos 1, w)
  unfolding qget_uint64
  read_number seq w fits e =
      ap (number_in L) (read_item seq (to_le 8 w) e)
      ∙ rw (length-to_le 8 w, of_le-to_le_eight w fits) refl

  pub read_no_number :
      (seq : ℕ)
      → L.contents s (encode_qitem_key name seq) ≡ none
      → qget_uint64 L s name seq ≡ (pos 0, 0)
  unfolding qget_uint64 qget_by_seq
  read_no_number seq e = ground (arith, readable (encode_qitem_key name seq))

  pub read_size :
      (items : List Octets)
      → length items < 2 ^ 64
      → L.contents s (encode_qsize_key name) ≡ size_cell items
      → qsize L s name ≡ length items
  unfolding qsize
  read_size [] fits e = ground (arith, readable (encode_qsize_key name))
  read_size (x ∷ xs) fits e = ground (
    arith,
    readable (encode_qsize_key name),
    length-to_le 8 (length (x ∷ xs)),
    of_le-to_le_eight (length (x ∷ xs)) fits,
  )

-- The key that a record of a batch writes.
abbrev pub op_key : WriteOp → Octets
op_key (WriteOp.put k v) = k
op_key (WriteOp.delete k) = k

-- A batch leaves the keys that it does not write.
pub apply_ops-other :
    (ops : List WriteOp) (m : Contents) (k : Octets)
    → All (λ op. octets_eq (op_key op) k ≡ false) ops
    → apply_ops ops m k ≡ m k
unfolding apply_ops
apply_ops-other [] m k h = refl
apply_ops-other (WriteOp.put j v ∷ ops) m k (e, h) =
    apply_ops-other ops (apply_op (WriteOp.put j v) m) k h ∙ rw e refl
apply_ops-other (WriteOp.delete j ∷ ops) m k (e, h) =
    apply_ops-other ops (apply_op (WriteOp.delete j) m) k h ∙ rw e refl

pub octets_eq-ne : (k j : Octets) → k ≢ j → octets_eq k j ≡ false
octets_eq-ne k j h = elim (Bool-cases (octets_eq k j)) [
  | inl e ↦ absurd (h ((octets_eq_iff k j).0 e))
  | inr e ↦ e
]

module _ (name : Octets) where
  pub item_apart :
      (a b : ℕ)
      → a < 2 ^ 64
      → b < 2 ^ 64
      → a ≢ b
      → octets_eq (encode_qitem_key name a) (encode_qitem_key name b) ≡ false
  item_apart a b ha hb h = octets_eq-ne _ _ (λ e. h (encode_qitem_key_inj name name a b ha hb e).1)

  pub size_apart : (seq : ℕ) → octets_eq (encode_qsize_key name) (encode_qitem_key name seq) ≡ false
  size_apart seq = octets_eq-ne _ _ (qsize_key-ne-qitem_key name name seq)

  pub apart_size : (seq : ℕ) → octets_eq (encode_qitem_key name seq) (encode_qsize_key name) ≡ false
  apart_size seq = octets_eq-ne _ _ (λ e. qsize_key-ne-qitem_key name name seq (sym e))

  -- Cells that a change of the contents leaves.
  pub Cells-same :
      (m m' : Contents) (seq : ℕ) (xs : List Octets)
      → ((j : ℕ)
          → seq ≤ j
          → j < seq + length xs
          → m' (encode_qitem_key name j) ≡ m (encode_qitem_key name j))
      → Cells m name seq xs
      → Cells m' name seq xs
  Cells-same m m' seq [] same cells = tt
  Cells-same m m' seq (x ∷ xs) same (here, there) = (
    same seq (omega arith) (omega arith) ∙ here,
    Cells-same m m' (suc seq) xs (λ j low high. same j (omega arith) (omega arith)) there,
  )

  pub Cells-append :
      (m : Contents) (seq : ℕ) (xs : List Octets) (x : Octets)
      → Cells m name seq xs
      → m (encode_qitem_key name (seq + length xs)) ≡ some x
      → Cells m name seq (xs ++ x ∷ [])
  Cells-append m seq [] x cells e = (rw add-zero at e, tt)
  Cells-append m seq (y ∷ xs) x (here, there) e =
      (here, Cells-append m (suc seq) xs x there (rw (moved seq (length xs)) at e))
    where
      moved : (a b : ℕ) → a + suc b ≡ suc a + b
      moved a b = omega arith

  pub Cells-init :
      (m : Contents) (seq : ℕ) (xs : List Octets) (x : Octets)
      → Cells m name seq (xs ++ x ∷ [])
      → Cells m name seq xs × (m (encode_qitem_key name (seq + length xs)) ≡ some x)
  Cells-init m seq [] x cells = (tt, rw add-zero cells.0)
  Cells-init m seq (y ∷ xs) x (here, there) =
      let (front, last) = Cells-init m (suc seq) xs x there in
      ((here, front), rw (moved seq (length xs)) last)
    where
      moved : (a b : ℕ) → a + suc b ≡ suc a + b
      moved a b = omega arith

-- The keys of values, and those of other queues, are foreign.
pub kv_key-Foreign : (name key : Octets) → Foreign name (encode_kv_key key)
kv_key-Foreign name key =
    (λ e. kv_key-ne-qsize_key key name (sym e), λ seq h e. kv_key-ne-qitem_key key name seq (sym e))

pub qsize_key-Foreign : (name other : Octets) → name ≢ other → Foreign name (encode_qsize_key other)
qsize_key-Foreign name other h = (
  λ e. h (encode_qsize_key_inj name other e),
  λ seq fits e. qsize_key-ne-qitem_key other name seq (sym e),
)

pub qitem_key-Foreign :
    (name other : Octets) (seq : ℕ)
    → seq < 2 ^ 64
    → name ≢ other
    → Foreign name (encode_qitem_key other seq)
qitem_key-Foreign name other seq fits h = (
  λ e. qsize_key-ne-qitem_key name other seq e,
  λ seq' fits' e. h (encode_qitem_key_inj name other seq' seq fits' fits e).0,
)

small_seq :
    (front : ℕ) (items : List Octets)
    → InRange front items
    → (j : ℕ) → front ≤ j
    → j < front + length items
    → j < 2 ^ 64
small_seq front [] r j h h' = absurd (omega arith)
small_seq front (x ∷ xs) r j h h' = omega arith

-- A queue that a change of the contents leaves.
pub IsQueue-same :
    (m m' : Contents) (name other : Octets) (front : ℕ) (items : List Octets)
    → name ≢ other
    → ((k : Octets) → Foreign name k → m' k ≡ m k)
    → IsQueue m other front items
    → IsQueue m' other front items
IsQueue-same m m' name other front items h same q = record {
  size_is = same _ (qsize_key-Foreign name other h) ∙ q.size_is;
  front_is = same _ (qitem_key-Foreign name other qfront_seq (omega arith) h) ∙ q.front_is;
  back_is = same _ (qitem_key-Foreign name other qback_seq (omega arith) h) ∙ q.back_is;
  items_are =
      Cells-same other m m' front items
        (λ j above below.
          same _
            (qitem_key-Foreign name other j (small_seq front items q.in_range j above below) h))
        q.items_are;
  in_range = q.in_range;
}
