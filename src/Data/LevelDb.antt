-- ===== src/Data/LevelDb.antt =====
-- What src/data calls of the database library (deps/leveldb-1.18, which is not modelled): `DB::Get`,
-- `DB::Write` of a `WriteBatch`, `DB::GetApproximateSizes` and `DB::GetProperty`.
use geminidb.Prelude.{
  ℕ, ◌≡◌, refl, ◌⊎◌, inl, inr, Bool, true, false, Option, none, some, List, [], ◌∷◌, Octets,
  octets_eq, if◌then◌else◌, Bool-cases,
}

-- The result of `DB::Get`: `ok` with the value, `IsNotFound`, or any other status.
pub data Read : Type 0 where
  found : Octets → Read
  not_found failed : Read

abbrev pub read_of : Option Octets → Read
read_of none = not_found
read_of (some v) = found v

-- A record of a `WriteBatch`.
pub data WriteOp : Type 0 where
  put : Octets → Octets → WriteOp
  delete : Octets → WriteOp

abbrev pub Contents : Type 0
Contents = Octets → Option Octets

abbrev pub apply_op : WriteOp → Contents → Contents
apply_op (put k v) m j = if octets_eq k j then some v else m j
apply_op (delete k) m j = if octets_eq k j then none else m j

-- The records of a batch take effect in order.
unfoldable pub apply_ops : List WriteOp → Contents → Contents
apply_ops [] m = m
apply_ops (op ∷ ops) m = apply_ops ops (apply_op op m)

-- A read may fail, and if it does not, it reads what is there. A write takes effect as a whole or
-- not at all.
pub record LevelDb : Type 1 where
  pub State : Type 0
  pub get : State → Octets → Read
  pub write : State → List WriteOp → Bool × State
  pub approximate_size : State → Octets → Octets → ℕ
  pub property : State → Octets → Option Octets
  pub contents : State → Contents
  pub get_reads : (s : State) (k : Octets) → (get s k ≡ failed) ⊎ (get s k ≡ read_of (contents s k))
  pub write_ok :
      (s : State) (ops : List WriteOp)
      → (write s ops).0 ≡ true
      → contents (write s ops).1 ≡ apply_ops ops (contents s)
  pub write_failed :
      (s : State) (ops : List WriteOp)
      → (write s ops).0 ≡ false
      → contents (write s ops).1 ≡ contents s

-- A database in memory, with switches that make its reads or its writes fail.
pub record Memory : Type 0 where
  pub cells : Contents
  pub can_read : Bool
  pub can_write : Bool

abbrev pub memory_get : Memory → Octets → Read
memory_get s k = if s.can_read then read_of (s.cells k) else failed

abbrev pub memory_write : Memory → List WriteOp → Bool × Memory
memory_write s ops =
    if s.can_write then (true, record s { cells = apply_ops ops s.cells }) else (false, s)

pub get_reads_lem :
    (s : Memory) (k : Octets) → (memory_get s k ≡ failed) ⊎ (memory_get s k ≡ read_of (s.cells k))
get_reads_lem s k = elim (Bool-cases s.can_read) [
  | inl e ↦ inr (rw e refl)
  | inr e ↦ inl (rw e refl)
]

pub write_ok_lem :
    (s : Memory) (ops : List WriteOp)
    → (memory_write s ops).0 ≡ true
    → (memory_write s ops).1.cells ≡ apply_ops ops s.cells
write_ok_lem s ops h = elim (Bool-cases s.can_write) [ inl e ↦ rw e refl | inr e ↦ cc (rw e at h) ]

pub write_failed_lem :
    (s : Memory) (ops : List WriteOp)
    → (memory_write s ops).0 ≡ false
    → (memory_write s ops).1.cells ≡ s.cells
write_failed_lem s ops h = elim (Bool-cases s.can_write) [
  | inl e ↦ cc (rw e at h)
  | inr e ↦ rw e refl
]

abbrev pub memory : LevelDb
memory = record {
  State = Memory;
  get = memory_get;
  write = memory_write;
  approximate_size = λ s a b. 0;
  property = λ s k. none;
  contents = λ s. s.cells;
  get_reads = get_reads_lem;
  write_ok = write_ok_lem;
  write_failed = write_failed_lem;
}
