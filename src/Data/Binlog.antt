-- ===== src/Data/Binlog.antt =====
-- src/data/binlog.h and src/data/binlog.cpp: the write batch of a transaction, and the fields of
-- `GEMINIDBImpl` (src/data/geminidb_impl.h) that the operations use. `ldb` and `binlogs->db` point to
-- one database, which is the field `ldb` here. The operations of one database run one at a time: a
-- transaction holds `mutex` from its start to its end.
pub mod Commit
pub mod Safe
use geminidb.Prelude.{ℕ, ◌-◌, Bool, true, false, List, [], ◌∷◌, ◌++◌, Octets, ltb, if◌then◌else◌}
use geminidb.Data.LevelDb.{LevelDb, WriteOp}

pub record BinlogQueue : Type 0 where
  pub min_seq : ℕ
  pub last_seq : ℕ
  pub tran_seq : ℕ
  pub capacity : ℕ
  pub batch : List WriteOp
  pub enabled : Bool
  -- whether the lock is held
  pub mutex : Bool

-- The constructor: `last_seq` is 0 when it is compared.
abbrev pub init : Bool → ℕ → BinlogQueue
init enabled capacity = record {
  min_seq = if ltb capacity 0 then 0 - capacity else 0;
  last_seq = 0;
  tran_seq = 0;
  capacity = capacity;
  batch = [];
  enabled = enabled;
  mutex = false;
}

unfoldable pub begin : BinlogQueue → BinlogQueue
begin q = record q { tran_seq = q.last_seq; batch = [] }

unfoldable pub rollback : BinlogQueue → BinlogQueue
rollback q = record q { tran_seq = 0 }

unfoldable pub put : Octets → Octets → BinlogQueue → BinlogQueue
put key value q = record q { batch = q.batch ++ WriteOp.put key value ∷ [] }

unfoldable pub delete : Octets → BinlogQueue → BinlogQueue
delete key q = record q { batch = q.batch ++ WriteOp.delete key ∷ [] }

pub record Geminidb (S : Type 0) : Type 0 where
  pub ldb : S
  pub binlogs : BinlogQueue

-- `db->Write(write_opts, &batch)`; the status is whether it is ok.
unfoldable pub commit : (L : LevelDb) → Geminidb L.State → Bool × Geminidb L.State
commit L g =
    let (ok, s) = L.write g.ldb g.binlogs.batch in
    if ok
    then (
      true,
      record {
        ldb = s;
        binlogs = record g.binlogs { last_seq = g.binlogs.tran_seq; tran_seq = 0 };
      },
    )
    else (false, record g { ldb = s })

-- The body of a method: it goes on with a value, or it returns early.
pub data Flow (R A : Type 0) : Type 0 where
  next : A → Flow R A
  returns : R → Flow R A

abbrev pub Body : Type 0 → Type 0 → Type 0 → Type 0
Body S R A = Geminidb S → Flow R A × Geminidb S

infixl 5 ◌>>=◌ ◌>>◌
abbrev pub ◌>>=◌ : {S R A B : Type 0} → Body S R A → (A → Body S R B) → Body S R B
◌>>=◌ m f g = elim (m g).0 [ next a ↦ f a (m g).1 | returns r ↦ (returns r, (m g).1) ]

abbrev pub ◌>>◌ : {S R B : Type 0} → Body S R (Unit {0}) → Body S R B → Body S R B
m >> k = m >>= λ _. k

abbrev pub return : {S R A : Type 0} → R → Body S R A
return r g = (returns r, g)

abbrev pub return_if : {S R : Type 0} → Bool → R → Body S R (Unit {0})
return_if true r g = (returns r, g)
return_if false r g = (next tt, g)

abbrev pub gets : {S R A : Type 0} → (S → A) → Body S R A
gets f g = (next (f g.ldb), g)

abbrev pub change : {S R : Type 0} → (BinlogQueue → BinlogQueue) → Body S R (Unit {0})
change f g = (next tt, record g { binlogs = f g.binlogs })

-- `commit` and the test of its status, which ends each of the methods.
pub commit_or : (L : LevelDb) → {R : Type 0} → R → R → Body L.State R R
commit_or L bad good g = let (ok, h) = commit L g in if ok then (next good, h) else (returns bad, h)

-- The constructor and the destructor of `Transaction`, around a method's body.
unfoldable pub start : BinlogQueue → BinlogQueue
unfolding begin
start q = begin (record q { mutex = true })

unfoldable pub finish : BinlogQueue → BinlogQueue
unfolding rollback
finish q = record (rollback q) { mutex = false }

abbrev pub result_of : {R : Type 0} → Flow R R → R
result_of (next r) = r
result_of (returns r) = r

unfoldable pub transaction : {S R : Type 0} → Body S R R → Geminidb S → R × Geminidb S
unfolding start finish
transaction body g =
    let (r, h) = body (record g { binlogs = start g.binlogs }) in
    (result_of r, record h { binlogs = finish h.binlogs })
