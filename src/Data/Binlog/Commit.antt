-- ===== src/Data/Binlog/Commit.antt =====
-- What the commit of a transaction does.
use geminidb.Prelude.{◌≡◌, refl, ap, inl, inr, false, List, [], if◌then◌else◌, Bool-cases}
use geminidb.Data.LevelDb.{LevelDb, WriteOp, Contents, apply_ops}
use geminidb.Data.Binlog.{
  Geminidb, BinlogQueue, next, returns, Body, result_of, commit, commit_or, transaction, start,
  finish, Flow, ◌>>=◌, ◌>>◌,
}

module _ (L : LevelDb) where
  -- The contents after a batch is handed to the database: all of it, or nothing.
  abbrev pub after_write : L.State → List WriteOp → Contents
  after_write s ops = if (L.write s ops).0 then apply_ops ops (L.contents s) else L.contents s

  pub commit_or-result :
      {R : Type 0} (bad good : R) (g : Geminidb L.State)
      → result_of (commit_or L bad good g).0
        ≡ (if (L.write g.ldb g.binlogs.batch).0 then good else bad)
  unfolding commit_or commit
  commit_or-result bad good g = elim (Bool-cases (L.write g.ldb g.binlogs.batch).0) [
    | inl e ↦ rw e refl
    | inr e ↦ rw e refl
  ]

  pub commit_or-contents :
      {R : Type 0} (bad good : R) (g : Geminidb L.State)
      → L.contents (commit_or L bad good g).1.ldb ≡ after_write g.ldb g.binlogs.batch
  unfolding commit_or commit
  commit_or-contents bad good g = elim (Bool-cases (L.write g.ldb g.binlogs.batch).0) [
    | inl e ↦ rw e (L.write_ok g.ldb g.binlogs.batch e)
    | inr e ↦ rw e (L.write_failed g.ldb g.binlogs.batch e)
  ]

-- A transaction that has put `ops` in its batch.
abbrev pub loaded : {S : Type 0} → Geminidb S → List WriteOp → Geminidb S
loaded g ops = record g { binlogs = record (start g.binlogs) { batch = ops } }

-- The rest of a transaction, from where its first part has got to.
abbrev pub rest_of : {S R A : Type 0} → (A → Body S R R) → Flow R A × Geminidb S → R × Geminidb S
rest_of {S} {R} {A} k p =
    let r : Flow R R × Geminidb S = elim p.0 [ next a ↦ k a p.1 | returns r ↦ (returns r, p.1) ] in
    (result_of r.0, record r.1 { binlogs = finish r.1.binlogs })

module _ (L : LevelDb) {R : Type 0} where
  -- The result of a transaction that hands `ops` to the database, and the state it leaves.
  unfoldable pub committed : R → R → Geminidb L.State → List WriteOp → R × Geminidb L.State
  committed bad good g ops = rest_of (λ _. commit_or L bad good) (next tt, loaded g ops)

  pub committed-result :
      (bad good : R) (g : Geminidb L.State) (ops : List WriteOp)
      → (committed bad good g ops).0 ≡ (if (L.write g.ldb ops).0 then good else bad)
  unfolding committed
  committed-result bad good g ops = commit_or-result L bad good (loaded g ops)

  pub committed-contents :
      (bad good : R) (g : Geminidb L.State) (ops : List WriteOp)
      → L.contents (committed bad good g ops).1.ldb ≡ after_write L g.ldb ops
  unfolding committed
  committed-contents bad good g ops = commit_or-contents L bad good (loaded g ops)

  -- A body whose first part only fills the batch, and which then commits.
  pub transaction-commits :
      (puts : Body L.State R (Unit {0})) (bad good : R) (g : Geminidb L.State) (ops : List WriteOp)
      → puts (loaded g []) ≡ (next tt, loaded g ops)
      → transaction (puts >> commit_or L bad good) g ≡ committed bad good g ops
  unfolding transaction committed
  transaction-commits puts bad good g ops e = ap (rest_of (λ _. commit_or L bad good)) e

-- A body whose first part returns early has that result, and leaves the database.
pub transaction-returns :
    {S R A : Type 0} (m : Body S R A) (k : A → Body S R R) (r : R) (g h : Geminidb S)
    → m (loaded g []) ≡ (returns r, h)
    → transaction (m >>= k) g ≡ (r, record h { binlogs = finish h.binlogs })
unfolding transaction
transaction-returns m k r g h e = ap (rest_of k) e

-- Between two transactions the lock is free and there is no transaction's number.
pub record IsIdle (q : BinlogQueue) : Type 0 where
  pub free : q.mutex ≡ false
  pub no_transaction : q.tran_seq ≡ 0

-- Every transaction ends idle, whatever its body does: also when the body returns early.
pub transaction-IsIdle :
    {S R : Type 0} (body : Body S R R) (g : Geminidb S) → IsIdle (transaction body g).1.binlogs
unfolding transaction
transaction-IsIdle body g = record { free = refl; no_transaction = refl }
