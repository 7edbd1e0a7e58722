-- ===== src/Data/Queue/Change.antt =====
-- A push or a pop as one batch that turns a queue into another and touches no other key.
use geminidb.Prelude.{ℕ, ◌≡◌, refl, ap, ◌∙◌, false, List, Octets, All, octets_eq}
use geminidb.Data.LevelDb.{LevelDb, WriteOp, Contents, apply_ops}
use geminidb.Data.Binlog.{Geminidb}
use geminidb.Data.Binlog.Commit.{committed, committed-result, committed-contents}
use geminidb.Data.Queue.View.{IsQueue, IsHealthy, Foreign, op_key, apply_ops-other}

-- The batch `ops`, and the queue that it makes.
pub record Batch (m : Contents) (name : Octets) (items : List Octets) : Type 0 where
  pub ops : List WriteOp
  pub front : ℕ
  pub queue : IsQueue (apply_ops ops m) name front items
  pub own : (k : Octets) → Foreign name k → All (λ op. octets_eq (op_key op) k ≡ false) ops

-- The database has the new queue, and the other keys as they were.
pub record Done (L : LevelDb) (name : Octets) (old : L.State) (items : List Octets) (s : L.State)
    : Type 0 where
  pub front : ℕ
  pub queue : IsQueue (L.contents s) name front items
  pub others : (k : Octets) → Foreign name k → L.contents s k ≡ L.contents old k

module _ (L : LevelDb) {R : Type 0} (name : Octets) (g : Geminidb L.State)
    (items : List Octets) where
  pub record Changes (bad good : R) (r : R × Geminidb L.State) : Type 0 where
    pub batch : Batch (L.contents g.ldb) name items
    pub does : r ≡ committed L bad good g batch.ops

  -- On a healthy database the change is done, with the good result.
  pub Changes-healthy :
      (bad good : R) (r : R × Geminidb L.State)
      → IsHealthy L g.ldb
      → Changes bad good r
      → (r.0 ≡ good) × Done L name g.ldb items r.1.ldb
  Changes-healthy bad good r healthy c =
      let b = c.batch in
      let written : L.contents (committed L bad good g b.ops).1.ldb
          ≡ apply_ops b.ops (L.contents g.ldb) =
        committed-contents L bad good g b.ops ∙ rw (healthy.writes b.ops) refl in
      (
        ap (λ p. p.0) c.does ∙ committed-result L bad good g b.ops ∙ rw (healthy.writes b.ops) refl,
        rw c.does (record {
          front = b.front;
          queue = rw written b.queue;
          others = λ k f. rw written (apply_ops-other b.ops (L.contents g.ldb) k (b.own k f));
        }),
      )
