-- ===== src/Data/Binlog/Safe.antt =====
-- Methods that change the contents only if they succeed: one rule for each way to build a body.
use geminidb.Prelude.{◌≡◌, refl, ap, subst, ◌∙◌, inl, inr, Bool, true, false, Bool-cases}
use geminidb.Data.LevelDb.{LevelDb}
use geminidb.Data.Binlog.{
  Geminidb, Flow, Body, next, returns, result_of, ◌>>=◌, ◌>>◌, return_if, gets, commit_or,
  transaction,
}
use geminidb.Data.Binlog.Commit.{commit_or-result, commit_or-contents}

-- A step that leaves the database.
pub record Keeps {S R A : Type 0} (m : Body S R A) : Type 0 where
  pub at : (g : Geminidb S) → (m g).1.ldb ≡ g.ldb

-- A body that leaves the contents whenever its result is a failure.
pub record IsSafe (L : LevelDb) {R : Type 0} (Fails : R → Type 0) (m : Body L.State R R)
    : Type 0 where
  pub at :
      (g : Geminidb L.State) → Fails (result_of (m g).0) → L.contents (m g).1.ldb ≡ L.contents g.ldb

module _ {S R : Type 0} where
  pub Keeps-gets : {A : Type 0} (f : S → A) → Keeps {S = S} {R = R} (gets f)
  Keeps-gets f = record { at = λ g. refl }

  pub Keeps-return_if : (b : Bool) (r : R) → Keeps {S = S} (return_if b r)
  Keeps-return_if true r = record { at = λ g. refl }
  Keeps-return_if false r = record { at = λ g. refl }

module _ (L : LevelDb) {R : Type 0} (Fails : R → Type 0) where
  pub IsSafe-bind :
      {A : Type 0} (m : Body L.State R A) (f : A → Body L.State R R)
      → Keeps m
      → ((a : A) → IsSafe L Fails (f a))
      → IsSafe L Fails (m >>= f)
  IsSafe-bind {A} m f keeps safe = record { at = λ g. at_flow g (m g).0 (m g).1 (keeps.at g) }
    where
      at_flow :
          (g : Geminidb L.State) (r : Flow R A) (h : Geminidb L.State)
          → h.ldb ≡ g.ldb
          → Fails (
              result_of
                (elim r as (λ _. Flow R R × Geminidb L.State) [
                  | next a ↦ f a h
                  | returns x ↦ (returns x, h)
                ]).0)
          → L.contents
              (elim r as (λ _. Flow R R × Geminidb L.State) [
                | next a ↦ f a h
                | returns x ↦ (returns x, h)
              ]).1.ldb
            ≡ L.contents g.ldb
      at_flow g (next a) h e fails = (safe a).at h fails ∙ ap L.contents e
      at_flow g (returns x) h e fails = ap L.contents e

  pub IsSafe-unless :
      (b : Bool) (r : R) (m : Body L.State R R)
      → (b ≡ false → IsSafe L Fails m)
      → IsSafe L Fails (return_if b r >> m)
  IsSafe-unless true r m safe = record { at = λ g fails. refl }
  IsSafe-unless false r m safe = record { at = λ g fails. (safe refl).at g fails }

  pub IsSafe-commit : (bad good : R) → ¬ (Fails good) → IsSafe L Fails (commit_or L bad good)
  IsSafe-commit bad good works = record {
    at = λ g fails. elim (Bool-cases (L.write g.ldb g.binlogs.batch).0) [
      | inl e ↦ absurd (works (subst Fails (commit_or-result L bad good g ∙ rw e refl) fails))
      | inr e ↦ commit_or-contents L bad good g ∙ rw e refl
    ];
  }

  pub transaction-IsSafe :
      (m : Body L.State R R) (g : Geminidb L.State)
      → IsSafe L Fails m
      → Fails (transaction m g).0
      → L.contents (transaction m g).1.ldb ≡ L.contents g.ldb
  unfolding transaction
  transaction-IsSafe m g safe fails = safe.at _ fails
