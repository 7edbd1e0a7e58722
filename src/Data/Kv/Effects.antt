-- ===== src/Data/Kv/Effects.antt =====
-- What the methods of src/data/t_kv.cpp do to the contents of the database.
use geminidb.Prelude.{
  suc, ◌-◌, ◌/◌, ◌≡◌, refl, ap, ◌∙◌, ◌≢◌, Bool, true, false, some, List, [], ◌∷◌, ◌++◌, Octets,
  length, arith, append-nil, append_assoc, not, ◌&&◌, ◌*◌,
}
use geminidb.Prelude.Int.{ℤ, pos, minus_one, int_of_word}
use geminidb.Data.LevelDb.{LevelDb, WriteOp}
use geminidb.Data.Keys.{encode_kv_key}
use geminidb.Data.Binlog
use geminidb.Data.Binlog.{Geminidb, Flow, Body, transaction, change, return, commit_or, finish}
use geminidb.Data.Binlog.Commit.{committed, loaded, transaction-commits, transaction-returns}
use geminidb.Data.Kv.{is_empty, set, del, put_pairs, multi_set, delete_all, multi_del}

module _ (L : LevelDb) where
  pub set_effect :
      (key val : Octets) (g : Geminidb L.State)
      → key ≢ []
      → set L key val g ≡ committed L minus_one (pos 1) g (WriteOp.put (encode_kv_key key) val ∷ [])
  unfolding set Binlog.put
  set_effect [] val g h = absurd (h refl)
  set_effect (c ∷ cs) val g h =
      transaction-commits L (change (Binlog.put (encode_kv_key (c ∷ cs)) val)) minus_one (pos 1) g _
        refl

  pub del_effect :
      (key : Octets) (g : Geminidb L.State)
      → del L key g ≡ committed L minus_one (pos 1) g (WriteOp.delete (encode_kv_key key) ∷ [])
  unfolding del Binlog.delete
  del_effect key g =
      transaction-commits L (change (Binlog.delete (encode_kv_key key))) minus_one (pos 1) g _ refl

  -- What `multi_set` is given: each key with its value behind it.
  abbrev pub interleave : List (Octets × Octets) → List Octets
  interleave [] = []
  interleave ((key, val) ∷ kvs) = key ∷ val ∷ interleave kvs

  abbrev pub put_ops : List (Octets × Octets) → List WriteOp
  put_ops [] = []
  put_ops ((key, val) ∷ kvs) = WriteOp.put (encode_kv_key key) val ∷ put_ops kvs

  abbrev pub delete_ops : List Octets → List WriteOp
  delete_ops [] = []
  delete_ops (key ∷ keys) = WriteOp.delete (encode_kv_key key) ∷ delete_ops keys

  abbrev pub all_filled : List (Octets × Octets) → Bool
  all_filled [] = true
  all_filled ((key, val) ∷ kvs) = not (is_empty key) && all_filled kvs

  pub length-interleave : (kvs : List (Octets × Octets)) → length (interleave kvs) ≡ 2 * length kvs
  length-interleave [] = omega arith
  length-interleave ((key, val) ∷ kvs) = omega (arith, length-interleave kvs)

  put_pairs-filled :
      (kvs : List (Octets × Octets))
      → all_filled kvs ≡ true
      → (puts : Body L.State ℤ (Unit {0})) × (put_pairs L (interleave kvs) ≡ some puts)
        × ((g : Geminidb L.State) (ops : List WriteOp)
            → puts (loaded g ops) ≡ (Flow.next tt, loaded g (ops ++ put_ops kvs)))
  unfolding put_pairs Binlog.put
  put_pairs-filled [] h = ((λ g. (Flow.next tt, g)), refl, λ g ops. rw (append-nil ops) refl)
  put_pairs-filled (([], val) ∷ kvs) h = cc
  put_pairs-filled ((c ∷ key, val) ∷ kvs) h =
      let (puts, e, runs) = put_pairs-filled kvs h in
      (
        (λ g. puts (record g { binlogs = Binlog.put (encode_kv_key (c ∷ key)) val g.binlogs })),
        rw e refl,
        λ g ops.
            runs g (ops ++ WriteOp.put (encode_kv_key (c ∷ key)) val ∷ [])
            ∙ rw (append_assoc ops) refl,
      )

  put_pairs-empty :
      (kvs : List (Octets × Octets))
      → all_filled kvs ≡ false
      → (puts : Body L.State ℤ (Unit {0})) × (put_pairs L (interleave kvs) ≡ some puts)
        × ((g : Geminidb L.State) (ops : List WriteOp)
            → (ops' : List WriteOp) × (puts (loaded g ops) ≡ (Flow.returns (pos 0), loaded g ops')))
  unfolding put_pairs Binlog.put
  put_pairs-empty [] h = cc
  put_pairs-empty (([], val) ∷ kvs) h = (return (pos 0), refl, λ g ops. (ops, refl))
  put_pairs-empty ((c ∷ key, val) ∷ kvs) h =
      let (puts, e, runs) = put_pairs-empty kvs h in
      (
        (λ g. puts (record g { binlogs = Binlog.put (encode_kv_key (c ∷ key)) val g.binlogs })),
        rw e refl,
        λ g ops. runs g (ops ++ WriteOp.put (encode_kv_key (c ∷ key)) val ∷ []),
      )

  -- `multi_set` of keys that are all filled is one write of all the pairs, in their order: its
  -- result is the number of pairs as an `int`, or -1 if the write fails.
  pub multi_set_filled :
      (cmd : Octets) (kvs : List (Octets × Octets)) (g : Geminidb L.State)
      → all_filled kvs ≡ true
      → multi_set L (cmd ∷ interleave kvs) 1 g
        ≡ some (committed L minus_one (int_of_word (length kvs)) g (put_ops kvs))
  unfolding multi_set
  multi_set_filled cmd kvs g h =
      let (puts, e, runs) = put_pairs-filled kvs h in
      let half : (suc (length (interleave kvs)) - 1) / 2 ≡ length kvs =
        omega (arith, length-interleave kvs) in
      rw (e, multi_set, half)
        (ap some (
          transaction-commits L puts minus_one (int_of_word (length kvs)) g (put_ops kvs)
            (runs g [])))

  -- `multi_set` with an empty key among its keys returns 0 and writes none of the pairs.
  pub multi_set_empty_key :
      (cmd : Octets) (kvs : List (Octets × Octets)) (g : Geminidb L.State)
      → all_filled kvs ≡ false
      → (h : Geminidb L.State) × (multi_set L (cmd ∷ interleave kvs) 1 g ≡ some (pos 0, h))
        × (h.ldb ≡ g.ldb)
  unfolding multi_set
  multi_set_empty_key cmd kvs g h =
      let (puts, e, runs) = put_pairs-empty kvs h in
      let (ops, stops) = runs g [] in
      (
        record g { binlogs = finish (loaded g ops).binlogs },
        rw (e, multi_set)
            (ap some (
              transaction-returns puts
                (λ _. commit_or L minus_one (int_of_word ((suc (length (interleave kvs)) - 1) / 2)))
                (pos 0) g (loaded g ops) stops)),
        refl,
      )

  delete_all_lem :
      (keys : List Octets) (g : Geminidb L.State) (ops : List WriteOp)
      → delete_all L keys (loaded g ops) ≡ (Flow.next tt, loaded g (ops ++ delete_ops keys))
  unfolding delete_all Binlog.delete
  delete_all_lem [] g ops = rw (append-nil ops) refl
  delete_all_lem (key ∷ keys) g ops =
      delete_all_lem keys g (ops ++ WriteOp.delete (encode_kv_key key) ∷ [])
      ∙ rw (append_assoc ops) refl

  -- `multi_del` is one write that deletes all the keys: its result is the number of keys as an `int`, or -1 if
  -- the write fails.
  pub multi_del_effect :
      (cmd : Octets) (keys : List Octets) (g : Geminidb L.State)
      → multi_del L (cmd ∷ keys) 1 g
        ≡ committed L minus_one (int_of_word (length keys)) g (delete_ops keys)
  unfolding multi_del
  multi_del_effect cmd keys g =
      let count : suc (length keys) - 1 ≡ length keys = omega arith in
      rw count (
        transaction-commits L (delete_all L keys) minus_one (int_of_word (length keys)) g
          (delete_ops keys) (delete_all_lem keys g []))
