-- ===== src/Data/Kv.antt =====
-- src/data/t_kv.cpp: `get`, `set`, `del`, `multi_set` and `multi_del`. An `int` is a ℤ.
pub mod Effects
pub mod Lookup
use geminidb.Prelude.{
  ℕ, ◌+◌, ◌-◌, ◌/◌, Bool, true, false, Option, none, some, List, [], ◌∷◌, Octets, length, drop, ltb,
  if◌then◌else◌,
}
use geminidb.Prelude.Int.{ℤ, pos, minus_one, int_of_word}
use geminidb.Data.LevelDb.{LevelDb, Read, found, not_found, failed}
use geminidb.Data.Keys.{encode_kv_key}
use geminidb.Data.Binlog
use geminidb.Data.Binlog.{Geminidb, Flow, Body, ◌>>=◌, ◌>>◌, return, change, commit_or, transaction}

abbrev pub is_empty : Octets → Bool
is_empty [] = true
is_empty (c ∷ cs) = false

module _ (L : LevelDb) where
  -- the `int`, and what is written to `*val`
  unfoldable pub get : L.State → Octets → ℤ × Option Octets
  get s key = elim (L.get s (encode_kv_key key)) [
    | found v ↦ (pos 1, some v)
    | not_found ↦ (pos 0, none)
    | failed ↦ (minus_one, none)
  ]

  unfoldable pub set : Octets → Octets → Geminidb L.State → ℤ × Geminidb L.State
  set key val g =
      if is_empty key
      then (pos 0, g)
      else transaction
          (do change (Binlog.put (encode_kv_key key) val); commit_or L minus_one (pos 1)) g

  unfoldable pub del : Octets → Geminidb L.State → ℤ × Geminidb L.State
  del key =
      transaction (do change (Binlog.delete (encode_kv_key key)); commit_or L minus_one (pos 1))

  -- The loop of `multi_set`: it returns 0 at an empty key. `none` is a read past the last element,
  -- at a key without a value.
  put_pairs : List Octets → Option (Body L.State ℤ (Unit {0}))
  put_pairs [] = some (λ g. (Flow.next tt, g))
  put_pairs (key ∷ []) = if is_empty key then some (return (pos 0)) else none
  put_pairs (key ∷ val ∷ kvs) =
      let rest = put_pairs kvs in
      if is_empty key then some (return (pos 0)) else elim rest [
        | none ↦ none
        | some r ↦ some (do change (Binlog.put (encode_kv_key key) val); r)
      ]

  unfoldable pub multi_set : List Octets → ℕ → Geminidb L.State → Option (ℤ × Geminidb L.State)
  unfolding put_pairs
  multi_set kvs offset g = elim (put_pairs (drop offset kvs)) [
    | none ↦ none
    | some puts ↦
        some
          (transaction (do puts; commit_or L minus_one (int_of_word ((length kvs - offset) / 2))) g)
  ]

  delete_all : List Octets → Body L.State ℤ (Unit {0})
  delete_all [] g = (Flow.next tt, g)
  delete_all (key ∷ keys) g =
      delete_all keys (record g { binlogs = Binlog.delete (encode_kv_key key) g.binlogs })

  unfoldable pub multi_del : List Octets → ℕ → Geminidb L.State → ℤ × Geminidb L.State
  unfolding delete_all
  multi_del keys offset =
      transaction (do
        delete_all (drop offset keys)
        commit_or L minus_one (int_of_word (length keys - offset)))
