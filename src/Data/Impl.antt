-- ===== src/Data/Impl.antt =====
-- `GEMINIDBImpl::size` and `GEMINIDBImpl::info` of src/data/geminidb_impl.cpp.
use geminidb.Prelude.{ℕ, suc, none, some, List, [], ◌∷◌, Octets, codes}
use geminidb.Data.LevelDb.{LevelDb}

module _ (L : LevelDb) where
  unfoldable pub size : L.State → ℕ
  size s = L.approximate_size s (codes "A") (suc b'z' ∷ [])

  -- The loop over `keys`.
  unfoldable pub properties : L.State → List Octets → List Octets
  properties s [] = []
  properties s (key ∷ keys) = elim (L.property s key) [
    | none ↦ properties s keys
    | some val ↦ key ∷ val ∷ properties s keys
  ]

  unfoldable pub info : L.State → List Octets
  unfolding properties
  info s = properties s (codes "leveldb.stats" ∷ [])
