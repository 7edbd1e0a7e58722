-- ===== src/Data/Kv/Lookup.antt =====
-- What `get` finds after `set` and `del`.
use geminidb.Prelude.{
  ◌≡◌, ◌≢◌, refl, sym, ap, ◌∙◌, Option, none, some, [], ◌∷◌, Octets, octets_eq, octets_eq_refl,
  false, arith,
}
use geminidb.Prelude.Int.{ℤ, pos, minus_one}
use geminidb.Data.LevelDb.{LevelDb, WriteOp, apply_ops}
use geminidb.Data.Keys.{encode_kv_key}
use geminidb.Data.Keys.Distinct.{encode_kv_key_inj}
use geminidb.Data.Binlog.{Geminidb}
use geminidb.Data.Binlog.Commit.{committed, committed-result, committed-contents}
use geminidb.Data.Queue.View.{IsReadable, IsHealthy, octets_eq-ne, op_key, apply_ops-other}
use geminidb.Data.Kv.{get, set, del}
use geminidb.Data.Kv.Effects.{set_effect, del_effect}

-- The `int` and the value of a lookup.
abbrev pub status_of : Option Octets → ℤ × Option Octets
status_of none = (pos 0, none)
status_of (some val) = (pos 1, some val)

module _ (L : LevelDb) where
  get_lem :
      (s : L.State) (key : Octets)
      → IsReadable L s
      → get L s key ≡ status_of (L.contents s (encode_kv_key key))
  unfolding get
  get_lem s key readable = ground (arith, readable (encode_kv_key key))

  module _ (g : Geminidb L.State) (healthy : IsHealthy L g.ldb) where
    written :
        (op : WriteOp)
        → ((committed L minus_one (pos 1) g (op ∷ [])).0 ≡ pos 1)
          × (L.contents (committed L minus_one (pos 1) g (op ∷ [])).1.ldb
              ≡ apply_ops (op ∷ []) (L.contents g.ldb))
    written op = (
      committed-result L minus_one (pos 1) g (op ∷ []) ∙ rw (healthy.writes (op ∷ [])) refl,
      committed-contents L minus_one (pos 1) g (op ∷ []) ∙ rw (healthy.writes (op ∷ [])) refl,
    )

    -- The lookups in a state whose contents are those of `g` with one record applied.
    found_after :
        (s : L.State) (op : WriteOp) (key : Octets) (val : Option Octets)
        → IsReadable L s
        → L.contents s ≡ apply_ops (op ∷ []) (L.contents g.ldb)
        → apply_ops (op ∷ []) (L.contents g.ldb) (encode_kv_key key) ≡ val
        → get L s key ≡ status_of val
    found_after s op key val readable after e =
        get_lem s key readable ∙ ap status_of (ap (λ m. m (encode_kv_key key)) after ∙ e)

    kept_after :
        (s : L.State) (op : WriteOp) (key other : Octets)
        → IsReadable L s
        → L.contents s ≡ apply_ops (op ∷ []) (L.contents g.ldb)
        → op_key op ≡ encode_kv_key key
        → key ≢ other
        → get L s other ≡ get L g.ldb other
    kept_after s op key other readable after k apart =
        let differs : octets_eq (encode_kv_key key) (encode_kv_key other) ≡ false =
          octets_eq-ne (encode_kv_key key) (encode_kv_key other)
            (λ e. apart (encode_kv_key_inj key other e)) in
        found_after s op other (L.contents g.ldb (encode_kv_key other)) readable after
          (apply_ops-other (op ∷ []) (L.contents g.ldb) (encode_kv_key other) (rw k differs, tt))
        ∙ sym (get_lem g.ldb other healthy.reads)

    -- `set` of a key that is not empty returns 1, and `get` finds the value then; it finds under
    -- every other key what it found before. The database is healthy before the call, and readable
    -- after it.
    pub get-set :
        (key val : Octets)
        → key ≢ []
        → IsReadable L (set L key val g).1.ldb
        → ((set L key val g).0 ≡ pos 1)
          × (get L (set L key val g).1.ldb key ≡ (pos 1, some val))
          × ((other : Octets)
              → key ≢ other
              → get L (set L key val g).1.ldb other ≡ get L g.ldb other)
    unfolding apply_ops
    get-set key val filled readable =
        let op = WriteOp.put (encode_kv_key key) val in
        let e = set_effect L key val g filled in
        let (result, contents) = written op in
        let after : L.contents (set L key val g).1.ldb ≡ apply_ops (op ∷ []) (L.contents g.ldb) =
          ap (λ r. L.contents r.1.ldb) e ∙ contents in
        (
          ap (λ r. r.0) e ∙ result,
          found_after (set L key val g).1.ldb op key (some val) readable after
              (rw (octets_eq_refl (encode_kv_key key)) refl),
          λ other apart. kept_after (set L key val g).1.ldb op key other readable after refl apart,
        )

    -- `del` returns 1, and `get` finds nothing then; it finds under every other key what it found
    -- before. The database is healthy before the call, and readable after it.
    pub get-del :
        (key : Octets)
        → IsReadable L (del L key g).1.ldb
        → ((del L key g).0 ≡ pos 1)
          × (get L (del L key g).1.ldb key ≡ (pos 0, none))
          × ((other : Octets) → key ≢ other → get L (del L key g).1.ldb other ≡ get L g.ldb other)
    unfolding apply_ops
    get-del key readable =
        let op = WriteOp.delete (encode_kv_key key) in
        let e = del_effect L key g in
        let (result, contents) = written op in
        let after : L.contents (del L key g).1.ldb ≡ apply_ops (op ∷ []) (L.contents g.ldb) =
          ap (λ r. L.contents r.1.ldb) e ∙ contents in
        (
          ap (λ r. r.0) e ∙ result,
          found_after (del L key g).1.ldb op key none readable after
              (rw (octets_eq_refl (encode_kv_key key)) refl),
          λ other apart. kept_after (del L key g).1.ldb op key other readable after refl apart,
        )
