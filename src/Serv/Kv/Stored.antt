-- ===== src/Serv/Kv/Stored.antt =====
-- The response of `multi_set`, when its write succeeds and when it fails.
use geminidb.Prelude.{
  ℕ, suc, ◌-◌, ◌%◌, ◌^◌, ◌<◌, ◌≤◌, ◌≡◌, refl, Bool, true, false, not, ◌||◌, some, List, [], ◌∷◌,
  Octets, codes, length, ltb, ◌==◌, if◌then◌else◌, arith,
}
use geminidb.Prelude.Int.{ℤ, pos, negsuc, minus_one, int_of_word, signed64, int64_of_int}
use geminidb.Util.Number.{decimal, print_int}
use geminidb.Util.Number.RoundTrip.{length-decimal}
use geminidb.Data.LevelDb.{LevelDb}
use geminidb.Data.Binlog.{Geminidb}
use geminidb.Data.Binlog.Commit.{committed, committed-result}
use geminidb.Data.Kv.Effects.{interleave, put_ops, all_filled, length-interleave, multi_set_filled}
use geminidb.Net.Response.{reply_int, add_int64}
use geminidb.Serv.Kv.{proc_multi_set}

-- The range of an `int`.
abbrev IsInt : ℤ → Type 0
IsInt (pos n) = n < 2 ^ 31
IsInt (negsuc n) = n < 2 ^ 31

int_of_word-IsInt : (w : ℕ) → IsInt (int_of_word w)
int_of_word-IsInt w = ground arith

signed64-negsuc : (n : ℕ) → n < 2 ^ 31 → signed64 (2 ^ 64 - n - 1) ≡ negsuc n
signed64-negsuc n h = ground arith

length-print_int : (v : ℤ) → IsInt v → length (print_int v) ≤ 19
unfolding print_int
length-print_int (pos n) h = omega (arith, length-decimal 18 n (omega arith))
length-print_int (negsuc n) h = omega (arith, length-decimal 17 (suc n) (omega arith))

signed64-int64_of_int : (v : ℤ) → IsInt v → signed64 (int64_of_int v) ≡ v
signed64-int64_of_int (pos n) h = ground arith
signed64-int64_of_int (negsuc n) h = signed64-negsuc n h

reply_int-int :
    (v : ℤ) → IsInt v → reply_int (pos 0) (int64_of_int v) [] ≡ some (codes "ok" ∷ print_int v ∷ [])
unfolding reply_int add_int64
reply_int-int v h =
    let fits : ltb 19 (length (print_int v)) ≡ false = ground (arith, length-print_int v h) in
    rw (signed64-int64_of_int v h) (rw fits refl)

reply_int-minus_one :
    reply_int (pos 0) (int64_of_int minus_one) [] ≡ some (codes "ok" ∷ codes "-1" ∷ [])
unfolding reply_int add_int64 print_int decimal
reply_int-minus_one = refl

module _ (L : LevelDb) where
  -- The text that stands for the result: a count of pairs is cut to an `int`.
  abbrev pub outcome_text : Bool → ℕ → Octets
  outcome_text true n = print_int (int_of_word n)
  outcome_text false n = codes "-1"

  replied :
      (b : Bool) (n : ℕ) (ret : ℤ)
      → ret ≡ (if b then int_of_word n else minus_one)
      → reply_int (pos 0) (int64_of_int ret) [] ≡ some (codes "ok" ∷ outcome_text b n ∷ [])
  replied true n ret e = rw e (reply_int-int (int_of_word n) (int_of_word-IsInt n))
  replied false n ret e = rw e reply_int-minus_one

  -- `multi_set` of pairs whose keys are all filled answers `ok`, with the number of pairs, cut to
  -- an `int`, where the write succeeds and with -1 where it fails, and its pairs are one write.
  pub proc_multi_set-committed :
      (cmd : Octets) (kvs : List (Octets × Octets)) (g : Geminidb L.State)
      → all_filled L kvs ≡ true
      → 0 < length kvs
      → proc_multi_set L (cmd ∷ interleave L kvs) g
        ≡ some (
          codes "ok" ∷ outcome_text (L.write g.ldb (put_ops L kvs)).0 (length kvs) ∷ [],
          (committed L minus_one (int_of_word (length kvs)) g (put_ops L kvs)).1,
        )
  unfolding proc_multi_set
  proc_multi_set-committed cmd kvs g filled some_kvs =
      let count = length-interleave L kvs in
      let guard : (ltb (length (cmd ∷ interleave L kvs)) 3
            || not (length (cmd ∷ interleave L kvs) % 2 == 1))
          ≡ false =
        ground (arith, count) in
      rw (guard, multi_set_filled L cmd kvs g filled)
        (rw
          (replied (L.write g.ldb (put_ops L kvs)).0 (length kvs)
            (committed L minus_one (int_of_word (length kvs)) g (put_ops L kvs)).0
            (committed-result L minus_one (int_of_word (length kvs)) g (put_ops L kvs)))
          refl)
