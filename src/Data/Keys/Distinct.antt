-- ===== src/Data/Keys/Distinct.antt =====
-- Keys of different things are different, and a key is read back.
use mathlib.Core.Logic.{◌≢◌}
use geminidb.Prelude.{
  ℕ, ◌%◌, ◌^◌, ◌<◌, ◌≡◌, refl, ap, some, [], ◌∷◌, ◌++◌, Octets, length, take, drop, length-append,
  take-append, drop-append, arith,
}
use geminidb.Prelude.Words.{to_le, length-to_le, of_le-to_le_eight}
use geminidb.Util.Endian.{big_endian64, big_endian64-lt, big_endian64_twice}
use geminidb.Data.Keys.{
  encode_kv_key, decode_kv_key, encode_qsize_key, encode_qitem_key, decode_qitem_key,
}

append_inj :
    (xs xs' ys ys' : Octets)
    → length xs ≡ length xs'
    → xs ++ ys ≡ xs' ++ ys'
    → (xs ≡ xs') × (ys ≡ ys')
append_inj [] [] ys ys' h e = (refl, e)
append_inj [] (x ∷ xs') ys ys' h e = absurd (omega arith)
append_inj (x ∷ xs) [] ys ys' h e = absurd (omega arith)
append_inj (x ∷ xs) (x' ∷ xs') ys ys' h e = ground (arith, append_inj xs xs' ys ys' (omega arith))

same_length :
    (name name' : Octets) (seq seq' : ℕ)
    → encode_qitem_key name seq ≡ encode_qitem_key name' seq'
    → length name ≡ length name'
unfolding encode_qitem_key
same_length name name' seq seq' e = omega (
  arith,
  ap length e,
  length-append name (to_le 8 (big_endian64 seq)),
  length-append name' (to_le 8 (big_endian64 seq')),
  length-to_le 8 (big_endian64 seq),
  length-to_le 8 (big_endian64 seq'),
)

seq_of_bytes :
    (seq seq' : ℕ)
    → seq < 2 ^ 64
    → seq' < 2 ^ 64
    → to_le 8 (big_endian64 seq) ≡ to_le 8 (big_endian64 seq')
    → seq ≡ seq'
seq_of_bytes seq seq' h h' e = cc (
  big_endian64_twice seq h,
  big_endian64_twice seq' h',
  of_le-to_le_eight (big_endian64 seq) (big_endian64-lt seq h),
  of_le-to_le_eight (big_endian64 seq') (big_endian64-lt seq' h'),
)

-- Two items of queues, with 64-bit numbers, have one key only if they are one number of one queue,
-- also for names that are longer than the length byte can tell.
pub encode_qitem_key_inj :
    (name name' : Octets) (seq seq' : ℕ)
    → seq < 2 ^ 64
    → seq' < 2 ^ 64
    → encode_qitem_key name seq ≡ encode_qitem_key name' seq'
    → (name ≡ name') × (seq ≡ seq')
encode_qitem_key_inj name name' seq seq' h h' e =
    let parts =
      append_inj name name' (to_le 8 (big_endian64 seq)) (to_le 8 (big_endian64 seq'))
        (same_length name name' seq seq' e) (tails name name' seq seq' e) in
    (parts.0, seq_of_bytes seq seq' h h' parts.1)
  where
    tails :
        (a a' : Octets) (n n' : ℕ)
        → encode_qitem_key a n ≡ encode_qitem_key a' n'
        → a ++ to_le 8 (big_endian64 n) ≡ a' ++ to_le 8 (big_endian64 n')
    tails a a' n n' p = unfold encode_qitem_key in ap (drop 2) p

take-to_le : (w : ℕ) → take 8 (to_le 8 w) ≡ to_le 8 w
unfolding to_le
take-to_le w = refl

-- The key of an item, of a queue whose name is shorter than 256 bytes and at a 64-bit number, is
-- decoded to that name and number.
pub decode_qitem_key-encode_qitem_key :
    (name : Octets) (seq : ℕ)
    → length name < 256
    → seq < 2 ^ 64
    → decode_qitem_key (encode_qitem_key name seq) ≡ some (name, seq)
unfolding decode_qitem_key encode_qitem_key
decode_qitem_key-encode_qitem_key name seq short h =
    let bytes = to_le 8 (big_endian64 seq) in
    let fits : length name % 256 ≡ length name = omega arith in
    rw fits (
      ground (
        arith,
        take-append name bytes,
        drop-append name bytes,
        length-append name bytes,
        length-to_le 8 (big_endian64 seq),
        take-to_le (big_endian64 seq),
        of_le-to_le_eight (big_endian64 seq) (big_endian64-lt seq h),
        big_endian64_twice seq h,
      ))

pub qsize_key-ne-qitem_key :
    (name name' : Octets) (seq : ℕ) → encode_qsize_key name ≢ encode_qitem_key name' seq
unfolding encode_qsize_key encode_qitem_key
qsize_key-ne-qitem_key name name' seq e = ground arith

pub kv_key-ne-qsize_key : (key name : Octets) → encode_kv_key key ≢ encode_qsize_key name
unfolding encode_kv_key encode_qsize_key
kv_key-ne-qsize_key key name e = ground arith

-- A key of the key-value commands is never the key of a queue's item.
pub kv_key-ne-qitem_key :
    (key name : Octets) (seq : ℕ) → encode_kv_key key ≢ encode_qitem_key name seq
unfolding encode_kv_key encode_qitem_key
kv_key-ne-qitem_key key name seq e = ground arith

pub encode_qsize_key_inj :
    (name name' : Octets) → encode_qsize_key name ≡ encode_qsize_key name' → name ≡ name'
unfolding encode_qsize_key
encode_qsize_key_inj name name' e = ap (drop 1) e

pub encode_kv_key_inj : (key key' : Octets) → encode_kv_key key ≡ encode_kv_key key' → key ≡ key'
unfolding encode_kv_key
encode_kv_key_inj key key' e = ap (drop 1) e

pub decode_kv_key-encode_kv_key : (key : Octets) → decode_kv_key (encode_kv_key key) ≡ some key
unfolding decode_kv_key encode_kv_key
decode_kv_key-encode_kv_key key = ground arith
