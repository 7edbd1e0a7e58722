-- ===== src/Data/Keys.antt =====
-- The keys of src/data/t_kv.h and src/data/t_queue.h, with the constants of src/data/const.h.
pub mod Distinct
use geminidb.Prelude.{ℕ, ◌/◌, ◌%◌, Option, some, ◌∷◌, ◌++◌, Octets, length, ◌>>=◌}
use geminidb.Prelude.Words.{to_le}
use geminidb.Util.Endian.{big_endian64}
use geminidb.Util.Decoder.{skip, read_uint64, read_data, read_8_data}

-- class DataType
abbrev pub kv_type : ℕ
kv_type = b'k'

abbrev pub queue_type : ℕ
queue_type = b'q'

abbrev pub qsize_type : ℕ
qsize_type = b'Q'

abbrev pub qfront_seq : ℕ
qfront_seq = 2

abbrev pub qback_seq : ℕ
qback_seq = 3

abbrev pub qitem_min_seq : ℕ
qitem_min_seq = 10000

abbrev pub qitem_max_seq : ℕ
qitem_max_seq = 9223372036854775807

abbrev pub qitem_seq_init : ℕ
qitem_seq_init = qitem_max_seq / 2

unfoldable pub encode_kv_key : Octets → Octets
encode_kv_key key = kv_type ∷ key

unfoldable pub decode_kv_key : Octets → Option Octets
unfolding skip read_data
decode_kv_key slice = do d ← skip 1 (record { rest = slice }); (key, _) ← read_data d; some key

unfoldable pub encode_qsize_key : Octets → Octets
encode_qsize_key name = qsize_type ∷ name

unfoldable pub decode_qsize_key : Octets → Option Octets
unfolding skip read_data
decode_qsize_key slice = do d ← skip 1 (record { rest = slice }); (name, _) ← read_data d; some name

-- The length is cut to one byte.
unfoldable pub encode_qitem_key : Octets → ℕ → Octets
encode_qitem_key name seq = queue_type ∷ (length name % 256) ∷ (name ++ to_le 8 (big_endian64 seq))

unfoldable pub decode_qitem_key : Octets → Option (Octets × ℕ)
unfolding skip read_8_data read_uint64
decode_qitem_key slice = do
  d ← skip 1 (record { rest = slice })
  (name, e) ← read_8_data d
  (seq, _) ← read_uint64 e
  some (name, big_endian64 seq)
