-- ===== src/Data/Options.antt =====
-- `Options` of src/data/options.h and src/data/options.cpp: the settings of the database and their
-- defaults. A `size_t` has 64 bits.
pub mod Bounds
use geminidb.Prelude.{
  ℕ, ◌+◌, ◌*◌, ◌/◌, ◌%◌, ◌^◌, Bool, true, false, Octets, codes, octets_eq, ◌&&◌, leb, ltb, ◌==◌,
  if◌then◌else◌, map,
}
use geminidb.Prelude.Int.{ℤ, pos, int64_of_int}
use geminidb.Util.Text.{strtolower}
use geminidb.Util.Config.{Config, new_config, get_num, get_str}

pub record Options : Type 0 where
  pub cache_size : ℕ
  pub max_open_files : ℕ
  pub write_buffer_size : ℕ
  pub block_size : ℕ
  pub compaction_speed : ℤ
  pub compression : Octets
  pub binlog : Bool
  pub binlog_capacity : ℕ

-- The value of a build with NDEBUG, or that of a build without.
abbrev pub log_queue_size : Bool → ℕ
log_queue_size true = 20000000
log_queue_size false = 10000

-- `(size_t)` of an `int`.
abbrev pub size_of_int : ℤ → ℕ
size_of_int n = int64_of_int n

-- `<= 0` on a `size_t`.
abbrev pub or_default : ℕ → ℕ → ℕ
or_default n d = if n == 0 then d else n

-- The value of `max_open_files` where the settings have none.
unfoldable pub derived_open_files : ℕ → ℕ
derived_open_files cache_size =
    let n = cache_size / 1024 * 300 % 2 ^ 64 in
    let n' = if ltb n 500 then 500 else n in if ltb 1000 n' then 1000 else n'

unfoldable pub load : Bool → Config → Options
unfolding strtolower derived_open_files
load ndebug conf =
    let cache_size = or_default (size_of_int (get_num (codes "leveldb.cache_size") conf)) 16 in
    let open_files = size_of_int (get_num (codes "leveldb.max_open_files") conf) in
    let compression = strtolower (get_str (codes "leveldb.compression") conf) in
    record {
      cache_size = cache_size;
      max_open_files = if open_files == 0 then derived_open_files cache_size else open_files;
      write_buffer_size =
          or_default (size_of_int (get_num (codes "leveldb.write_buffer_size") conf)) 16;
      block_size = or_default (size_of_int (get_num (codes "leveldb.block_size") conf)) 16;
      compaction_speed = get_num (codes "leveldb.compaction_speed") conf;
      compression = if octets_eq compression (codes "no") then compression else codes "yes";
      binlog = octets_eq (strtolower (get_str (codes "replication.binlog") conf)) (codes "yes");
      binlog_capacity =
          or_default (size_of_int (get_num (codes "replication.binlog.capacity") conf))
            (log_queue_size ndebug);
    }

-- The constructor loads an empty tree.
unfoldable pub defaults : Bool → Options
unfolding load
defaults ndebug = load ndebug (new_config (codes "") (codes ""))
