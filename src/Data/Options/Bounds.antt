-- ===== src/Data/Options/Bounds.antt =====
-- The options within their ranges, whatever the settings say.
use geminidb.Prelude.{
  ℕ, zero, suc, ◌≤◌, ◌<◌, ◌≡◌, refl, ◌⊎◌, inl, inr, Bool, true, false, Bool-cases, Octets, codes,
  octets_eq, octets_eq_iff, ◌==◌, if◌then◌else◌, arith,
}
use geminidb.Util.Config.{Config, get_num, get_str}
use geminidb.Data.Options.{
  Options, size_of_int, or_default, log_queue_size, derived_open_files, load,
}
use geminidb.Util.Text.{strtolower}

-- The number of open files for a setting: a setting that is not 0 is kept, and at 0 the number lies
-- between 500 and 1000.
abbrev pub FilesInRange : ℕ → ℕ → Type 0
FilesInRange zero n = (500 ≤ n) × (n ≤ 1000)
FilesInRange (suc setting) n = n ≡ suc setting

-- The ranges of the options.
pub record InRange (conf : Config) (o : Options) : Type 0 where
  pub cache : 0 < o.cache_size
  pub buffer : 0 < o.write_buffer_size
  pub block : 0 < o.block_size
  pub capacity : 0 < o.binlog_capacity
  pub files :
      FilesInRange (size_of_int (get_num (codes "leveldb.max_open_files") conf)) o.max_open_files
  pub compressed : (o.compression ≡ codes "no") ⊎ (o.compression ≡ codes "yes")

or_default_positive : (n d : ℕ) → 0 < d → 0 < or_default n d
or_default_positive n d h = ground arith

derived_range : (n : ℕ) → (500 ≤ derived_open_files n) × (derived_open_files n ≤ 1000)
unfolding derived_open_files
derived_range n = ground arith

queue_positive : (ndebug : Bool) → 0 < log_queue_size ndebug
queue_positive true = omega arith
queue_positive false = omega arith

no_or_yes :
    (s : Octets)
    → ((if octets_eq s (codes "no") then s else codes "yes") ≡ codes "no")
      ⊎ ((if octets_eq s (codes "no") then s else codes "yes") ≡ codes "yes")
no_or_yes s = elim (Bool-cases (octets_eq s (codes "no"))) [
  | inl e ↦ inl (rw e ((octets_eq_iff s (codes "no")).0 e))
  | inr e ↦ inr (rw e refl)
]

files_range : (n d : ℕ) → (500 ≤ d) × (d ≤ 1000) → FilesInRange n (if n == 0 then d else n)
files_range zero d h = h
files_range (suc n) d h = ground arith

-- Whatever the settings say, `load` leaves the sizes and the capacity of the log above 0, the
-- number of open files at the setting, if that is not 0, and between 500 and 1000 if it is 0, and
-- the compression at `no` or `yes`.
pub load-InRange : (ndebug : Bool) (conf : Config) → InRange conf (load ndebug conf)
unfolding load
load-InRange ndebug conf =
    let cache_size = size_of_int (get_num (codes "leveldb.cache_size") conf) in
    record {
      cache = or_default_positive cache_size 16 (omega arith);
      buffer =
          or_default_positive (size_of_int (get_num (codes "leveldb.write_buffer_size") conf)) 16
            (omega arith);
      block =
          or_default_positive (size_of_int (get_num (codes "leveldb.block_size") conf)) 16
            (omega arith);
      capacity =
          or_default_positive (size_of_int (get_num (codes "replication.binlog.capacity") conf))
            (log_queue_size ndebug) (queue_positive ndebug);
      files =
          files_range (size_of_int (get_num (codes "leveldb.max_open_files") conf))
            (derived_open_files (or_default cache_size 16))
            (derived_range (or_default cache_size 16));
      compressed = no_or_yes (strtolower (get_str (codes "leveldb.compression") conf));
    }
