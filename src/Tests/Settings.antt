-- ===== src/Tests/Settings.antt =====
-- The properties of the settings and of the log, at a small tree and a line.
use geminidb.Prelude.{if◌then◌else◌, ◌≡◌, ◌≢◌, refl, false, some, codes, [], arith, octets_eq}
use geminidb.Prelude.Int.{pos}
use geminidb.Util.Number.{str_to_int}
use geminidb.Util.Config.{Config, Children, node, nil, more, new_config, set, get_str, get_num}
use geminidb.Util.Config.File.{load, line_for, save}
use geminidb.Util.Config.File.Split.{Fit}
use geminidb.Util.Text.{trim}
use geminidb.Util.Config.File.Lines.{IsPlain}
use geminidb.Util.Config.File.RoundTrip.{load-save}
use geminidb.Util.Config.Paths.{same_path, get_str-set}
use geminidb.Data.Options
use geminidb.Data.Options.Bounds.{InRange, load-InRange}
use geminidb.Util.Log.{get_level, set_log_level}
use geminidb.Util.Log.Levels.{set_log_level-get_level}

abbrev root : Config
root = new_config (codes "root") []

abbrev with_cache : Config
with_cache = set (codes "leveldb.cache_size") (codes "64") root

-- The code reads what it has written, also through a number.
cache_size_read : get_num (codes "leveldb/cache_size") with_cache ≡ pos 64
unfolding get_num set octets_eq str_to_int
cache_size_read = refl

get_str-set_example :
    get_str (codes "leveldb.cache_size") (set (codes "leveldb.compression") (codes "no") with_cache)
    ≡ (if same_path (codes "leveldb.compression") (codes "leveldb.cache_size")
        then codes "no"
        else get_str (codes "leveldb.cache_size") with_cache)
get_str-set_example =
    get_str-set (codes "leveldb.compression") (codes "leveldb.cache_size") (codes "no") with_cache

load-InRange_example : InRange with_cache (Options.load false with_cache)
load-InRange_example = load-InRange false with_cache

not_none : codes "warn" ≢ codes "none"
not_none h = ground arith

set_log_level-get_level_example : set_log_level (codes "warn") ≡ get_level (codes "warn")
set_log_level-get_level_example = set_log_level-get_level (codes "warn") not_none refl

-- A node with a child, and another node.
abbrev settings : Children
settings =
    more (node (codes "server") [] (more (node (codes "port") (codes "8888") nil) nil))
      (more (node (codes "pidfile") (codes "./a.pid") nil) nil)

settings_text :
    save (node (codes "root") [] settings) ≡ codes "server: \n\tport: 8888\npidfile: ./a.pid\n"
unfolding save
settings_text = refl

server-IsPlain : IsPlain (codes "server") []
unfolding trim
server-IsPlain = record {
  shown = refl;
  no_hash = refl;
  unsplit = ground arith;
  key_trimmed = refl;
  val_trimmed = refl;
  one_line = ground arith;
}

port-IsPlain : IsPlain (codes "port") (codes "8888")
unfolding trim
port-IsPlain = record {
  shown = refl;
  no_hash = refl;
  unsplit = ground arith;
  key_trimmed = refl;
  val_trimmed = refl;
  one_line = ground arith;
}

pidfile-IsPlain : IsPlain (codes "pidfile") (codes "./a.pid")
unfolding trim
pidfile-IsPlain = record {
  shown = refl;
  no_hash = refl;
  unsplit = ground arith;
  key_trimmed = refl;
  val_trimmed = refl;
  one_line = ground arith;
}

settings-Fit : Fit 0 settings
unfolding line_for
settings-Fit = (omega arith, (omega arith, tt, tt), (omega arith, tt, tt))

load-save_example :
    load (save (node (codes "root") [] settings)) ≡ some (node (codes "root") [] settings)
load-save_example =
    load-save [] settings (server-IsPlain, (port-IsPlain, tt, tt), (pidfile-IsPlain, tt, tt))
      settings-Fit
