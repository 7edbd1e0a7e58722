-- ===== src/Util/Config/File.antt =====
-- `load` and `save` of src/util/config.cpp. A file is its bytes, none of them 0. The log and the errors of reads and writes are left out.
pub mod Lines
pub mod Split
pub mod RoundTrip
use geminidb.Prelude.{
  ℕ, zero, suc, ◌+◌, ◌-◌, ◌>>=◌, Bool, true, false, ◌&&◌, ◌||◌, Option, none, some, List, [], ◌∷◌,
  ◌++◌, Octets, codes, length, drop, leb, ltb, ◌==◌, replicate, if◌then◌else◌,
}
use geminidb.Util.Number.{is_space, skip_spaces}
use geminidb.Util.Text.{is_empty_str, trim}
use geminidb.Util.Config.{Config, Children, node, nil, more, new_config, add_child, key, val}

-- `CONFIG_MAX_LINE`, the size of the buffer of `load`.
abbrev pub config_max_line : ℕ
config_max_line = 4096

abbrev pub is_kv_seperator : ℕ → Bool
is_kv_seperator ch = ch == b'=' || ch == b':'

-- The node `cfg` of `load`, and its parents from the nearest one up to the root. Each is without its last
-- child where that one is open.
abbrev pub Open : Type 0
Open = Config × List Config

abbrev pub with_last_child : Config → Config → Config
with_last_child (node k v cs) c = node k v (add_child c cs)

-- `cfg = cfg->parent`, which the root skips.
unfoldable pub to_parent : Open → Open
to_parent (cfg, []) = (cfg, [])
to_parent (cfg, p ∷ ps) = (with_last_child p cfg, ps)

unfoldable pub up : ℕ → Open → Open
unfolding to_parent
up zero at = at
up (suc n) at = to_parent (up n at)

unfoldable pub to_root : Config → List Config → Config
to_root cfg [] = cfg
to_root cfg (p ∷ ps) = to_root (with_last_child p cfg) ps

pub record Loading : Type 0 where
  pub at : Open
  pub last_indent : ℕ

-- `strspn(buf, "\t")`.
unfoldable pub indent_of : Octets → ℕ
indent_of [] = 0
indent_of (c ∷ s) = let rest = indent_of s in if c == b'\t' then suc rest else 0

-- The key and the value around the first separator, before they are trimmed.
unfoldable pub split_kv : Octets → Option (Octets × Octets)
split_kv [] = none
split_kv (c ∷ s) =
    let rest = split_kv s in
    if is_kv_seperator c then some ([], s) else (rest >>= λ kv. some (c ∷ kv.0, kv.1))

-- The way up to the parent of a line with this indent, from the line before it.
unfoldable pub parent_for : ℕ → Loading → Option Open
unfolding up
parent_for indent st =
    if leb indent st.last_indent
    then some (up (suc (st.last_indent - indent)) st.at)
    else if ltb (st.last_indent + 1) indent
    then none
    else some st.at

-- A line behind its tabs; it begins with a byte that is no tab.
unfoldable pub load_key : ℕ → Octets → Loading → Option Loading
unfolding parent_for split_kv trim
load_key indent [] st = none
load_key indent (c ∷ s) st =
    let (cfg, ps) = st.at in
    let comment = record st { at = (with_last_child cfg (new_config (codes "#") s), ps) } in
    let setting = parent_for indent st >>= λ parent.
    if is_space c
    then none
    else (split_kv (c ∷ s) >>= λ kv. some (record {
      at = (new_config (trim kv.0) (trim kv.1), parent.0 ∷ parent.1);
      last_indent = indent;
    })) in
    if c == b'#' then some comment else setting

unfoldable pub drop_last : Octets → Octets
drop_last [] = []
drop_last (c ∷ []) = []
drop_last (c ∷ d ∷ s) = c ∷ drop_last (d ∷ s)

-- The body of the loop, whose first assignment cuts the last byte off.
unfoldable pub load_line : Octets → Loading → Option Loading
unfolding drop_last is_empty_str indent_of load_key
load_line line st =
    let buf = drop_last line in
    if is_empty_str buf then some st else load_key (indent_of buf) (drop (indent_of buf) buf) st

unfoldable pub load_lines : List Octets → Loading → Option Loading
unfolding load_line
load_lines [] st = some st
load_lines (line ∷ lines) st = load_line line st >>= load_lines lines

-- The lines that `fgets` reads, each with its newline; `room` counts the bytes that the buffer still
-- takes before its terminator, and a longer line is read in parts.
unfoldable pub first_byte : ℕ → List Octets → List Octets
first_byte c [] = (c ∷ []) ∷ []
first_byte c (line ∷ lines) = (c ∷ line) ∷ lines

unfoldable pub lines_of : ℕ → Octets → List Octets
unfolding first_byte
lines_of room [] = []
lines_of room (c ∷ s) =
    let at_end = c == b'\n' || leb room 1 in
    let rest = lines_of (if at_end then config_max_line - 1 else room - 1) s in
    if at_end then (c ∷ []) ∷ rest else first_byte c rest

unfoldable pub load : Octets → Option Config
unfolding load_lines lines_of to_root
load file =
    load_lines (lines_of (config_max_line - 1) file)
      (record { at = (new_config (codes "root") [], []); last_indent = 0 })
    >>= λ st. some (to_root st.at.0 st.at.1)

abbrev pub is_comment : Octets → Bool
is_comment [] = false
is_comment (c ∷ k) = c == b'#'

-- The line that `save` prints for a child of a node at this depth.
unfoldable pub line_for : ℕ → Octets → Octets → Octets
line_for depth k v =
    replicate depth b'\t' ++ (if is_comment k then b'#' ∷ v else k ++ codes ": " ++ v) ++ b'\n' ∷ []

-- What the loop of `save` prints for the children of a node at this depth, line by line.
unfoldable pub save_children : ℕ → Children → List Octets
unfolding line_for
save_children depth nil = []
save_children depth (more (node k v ds) cs) =
    line_for depth k v ∷ save_children (suc depth) ds ++ save_children depth cs

abbrev pub flatten : List Octets → Octets
flatten [] = []
flatten (line ∷ lines) = line ++ flatten lines

-- `save` of a root.
unfoldable pub save : Config → Octets
unfolding save_children
save (node k v cs) = flatten (save_children 0 cs)
