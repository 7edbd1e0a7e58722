-- ===== src/Util/Config.antt =====
-- `Config` of src/util/config.h and src/util/config.cpp: a tree of settings, read and changed by paths. A
-- text is a `char *` without its terminator; the parents and depths of the nodes are their places in the
-- tree, and the log is left out.
pub mod Change
pub mod Paths
pub mod File
use geminidb.Prelude.{
  ℕ, zero, suc, ◌>>=◌, Bool, true, false, ◌||◌, Option, none, some, [], ◌∷◌, ◌++◌, Octets,
  octets_eq, take, ◌==◌, if◌then◌else◌, codes,
}
use geminidb.Prelude.Int.{ℤ, pos}
use geminidb.Util.Number.{str_to_int, str_to_int64}

-- A node has a key, a value and children.
mutual
  pub data Config : Type 0 where
    node : Octets → Octets → Children → Config

  pub data Children : Type 0 where
    nil : Children
    more : Config → Children → Children

abbrev pub key : Config → Octets
key (node k v cs) = k

-- `str`.
abbrev pub val : Config → Octets
val (node k v cs) = v

abbrev pub children : Config → Children
children (node k v cs) = cs

-- The constructor, called with a key and a value.
abbrev pub new_config : Octets → Octets → Config
new_config k v = node k v nil

-- `add_child` puts a new node behind the others.
unfoldable pub add_child : Config → Children → Children
add_child c nil = more c nil
add_child c (more d cs) = more d (add_child c cs)

-- The last child with the key.
unfoldable pub find_child : Octets → Children → Option Config
find_child f nil = none
find_child f (more c cs) = elim (find_child f cs) [
  | some d ↦ some d
  | none ↦ if octets_eq (key c) f then some c else none
]

abbrev pub is_separator : ℕ → Bool
is_separator c = c == b'.' || c == b'/'

-- The loop of `get`, with the field that it is in and the rest of the path.
unfoldable pub get_loop : Octets → Octets → Config → Option Config
unfolding find_child
get_loop f [] conf = find_child f (children conf)
get_loop f (c ∷ fs) conf =
    let below = find_child f (children conf) >>= get_loop [] fs in
    let rest = get_loop (f ++ c ∷ []) fs conf in if is_separator c then below else rest

unfoldable pub get : Octets → Config → Option Config
unfolding get_loop
get path conf = get_loop [] (take 4095 path) conf

-- What becomes of the children when the last one with the key is changed.
unfoldable pub change_child : Octets → (Config → Config) → Children → Option Children
change_child f g nil = none
change_child f g (more c cs) = elim (change_child f g cs) [
  | some ds ↦ some (more c ds)
  | none ↦ if octets_eq (key c) f then some (more (g c) cs) else none
]

-- The child that `find_child` finds, or the one that is added, is changed.
unfoldable pub with_child : Octets → (Config → Config) → Config → Config
unfolding change_child add_child
with_child f g (node k v cs) =
    node k v
      (elim (change_child f g cs) [ some ds ↦ ds | none ↦ add_child (g (new_config f [])) cs ])

-- The loop of `build_key_path`. The pointer that it returns is what its caller does to the node.
unfoldable pub build_loop : Octets → Octets → (Config → Config) → Config → Config
unfolding with_child
build_loop f [] g conf = with_child f g conf
build_loop f (c ∷ fs) g conf =
    let below = with_child f (build_loop [] fs g) conf in
    let rest = build_loop (f ++ c ∷ []) fs g conf in if is_separator c then below else rest

unfoldable pub build_key_path : Octets → (Config → Config) → Config → Config
unfolding build_loop
build_key_path path g conf = build_loop [] (take 4095 path) g conf

abbrev pub with_val : Octets → Config → Config
with_val v (node k old cs) = node k v cs

unfoldable pub set : Octets → Octets → Config → Config
unfolding build_key_path
set path v conf = build_key_path path (with_val v) conf

unfoldable pub get_num : Octets → Config → ℤ
unfolding get
get_num path conf = elim (get path conf) [ none ↦ pos 0 | some c ↦ str_to_int (val c) ]

unfoldable pub get_int64 : Octets → Config → ℕ
unfolding get
get_int64 path conf = elim (get path conf) [ none ↦ 0 | some c ↦ str_to_int64 (val c) ]

unfoldable pub get_str : Octets → Config → Octets
unfolding get
get_str path conf = elim (get path conf) [ none ↦ [] | some c ↦ val c ]
