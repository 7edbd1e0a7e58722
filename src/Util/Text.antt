-- ===== src/Util/Text.antt =====
-- Texts of src/util/strings.h: the trims and the lower case.
use geminidb.Prelude.{
  ℕ, ◌+◌, Bool, true, ◌&&◌, [], ◌∷◌, Octets, length, map, leb, ◌==◌, if◌then◌else◌,
}
use geminidb.Util.Number.{is_space, skip_spaces}

-- `::tolower` in the C locale.
abbrev pub tolower : ℕ → ℕ
tolower c = if leb b'A' c && leb c b'Z' then c + 32 else c

-- `strtolower`
unfoldable pub strtolower : Octets → Octets
strtolower s = map tolower s

unfoldable pub is_empty_str : Octets → Bool
is_empty_str [] = true
is_empty_str (c ∷ s) = is_space c && is_empty_str s

unfoldable pub rtrim : Octets → Octets
rtrim [] = []
rtrim (c ∷ s) = let rest = rtrim s in if is_space c && (length rest == 0) then [] else c ∷ rest

unfoldable pub trim : Octets → Octets
unfolding rtrim skip_spaces
trim s = rtrim (skip_spaces s)
