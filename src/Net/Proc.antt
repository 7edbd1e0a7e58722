-- ===== src/Net/Proc.antt =====
-- `ProcMap` and `Command` of src/net/proc.h and src/net/proc.cpp. The map is an association list
-- without repeated names; what a `proc_t` is, is a parameter. The times of a command are left out.
pub mod Lookup
use geminidb.Prelude.{
  ℕ, Bool, true, false, Option, none, some, List, [], ◌∷◌, Octets, octets_eq, ◌==◌, if◌then◌else◌,
  codes,
}

-- The bits of `flags`.
pub record Flags : Type 0 where
  pub read : Bool
  pub write : Bool
  pub backend : Bool
  pub thread : Bool

abbrev pub no_flags : Flags
no_flags = record { read = false; write = false; backend = false; thread = false }

pub record Command (P : Type 0) : Type 0 where
  pub name : Octets
  pub flags : Flags
  pub proc : P
  pub calls : ℕ

-- The switch on a letter of `sflags`.
unfoldable pub add_flag : ℕ → Flags → Flags
add_flag c f =
    if c == b'r'
    then record f { read = true }
    else if c == b'w'
    then record f { write = true; thread = true }
    else if c == b'b'
    then record f { backend = true }
    else if c == b't'
    then record f { thread = true }
    else f

unfoldable pub add_flags : Octets → Flags → Flags
unfolding add_flag
add_flags [] f = f
add_flags (c ∷ sflags) f = add_flags sflags (add_flag c f)

module _ {P : Type 0} where
  unfoldable pub get_proc : Octets → List (Command P) → Option (Command P)
  get_proc str [] = none
  get_proc str (cmd ∷ map) =
      let rest = get_proc str map in if octets_eq str cmd.name then some cmd else rest

  -- A name that is there keeps its count.
  unfoldable pub set_proc : Octets → Octets → P → List (Command P) → List (Command P)
  unfolding add_flags
  set_proc c sflags proc [] =
      record { name = c; flags = add_flags sflags no_flags; proc = proc; calls = 0 } ∷ []
  set_proc c sflags proc (cmd ∷ map) =
      let rest = set_proc c sflags proc map in
      if octets_eq c cmd.name
      then record cmd { flags = add_flags sflags no_flags; proc = proc } ∷ map
      else cmd ∷ rest

  -- The overload without flags.
  unfoldable pub set_proc_thread : Octets → P → List (Command P) → List (Command P)
  unfolding set_proc
  set_proc_thread c proc map = set_proc c (codes "t") proc map
