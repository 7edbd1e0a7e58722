-- ===== src/Net/Proc/Lookup.antt =====
-- The table of commands: a lookup after a registration, and the flag that a writer always has.
use geminidb.Prelude.{
  true, false, Option, none, some, List, [], ◌∷◌, Octets, octets_eq, octets_eq_refl, octets_eq_iff,
  ◌≡◌, refl, arith, subst, Bool-cases, inl, inr,
}
use geminidb.Net.Proc.{Flags, no_flags, Command, add_flag, add_flags, get_proc, set_proc}

abbrev pub WritesInThread : Flags → Type 0
WritesInThread f = f.write ≡ true → f.thread ≡ true

add_flags-WritesInThread :
    (s : Octets) (f : Flags) → WritesInThread f → WritesInThread (add_flags s f)
unfolding add_flags add_flag
add_flags-WritesInThread [] f h = h
add_flags-WritesInThread (c ∷ s) f h = add_flags-WritesInThread s (add_flag c f) (ground arith)

module _ {P : Type 0} where
  -- What a lookup finds after a registration.
  abbrev pub Registered : Octets → P → Option (Command P) → Type 0
  Registered sflags p none = ⊥
  Registered sflags p (some cmd) =
      (cmd.proc ≡ p) × (cmd.flags ≡ add_flags sflags no_flags) × WritesInThread cmd.flags

  -- A command that was registered is found under its name with its function and its flags, and the
  -- flag for writing comes with the flag for a thread.
  pub get_proc-set_proc :
      (c sflags : Octets) (p : P) (map : List (Command P))
      → Registered sflags p (get_proc c (set_proc c sflags p map))
  unfolding get_proc set_proc
  get_proc-set_proc c sflags p [] =
      rw (octets_eq_refl c) (refl, refl, add_flags-WritesInThread sflags no_flags (λ h. h))
  get_proc-set_proc c sflags p (cmd ∷ map) = elim (Bool-cases (octets_eq c cmd.name)) [
    | inl e ↦ rw e (rw e (refl, refl, add_flags-WritesInThread sflags no_flags (λ h. h)))
    | inr e ↦ rw e (rw e (get_proc-set_proc c sflags p map))
  ]

  -- A registration leaves what is found under every other name.
  pub get_proc-set_proc_other :
      (c d sflags : Octets) (p : P) (map : List (Command P))
      → octets_eq d c ≡ false
      → get_proc d (set_proc c sflags p map) ≡ get_proc d map
  unfolding get_proc set_proc
  get_proc-set_proc_other c d sflags p [] h = rw h refl
  get_proc-set_proc_other c d sflags p (cmd ∷ map) h = elim (Bool-cases (octets_eq c cmd.name)) [
    | inl e ↦
        let same : c ≡ cmd.name = (octets_eq_iff c cmd.name).0 e in
        let other : octets_eq d cmd.name ≡ false = subst (λ n. octets_eq d n ≡ false) same h in
        rw e (rw other refl)
    | inr e ↦ rw e (rw (get_proc-set_proc_other c d sflags p map h) refl)
  ]
