-- ===== src/Net/Select/Tracked.antt =====
-- The two sets and `maxfd` against the table.
use geminidb.Prelude.{
  ℕ, zero, suc, ◌<◌, ◌≡◌, ◌≢◌, refl, sym, subst, inl, inr, Bool, true, Bool-cases, List, set,
  if◌then◌else◌, arith,
}
use geminidb.Prelude.Int.{ℤ, pos, negsuc}
use native.Mathlib.Decide.{ℕ_discrete}
use geminidb.Net.Fdevents.{any, Fdevent, get_fde, entry}
use geminidb.Net.Fdevents.Watched.{entry-put, entry-put_other}
use geminidb.Net.Select.{Selects, init, put_fd, lowered_from, watched_to}

-- Some flag of the entry is set.
abbrev pub IsFlagged : ℕ → List Fdevent → Type 0
IsFlagged i table = any (entry i table).s_flags ≡ true

abbrev pub HasLead : ℤ → List Fdevent → Type 0
HasLead (pos m) table = IsFlagged m table
HasLead (negsuc n) table = Unit

-- The sets hold the descriptors that the table says, and `maxfd` is the last one with a flag.
pub record IsTracked (s : Selects) : Type 0 where
  pub reads : (i : ℕ) → s.readset i ≡ (entry i s.table).s_flags.in_bit
  pub writes : (i : ℕ) → s.writeset i ≡ (entry i s.table).s_flags.out_bit
  pub covered : (i : ℕ) → IsFlagged i s.table → i < watched_to s.maxfd
  pub lead : HasLead s.maxfd s.table

pub init-IsTracked : IsTracked init
unfolding entry
init-IsTracked = record {
  reads = λ i. refl;
  writes = λ i. refl;
  covered = λ i h. absurd (ground arith);
  lead = tt;
}

-- What holds of the entry that was put, and of the others as they were.
pub put_all :
    (fd : ℕ) (table : List Fdevent) (x : Fdevent) (P : ℕ → Fdevent → Type 0)
    → P fd x
    → ((i : ℕ) → i ≢ fd → P i (entry i table))
    → (i : ℕ) → P i (entry i (set (get_fde fd table) fd x))
put_all fd table x P own others i = elim (ℕ_discrete i fd) [
  | yes same ↦
      subst (λ j. P j (entry j (set (get_fde fd table) fd x))) (sym same)
        (subst (P fd) (sym (entry-put fd table x)) own)
  | no other ↦ subst (P i) (sym (entry-put_other fd i table x other)) (others i other)
]

pub put_fd-own :
    (flag bit : Bool) (fd : ℕ) (fds : ℕ → Bool)
    → put_fd flag fd bit fds fd ≡ (if flag then bit else fds fd)
unfolding put_fd
put_fd-own flag bit fd fds = ground arith

pub put_fd-other :
    (flag bit : Bool) (fd i : ℕ) (fds : ℕ → Bool) → i ≢ fd → put_fd flag fd bit fds i ≡ fds i
unfolding put_fd
put_fd-other flag bit fd i fds ne = ground arith

pub lowered_from-covered :
    (m : ℕ) (table : List Fdevent)
    → ((i : ℕ) → IsFlagged i table → i < suc m)
    → (i : ℕ) → IsFlagged i table
    → i < watched_to (lowered_from m table)
unfolding lowered_from
lowered_from-covered zero table h i flag = elim (Bool-cases (any (entry 0 table).s_flags)) [
  | inl e ↦ rw e (h i flag)
  | inr e ↦
      let first : i ≡ 0 = omega (arith, h i flag) in
      absurd (ground (arith, subst (λ j. IsFlagged j table) first flag, e))
]
lowered_from-covered (suc m) table h i flag =
    elim (Bool-cases (any (entry (suc m) table).s_flags)) [
      | inl e ↦ rw e (h i flag)
      | inr e ↦ rw e (
          lowered_from-covered m table
            (λ j flagged. elim (ℕ_discrete j (suc m)) [
              | yes same ↦ absurd (ground (arith, subst (λ k. IsFlagged k table) same flagged, e))
              | no other ↦ omega (arith, h j flagged, other)
            ])
            i flag)
    ]

pub lowered_from-HasLead : (m : ℕ) (table : List Fdevent) → HasLead (lowered_from m table) table
unfolding lowered_from
lowered_from-HasLead zero table = elim (Bool-cases (any (entry 0 table).s_flags)) [
  | inl e ↦ rw e e
  | inr e ↦ rw e tt
]
lowered_from-HasLead (suc m) table = elim (Bool-cases (any (entry (suc m) table).s_flags)) [
  | inl e ↦ rw e e
  | inr e ↦ rw e (lowered_from-HasLead m table)
]
