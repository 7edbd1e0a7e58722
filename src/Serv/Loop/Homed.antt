-- ===== src/Serv/Loop/Homed.antt =====
-- Where the links are between the steps of the loop: each has a place from which it will be taken.
pub mod Events
pub mod Jobs
pub mod Workers
pub mod Steps
pub mod Always
use geminidb.Prelude.{
  ℕ, suc, ◌≡◌, ◌≢◌, refl, sym, ◌∙◌, subst, ap, ◌⊎◌, inl, inr, Bool, true, false, Option, none, some,
  List, Any, arith,
}
use native.Mathlib.Decide.{ℕ_discrete}
use geminidb.Net.Fdevents.{Epoll}
use geminidb.Net.Fdevents.Flags.{reading}
use geminidb.Serv.Loop.{Link, NetworkServer}
use geminidb.Serv.Loop.Apart.{HasJob, Untouched}
use geminidb.Serv.Loop.Rounds.{Round}

abbrev pub IsIn : ℕ → List ℕ → Type 0
IsIn id ids = Any (λ i. i ≡ id) ids

module _ {S K : Type 0} (E : Epoll K) where
  -- The link is among the ready links of this round or of the next, or the table says that it is
  -- watched for input, or a pool has a job of it.
  pub data Home (id sock : ℕ) (r : Round S K) : Type 0 where
    in_list : IsIn id r.ready_list → Home id sock r
    in_list_2 : IsIn id r.ready_list_2 → Home id sock r
    is_watched : reading E sock r.serv.fdes ≡ true → Home id sock r
    with_writer : HasJob id r.serv.writer → Home id sock r
    with_reader : HasJob id r.serv.reader → Home id sock r

  pub record IsSettled (r : Round S K) : Type 0 where
    pub homed : (id : ℕ) (link : Link) → r.serv.links id ≡ some link → Home id link.sock r
    pub apart :
        (id id' : ℕ) (link link' : Link)
        → r.serv.links id ≡ some link
        → r.serv.links id' ≡ some link'
        → id' ≢ id
        → link'.sock ≢ link.sock

  -- What a step did to the link that it was about, and to the others.
  pub record Moved (id sock : ℕ) (r r' : Round S K) : Type 0 where
    pub clear :
        (id' : ℕ) (link' : Link) → r.serv.links id' ≡ some link' → id' ≢ id → link'.sock ≢ sock
    pub own : (link' : Link) → r'.serv.links id ≡ some link' → (link'.sock ≡ sock) × Home id sock r'
    pub others : (id' sock' : ℕ) → id' ≢ id → sock' ≢ sock → Untouched E id' sock' r.serv r'.serv
    pub list_kept : (id' : ℕ) → id' ≢ id → IsIn id' r.ready_list → IsIn id' r'.ready_list
    pub list_2_kept : (id' : ℕ) → id' ≢ id → IsIn id' r.ready_list_2 → IsIn id' r'.ready_list_2

  Home-kept :
      (id' sock' : ℕ) (r r' : Round S K)
      → Untouched E id' sock' r.serv r'.serv
      → (IsIn id' r.ready_list → IsIn id' r'.ready_list)
      → (IsIn id' r.ready_list_2 → IsIn id' r'.ready_list_2)
      → Home id' sock' r
      → Home id' sock' r'
  Home-kept id' sock' r r' u l l2 (in_list h) = in_list (l h)
  Home-kept id' sock' r r' u l l2 (in_list_2 h) = in_list_2 (l2 h)
  Home-kept id' sock' r r' u l l2 (is_watched h) = is_watched (u.same_watch ∙ h)
  Home-kept id' sock' r r' u l l2 (with_writer h) = with_writer (u.writer_kept h)
  Home-kept id' sock' r r' u l l2 (with_reader h) = with_reader (u.reader_kept h)

  -- A link behind the step is the one that it was about, or was there before.
  which :
      (id sock i : ℕ) (link' : Link) (r r' : Round S K)
      → Moved id sock r r'
      → r'.serv.links i ≡ some link'
      → ((i ≡ id) × (link'.sock ≡ sock)) ⊎ ((i ≢ id) × (r.serv.links i ≡ some link'))
  which id sock i link' r r' m there = elim (ℕ_discrete i id) [
    | yes same ↦ inl (same, (m.own link' (subst (λ j. r'.serv.links j ≡ some link') same there)).0)
    | no other ↦
        inr (other, sym (m.others i (suc sock) other (λ e. omega (arith, e))).same_link ∙ there)
  ]

  pub Moved-IsSettled :
      (id sock : ℕ) (r r' : Round S K) → Moved id sock r r' → IsSettled r → IsSettled r'
  Moved-IsSettled id sock r r' m settled = record {
    homed = λ i link' there. elim (which id sock i link' r r' m there) [
      | inl (same, sock_eq) ↦
          subst (λ j. Home j link'.sock r') (sym same)
            (subst (λ k. Home id k r') (sym sock_eq)
              (m.own link' (subst (λ j. r'.serv.links j ≡ some link') same there)).1)
      | inr (other, before) ↦
          Home-kept i link'.sock r r' (m.others i link'.sock other (m.clear i link' before other))
            (m.list_kept i other) (m.list_2_kept i other) (settled.homed i link' before)
    ];
    apart = λ i j link link' hi hj ne. elim (which id sock i link r r' m hi) [
      | inl (same_i, sock_i) ↦ elim (which id sock j link' r r' m hj) [
        | inl (same_j, sock_j) ↦ absurd (ne (same_j ∙ sym same_i))
        | inr (other_j, before_j) ↦ λ e. m.clear j link' before_j other_j (e ∙ sock_i)
      ]
      | inr (other_i, before_i) ↦ elim (which id sock j link' r r' m hj) [
        | inl (same_j, sock_j) ↦ λ e. m.clear i link before_i other_i (sym e ∙ sock_j)
        | inr (other_j, before_j) ↦ settled.apart i j link link' before_i before_j ne
      ]
    ];
  }
