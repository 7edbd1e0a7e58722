-- ===== src/Util/Pool/Progress/Effort.antt =====
-- What a turn of a worker, of the reader or of a signal spends.
use geminidb.Prelude.{
  ℕ, zero, suc, ◌+◌, ◌*◌, ◌≤◌, ◌<◌, ◌≡◌, refl, sym, ap, subst, inl, inr, Bool, true, false,
  Bool-cases, not, Option, none, some, Option-cases, ◌>>=◌, length, get_elem?, arith,
}
use native.Mathlib.Decide.{ℕ_discrete}
use geminidb.Util.Pool.{Turn, work, read, turn, idle}
use geminidb.Util.Pool.Moves.{turn_related}
use geminidb.Util.Pool.Steady.{one_if}
use geminidb.Util.Pool.Spent.{Spent, Moves-Spent, is_own, left}
use geminidb.Util.Pool.Signals.{
  Signalled, SignalTurn, pushes, signals_to, wakes, works, reads, all_awake, put, must_wait,
  cond_signal, wait_or_work, signal_turn,
}
use geminidb.Util.Pool.Moves.Stays.{in_range}
use geminidb.Util.Pool.Alert.{Alert, put_there, put_elsewhere, waits_idle}

-- How many of the workers are awake.
abbrev pub awake : ℕ → (ℕ → Bool) → ℕ
awake zero asleep = 0
awake (suc n) asleep = one_if (not (asleep n)) + awake n asleep

awake-beyond :
    (n i : ℕ) (b : Bool) (asleep : ℕ → Bool) → n ≤ i → awake n (put i b asleep) ≡ awake n asleep
awake-beyond zero i b asleep h = refl
awake-beyond (suc n) i b asleep h =
    let same : put i b asleep n ≡ asleep n =
      put_elsewhere i n b asleep (λ e. omega (arith, e, h)) in
    let rest = awake-beyond n i b asleep (omega (arith, h)) in rw (same, rest) refl

awake-put :
    (n i : ℕ) (b : Bool) (asleep : ℕ → Bool)
    → i < n
    → awake n (put i b asleep) + one_if (not (asleep i)) ≡ awake n asleep + one_if (not b)
awake-put zero i b asleep h = absurd (omega arith)
awake-put (suc n) i b asleep h = elim (ℕ_discrete i n) [
  | yes same ↦
      let there : put i b asleep n ≡ b =
        subst (λ k. put i b asleep k ≡ b) same (put_there i b asleep) in
      let rest = awake-beyond n i b asleep (omega (arith, same)) in
      let own : one_if (not (asleep i)) ≡ one_if (not (asleep n)) =
        ap (λ k. one_if (not (asleep k))) same in
      omega (arith, ap (λ c. one_if (not c)) there, rest, own)
  | no other ↦
      let same : put i b asleep n ≡ asleep n = put_elsewhere i n b asleep (λ e. other (sym e)) in
      omega (arith, ap (λ c. one_if (not c)) same, awake-put n i b asleep (omega (arith, other, h)))
]

module _ {J : Type 0} where
  abbrev pub is_driven : SignalTurn J → Bool
  is_driven (pushes j) = false
  is_driven (signals_to i) = true
  is_driven (wakes i) = false
  is_driven (works i) = true
  is_driven reads = true

  -- A turn of a worker, of the reader or of a signal.
  pub record Own (room : ℕ) (s t : Signalled J) : Type 0 where
    pub by : SignalTurn J
    pub own : is_driven by ≡ true
    pub made : signal_turn room by s ≡ some t

  -- A signal that is on its way pays for the sleep of the worker that it wakes.
  unfoldable pub effort : ℕ → Signalled J → ℕ
  effort n s = left s.pool + 2 * s.signals + awake n s.asleep

  pub record Eased (n : ℕ) (s t : Signalled J) : Type 0 where
    pub less : effort n t < effort n s
    pub given : t.pool.pushed ≡ s.pool.pushed
    pub more : length s.pool.popped ≤ length t.pool.popped

  abbrev Eases : ℕ → Signalled J → Option (Signalled J) → Type 0
  Eases n s none = Unit
  Eases n s (some t) = Eased n s t

  worked :
      (room n : ℕ) (a : Turn J) (s : Signalled J)
      → is_own a ≡ true
      → Eases n s (turn room a s.pool >>= λ p. some (record s { pool = p }))
  unfolding effort
  worked room n a s own = elim (Option-cases (turn room a s.pool)) [
    | inl e ↦ rw e tt
    | inr (q, e) ↦
        let spent : Spent s.pool q =
          turn_related room (λ a p q. is_own a ≡ true → Spent p q) (Moves-Spent room) e own in
        let eased : Eased n s (record s { pool = q }) = record {
          less = omega (arith, spent.less);
          given = spent.given;
          more = spent.more;
        } in
        rw e eased
  ]

  signalled :
      (n i m : ℕ) (s : Signalled J) → s.signals ≡ m → Alert n s → Eases n s (cond_signal i m s)
  unfolding cond_signal effort
  signalled n i zero s e a = tt
  signalled n i (suc m) s e a = elim (Bool-cases (s.asleep i)) [
    | inl sleeps ↦
        let lt : i < n =
          subst (λ k. i < k) a.staff (in_range s.pool.workers i idle (a.dozing i sleeps)) in
        let count = awake-put n i false s.asleep lt in
        let eased : Eased n s (record s { asleep = put i false s.asleep; signals = m }) = record {
          less = omega (arith, e, count);
          given = refl;
          more = omega arith;
        } in
        rw sleeps eased
    | inr up ↦ elim (Bool-cases (all_awake (length s.pool.workers) s.asleep)) [
      | inl all ↦
          let eased : Eased n s (record s { signals = m }) = record {
            less = omega (arith, e);
            given = refl;
            more = omega arith;
          } in
          rw (up, all) eased
      | inr others ↦ rw (up, others) tt
    ]
  ]

  wait_or_work-Eases :
      (room n i : ℕ) (s : Signalled J)
      → s.asleep i ≡ false
      → Alert n s
      → Eases n s (wait_or_work room i s)
  unfolding wait_or_work effort
  wait_or_work-Eases room n i s up a =
      elim (Bool-cases (must_wait (get_elem? s.pool.workers i) s.pool.jobs)) [
        | inl waits ↦
            let there = (waits_idle (get_elem? s.pool.workers i) s.pool.jobs waits).0 in
            let lt : i < n = subst (λ k. i < k) a.staff (in_range s.pool.workers i idle there) in
            let count = awake-put n i true s.asleep lt in
            let one : one_if (not (s.asleep i)) ≡ 1 = ap (λ b. one_if (not b)) up in
            let eased : Eased n s (record s { asleep = put i true s.asleep }) = record {
              less = omega (arith, count, one);
              given = refl;
              more = omega arith;
            } in
            rw waits eased
        | inr works_on ↦ rw works_on (worked room n (work i) s refl)
      ]

  signal_turn-Eases :
      (room n : ℕ) (a : SignalTurn J) (s : Signalled J)
      → is_driven a ≡ true
      → Alert n s
      → Eases n s (signal_turn room a s)
  unfolding signal_turn
  signal_turn-Eases room n (pushes j) s own a = absurd (ground (arith, own))
  signal_turn-Eases room n (signals_to i) s own a = signalled n i s.signals s refl a
  signal_turn-Eases room n (wakes i) s own a = absurd (ground (arith, own))
  signal_turn-Eases room n (works i) s own a = elim (Bool-cases (s.asleep i)) [
    | inl sleeps ↦ rw sleeps tt
    | inr up ↦ rw up (wait_or_work-Eases room n i s up a)
  ]
  signal_turn-Eases room n reads s own a = worked room n read s refl

  pub Own-Spent : (room n : ℕ) {s t : Signalled J} → Alert n s → Own room s t → Eased n s t
  Own-Spent room n {s} a o = subst (Eases n s) o.made (signal_turn-Eases room n o.by s o.own a)
