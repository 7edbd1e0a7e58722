-- ===== src/Util/Pool/Progress/Rest.antt =====
-- Where no thread of a pool can take a turn: its workers wait for jobs, and there are none.
use geminidb.Prelude.{
  ℕ, zero, suc, ◌<◌, ◌≡◌, refl, sym, subst, ◌⊎◌, inl, inr, Bool, true, false, Bool-cases, none,
  some, Option, Option-cases, ◌>>=◌, List, [], ◌∷◌, get_elem?, length, if◌then◌else◌, arith,
}
use native.Mathlib.Decide.{ℕ_discrete}
use geminidb.Util.Pool.{Pool, Worker, idle, work, read, turn, run_worker, pop_job}
use geminidb.Util.Pool.Stuck.{Stuck}
use geminidb.Util.Pool.Signals.{
  Signalled, signals_to, works, reads, all_awake, put, must_wait, cond_signal, wait_or_work,
  signal_turn,
}
use geminidb.Util.Pool.Moves.Stays.{in_range}
use geminidb.Util.Pool.Alert.{Alert}
use geminidb.Util.Pool.Progress.Effort.{Own}

find_asleep :
    (n : ℕ) (asleep : ℕ → Bool) → ((i : ℕ) × (asleep i ≡ true)) ⊎ (all_awake n asleep ≡ true)
find_asleep zero asleep = inr refl
find_asleep (suc n) asleep = elim (Bool-cases (asleep n)) [
  | inl sleeps ↦ inl (n, sleeps)
  | inr up ↦ elim (find_asleep n asleep) [
    | inl found ↦ inl found
    | inr rest ↦ inr (rw (up, rest) refl)
  ]
]

unbound : {A B : Type 0} (o : Option A) (f : A → B) → (o >>= λ a. some (f a)) ≡ none → o ≡ none
unbound none f h = refl
unbound (some a) f h = absurd (ground (arith, h))

not_none : {A : Type 0} {a : A} → some a ≡ none → ⊥
not_none h = ground (arith, h)

worker_at :
    {J : Type 0} (ws : List (Worker J)) (i : ℕ)
    → i < length ws
    → (v : Worker J) × (get_elem? ws i ≡ some v)
worker_at [] i h = absurd (omega arith)
worker_at (v ∷ ws) zero h = (v, refl)
worker_at (v ∷ ws) (suc i) h = worker_at ws i (omega (arith, h))

module _ {J : Type 0} where
  abbrev pub CanMove : ℕ → Signalled J → Type 0
  CanMove room s = (t : Signalled J) × Own room s t

  -- The threads are tried in turn.
  try_workers :
      (room n : ℕ) (s : Signalled J)
      → CanMove room s ⊎ ((i : ℕ) → i < n → signal_turn room (works i) s ≡ none)
  try_workers room zero s = inr (λ i h. absurd (omega arith))
  try_workers room (suc n) s = elim (try_workers room n s) [
    | inl moves ↦ inl moves
    | inr tried ↦ elim (Option-cases (signal_turn room (works n) s)) [
      | inr (t, e) ↦ inl (t, record { by = works n; own = refl; made = e })
      | inl e ↦ inr (λ i h. elim (ℕ_discrete i n) [
        | yes same ↦ subst (λ k. signal_turn room (works k) s ≡ none) (sym same) e
        | no other ↦ tried i (omega arith)
      ])
    ]
  ]

  -- A signal that is on its way can be given.
  signal_given : (room m : ℕ) (s : Signalled J) → s.signals ≡ suc m → CanMove room s
  unfolding signal_turn cond_signal
  signal_given room m s e = elim (find_asleep (length s.pool.workers) s.asleep) [
    | inl (i, sleeps) ↦ (
      record s { asleep = put i false s.asleep; signals = m },
      record { by = signals_to i; own = refl; made = rw (e, sleeps) refl },
    )
    | inr up ↦ elim (Bool-cases (s.asleep 0)) [
      | inl sleeps ↦ (
        record s { asleep = put 0 false s.asleep; signals = m },
        record { by = signals_to 0; own = refl; made = rw (e, sleeps) refl },
      )
      | inr awake ↦ (
        record s { signals = m },
        record { by = signals_to 0; own = refl; made = rw (e, awake, up) refl },
      )
    ]
  ]

  -- Nobody can take a turn.
  pub record AtRest (room : ℕ) (s : Signalled J) : Type 0 where
    no_signal : s.signals ≡ 0
    no_read : turn room read s.pool ≡ none
    no_work : (i : ℕ) → i < length s.pool.workers → signal_turn room (works i) s ≡ none

  pub moves_or_rests : (room : ℕ) (s : Signalled J) → CanMove room s ⊎ AtRest room s
  unfolding signal_turn
  moves_or_rests room s = elim (Option-cases (signal_turn room reads s)) [
    | inr (t, e) ↦ inl (t, record { by = reads; own = refl; made = e })
    | inl quiet ↦ elim (try_workers room (length s.pool.workers) s) [
      | inl moves ↦ inl moves
      | inr tried ↦ sent s.signals refl quiet tried
    ]
  ]
    where
      sent :
          (m : ℕ)
          → s.signals ≡ m
          → (turn room read s.pool >>= λ p. some (record s { pool = p })) ≡ none
          → ((i : ℕ) → i < length s.pool.workers → signal_turn room (works i) s ≡ none)
          → CanMove room s ⊎ AtRest room s
      sent zero e quiet tried = inr (record {
        no_signal = e;
        no_read = unbound (turn room read s.pool) (λ p. record s { pool = p }) quiet;
        no_work = tried;
      })
      sent (suc m) e quiet tried = inl (signal_given room m s e)

  -- A worker that is awake and at rest neither waits for a job nor can work.
  stopped :
      (room i : ℕ) (s : Signalled J)
      → s.asleep i ≡ false
      → signal_turn room (works i) s ≡ none
      → (must_wait (get_elem? s.pool.workers i) s.pool.jobs ≡ false)
        × (turn room (work i) s.pool ≡ none)
  unfolding signal_turn wait_or_work
  stopped room i s up h =
      let slept : Option (Signalled J) = some (record s { asleep = put i true s.asleep }) in
      let worked : Option (Signalled J) =
        turn room (work i) s.pool >>= λ p. some (record s { pool = p }) in
      let waits = must_wait (get_elem? s.pool.workers i) s.pool.jobs in
      let stops : (if waits then slept else worked) ≡ none =
        subst (λ b. (if b then none else wait_or_work room i s) ≡ none) up h in
      elim (Bool-cases waits) [
        | inl e ↦ absurd (not_none (subst (λ b. (if b then slept else worked) ≡ none) e stops))
        | inr e ↦ (
          e,
          unbound (turn room (work i) s.pool) (λ p. record s { pool = p })
              (subst (λ b. (if b then slept else worked) ≡ none) e stops),
        )
      ]

  no_job : (i : ℕ) (js : List J) (p : Pool J) → pop_job i js p ≡ none → js ≡ []
  unfolding pop_job
  no_job i [] p h = refl
  no_job i (j ∷ js) p h = absurd (not_none h)

  idle_with_jobs :
      (room i : ℕ) (p : Pool J)
      → get_elem? p.workers i ≡ some idle
      → turn room (work i) p ≡ none
      → p.jobs ≡ []
  unfolding turn run_worker
  idle_with_jobs room i p at h = no_job i p.jobs p (subst (λ w. run_worker room i w p ≡ none) at h)

  -- A pool at rest is stuck, and its queue of jobs is empty.
  pub AtRest-Stuck : (room n : ℕ) (s : Signalled J) → Alert n s → AtRest room s → Stuck room s.pool
  AtRest-Stuck room n s a r = (
    λ i v at. elim (Bool-cases (s.asleep i)) [
      | inl sleeps ↦ inl (ground (arith, at, a.dozing i sleeps))
      | inr up ↦ inr (stopped room i s up (r.no_work i (in_range s.pool.workers i v at))).1
    ],
    r.no_read,
  )

  pub AtRest-no_jobs :
      (room n : ℕ) (s : Signalled J)
      → Alert n s
      → AtRest room s
      → ((i : ℕ) (v : Worker J) → get_elem? s.pool.workers i ≡ some v → v ≡ idle)
      → s.pool.jobs ≡ []
  AtRest-no_jobs room n s a r idles = elim a.ready [
    | inl none_left ↦ none_left
    | inr (inl sent) ↦ absurd (omega (arith, sent, r.no_signal))
    | inr (inr (i, lt, up)) ↦
        let (v, at) = worker_at s.pool.workers i (subst (λ k. i < k) (sym a.staff) lt) in
        idle_with_jobs room i s.pool
          (subst (λ u. get_elem? s.pool.workers i ≡ some u) (idles i v at) at)
          (stopped room i s up (r.no_work i (subst (λ k. i < k) (sym a.staff) lt))).1
  ]
