-- ===== src/Util/Pool/Alert.antt =====
-- No job waits for sleeping workers alone: `push` signals, and a worker sleeps only where it finds no job.
use geminidb.Prelude.{
  ℕ, zero, suc, ◌<◌, ◌≤◌, ◌≡◌, ◌≢◌, refl, sym, ap, subst, ◌∙◌, ◌⊎◌, inl, inr, Bool, true, false,
  Bool-cases, Option, none, some, Option-cases, List, [], ◌∷◌, ==-refl, get_elem?, length, arith,
}
use native.Mathlib.Decide.{dec_lt, ℕ_discrete}
use geminidb.Util.Pool.{
  Pool, Worker, idle, holding, finished, inserted, work, read, turn, push_job, start, run_worker,
}
use geminidb.Util.Pool.Moves.{turn_related}
use geminidb.Util.Pool.Steady.{opened}
use geminidb.Util.Pool.Moves.Stays.{in_range, Stays, Moves-Stays}
use geminidb.Util.Pool.Signals.{
  Signalled, SignalTurn, pushes, signals_to, wakes, works, reads, all_awake, put, must_wait,
  awake_from, cond_signal, wait_or_work, signal_turn, SignalReach, at_start, and_then,
}

pub put_there : (i : ℕ) (b : Bool) (asleep : ℕ → Bool) → put i b asleep i ≡ b
put_there i b asleep = rw (==-refl i) refl

pub put_elsewhere : (i k : ℕ) (b : Bool) (asleep : ℕ → Bool) → k ≢ i → put i b asleep k ≡ asleep k
put_elsewhere i k b asleep ne = ground arith

pub all_awake_lem :
    (n i : ℕ) (asleep : ℕ → Bool) → all_awake n asleep ≡ true → i < n → asleep i ≡ false
all_awake_lem zero i asleep h lt = absurd (omega arith)
all_awake_lem (suc n) i asleep h lt = elim (ℕ_discrete i n) [
  | yes same ↦ subst (λ k. asleep k ≡ false) (sym same) (ground (arith, h))
  | no other ↦ all_awake_lem n i asleep (ground (arith, h)) (omega arith)
]

put_awake : (i k : ℕ) (asleep : ℕ → Bool) → asleep k ≡ false → put i false asleep k ≡ false
put_awake i k asleep h = ground (arith, h)

module _ {J : Type 0} where
  -- A worker that sleeps waits for a job; and where there is a job, a signal is on its way or one of the
  -- workers is awake.
  pub record Alert (n : ℕ) (s : Signalled J) : Type 0 where
    pub staff : length s.pool.workers ≡ n
    pub dozing : (i : ℕ) → s.asleep i ≡ true → get_elem? s.pool.workers i ≡ some idle
    pub ready : (s.pool.jobs ≡ []) ⊎ ((0 < s.signals) ⊎ ((i : ℕ) × (i < n) × (s.asleep i ≡ false)))

  abbrev IsAlert : ℕ → Option (Signalled J) → Type 0
  IsAlert n none = Unit
  IsAlert n (some s) = Alert n s

  roused :
      (n i : ℕ) (s : Signalled J)
      → Alert n s
      → (k : ℕ) → put i false s.asleep k ≡ true
      → get_elem? s.pool.workers k ≡ some idle
  roused n i s a k h = elim (ℕ_discrete k i) [
    | yes same ↦ absurd (ground (arith, h, same, put_there i false s.asleep))
    | no other ↦ a.dozing k (sym (put_elsewhere i k false s.asleep other) ∙ h)
  ]

  pub waits_idle :
      (w : Option (Worker J)) (js : List J) → must_wait w js ≡ true → (w ≡ some idle) × (js ≡ [])
  waits_idle (some idle) [] h = (refl, refl)
  waits_idle (some idle) (j ∷ js) h = absurd (ground (arith, h))
  waits_idle (some (holding j)) js h = absurd (ground (arith, h))
  waits_idle (some (finished j)) js h = absurd (ground (arith, h))
  waits_idle (some inserted) js h = absurd (ground (arith, h))
  waits_idle none js h = absurd (ground (arith, h))

  no_worker : (ws : List (Worker J)) (i : ℕ) → length ws ≤ i → get_elem? ws i ≡ none
  no_worker [] i h = refl
  no_worker (v ∷ ws) zero h = absurd (omega arith)
  no_worker (v ∷ ws) (suc i) h = no_worker ws i (omega arith)

  pub not_there : (room i : ℕ) (p : Pool J) → length p.workers ≤ i → turn room (work i) p ≡ none
  unfolding turn run_worker
  not_there room i p h = rw (no_worker p.workers i h) refl

  worker_there :
      (room i : ℕ) (p : Pool J) {q : Pool J} → turn room (work i) p ≡ some q → i < length p.workers
  worker_there room i p {q} e = elim (dec_lt i (length p.workers)) [
    | yes lt ↦ lt
    | no beyond ↦ absurd (ground (arith, e, not_there room i p (omega arith)))
  ]

  cond_signal-IsAlert :
      (n i m : ℕ) (s : Signalled J)
      → 0 < n
      → s.signals ≡ m
      → Alert n s
      → IsAlert n (cond_signal i m s)
  unfolding cond_signal
  cond_signal-IsAlert n i zero s some_worker e a = tt
  cond_signal-IsAlert n i (suc m) s some_worker e a = elim (Bool-cases (s.asleep i)) [
    | inl sleeps ↦
        let awoken : Alert n (record s { asleep = put i false s.asleep; signals = m }) = record {
          staff = a.staff;
          dozing = roused n i s a;
          ready = inr (
              inr (
                i,
                subst (λ k. i < k) a.staff (in_range s.pool.workers i idle (a.dozing i sleeps)),
                put_there i false s.asleep,
              ));
        } in
        rw sleeps awoken
    | inr up ↦ elim (Bool-cases (all_awake (length s.pool.workers) s.asleep)) [
      | inl all ↦
          let lost : Alert n (record s { signals = m }) = record {
            staff = a.staff;
            dozing = a.dozing;
            ready = inr (
                inr (
                  0,
                  some_worker,
                  all_awake_lem (length s.pool.workers) 0 s.asleep all
                      (subst (λ k. 0 < k) (sym a.staff) some_worker),
                ));
          } in
          rw (up, all) lost
      | inr others ↦ rw (up, others) tt
    ]
  ]

  wait_or_work-IsAlert :
      (room n i : ℕ) (s : Signalled J)
      → s.asleep i ≡ false
      → Alert n s
      → IsAlert n (wait_or_work room i s)
  unfolding wait_or_work
  wait_or_work-IsAlert room n i s up a =
      elim (Bool-cases (must_wait (get_elem? s.pool.workers i) s.pool.jobs)) [
        | inl waits ↦
            let (is_idle, no_jobs) = waits_idle (get_elem? s.pool.workers i) s.pool.jobs waits in
            let slept : Alert n (record s { asleep = put i true s.asleep }) = record {
              staff = a.staff;
              dozing = λ k h. elim (ℕ_discrete k i) [
                | yes same ↦ subst (λ m. get_elem? s.pool.workers m ≡ some idle) (sym same) is_idle
                | no other ↦ a.dozing k (sym (put_elsewhere i k true s.asleep other) ∙ h)
              ];
              ready = inl no_jobs;
            } in
            rw waits slept
        | inr works_on ↦ elim (Option-cases (turn room (work i) s.pool)) [
          | inl e ↦ rw (works_on, e) tt
          | inr (q, e) ↦
              let (size, others) = turn_related room Stays (Moves-Stays room) e in
              let worked : Alert n (record s { pool = q }) = record {
                staff = size ∙ a.staff;
                dozing = λ k h. others k (λ same. ground (arith, h, same, up)) ∙ a.dozing k h;
                ready =
                    inr (inr (i, subst (λ k. i < k) a.staff (worker_there room i s.pool e), up));
              } in
              rw (works_on, e) worked
        ]
      ]

  signal_turn-IsAlert :
      (room n : ℕ) (t : SignalTurn J) (s : Signalled J)
      → 0 < n
      → Alert n s
      → IsAlert n (signal_turn room t s)
  unfolding signal_turn push_job
  signal_turn-IsAlert room n (pushes j) s some_worker a = record {
    staff = a.staff;
    dozing = a.dozing;
    ready = inr (inl (omega arith));
  }
  signal_turn-IsAlert room n (signals_to i) s some_worker a =
      cond_signal-IsAlert n i s.signals s some_worker refl a
  signal_turn-IsAlert room n (wakes i) s some_worker a = record {
    staff = a.staff;
    dozing = roused n i s a;
    ready = elim a.ready [
      | inl none_left ↦ inl none_left
      | inr (inl sent) ↦ inr (inl sent)
      | inr (inr (k, lt, up)) ↦ inr (inr (k, lt, put_awake i k s.asleep up))
    ];
  }
  signal_turn-IsAlert room n (works i) s some_worker a = elim (Bool-cases (s.asleep i)) [
    | inl sleeps ↦ rw sleeps tt
    | inr up ↦ rw up (wait_or_work-IsAlert room n i s up a)
  ]
  signal_turn-IsAlert room n reads s some_worker a = elim (Option-cases (turn room read s.pool)) [
    | inl e ↦ rw e tt
    | inr (q, e) ↦
        let (workers, jobs) = turn_related room Stays (Moves-Stays room) e in
        let taken : Alert n (record s { pool = q }) = record {
          staff = ap length workers ∙ a.staff;
          dozing = λ k h. ap (λ ws. get_elem? ws k) workers ∙ a.dozing k h;
          ready = elim a.ready [ inl none_left ↦ inl (jobs ∙ none_left) | inr others ↦ inr others ];
        } in
        rw e taken
  ]

  pub SignalReach-Alert :
      (room : ℕ) (answers : List Bool) {s : Signalled J}
      → 0 < length (opened {J = J} answers).workers
      → SignalReach room (awake_from answers) s
      → Alert (length (opened {J = J} answers).workers) s
  unfolding start
  SignalReach-Alert room answers some_worker at_start = record {
    staff = refl;
    dozing = λ i h. absurd (ground (arith, h));
    ready = inl refl;
  }
  SignalReach-Alert room answers some_worker (and_then {t} a r path e) =
      subst (IsAlert (length (opened answers).workers)) e (
        signal_turn-IsAlert room (length (opened answers).workers) a t some_worker
          (SignalReach-Alert room answers some_worker path))
