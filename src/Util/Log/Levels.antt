-- ===== src/Util/Log/Levels.antt =====
-- The names of the levels.
use geminidb.Prelude.{
  ℕ, zero, suc, ◌≤◌, ◌≡◌, ◌≢◌, refl, sym, subst, inl, inr, true, false, Bool-cases, Octets, codes,
  octets_eq, octets_eq_iff, map, arith,
}
use geminidb.Prelude.Int.{pos}
use geminidb.Util.Text.{tolower}
use geminidb.Util.Log.{get_level, level_of, set_log_level, level_name}

-- A name that is one of the texts, or none of them.
module _ (s : Octets) where
  differs : (k : Octets) → octets_eq s k ≡ false → octets_eq k s ≡ false
  differs k h = ground (arith, octets_eq_iff s k, octets_eq_iff k s)

  differs_path : (k : Octets) → s ≢ k → octets_eq k s ≡ false
  differs_path k h = ground (arith, octets_eq_iff k s)

  known : (k : Octets) → octets_eq s k ≡ true → level_of k ≡ get_level k → level_of s ≡ get_level s
  known k e = subst (λ x. level_of x ≡ get_level x) (sym ((octets_eq_iff s k).0 e))

  -- `set_log_level` and `get_level` read every name in lower case as the same level, but for the
  -- name `none`.
  pub set_log_level-get_level : s ≢ codes "none" → map tolower s ≡ s → set_log_level s ≡ get_level s
  unfolding set_log_level level_of get_level octets_eq
  set_log_level-get_level named lower = rw lower (elim (Bool-cases (octets_eq s (codes "fatal"))) [
    | inl e ↦ known (codes "fatal") e refl
    | inr no_fatal ↦ elim (Bool-cases (octets_eq s (codes "error"))) [
      | inl e ↦ known (codes "error") e refl
      | inr no_error ↦ elim (Bool-cases (octets_eq s (codes "warn"))) [
        | inl e ↦ known (codes "warn") e refl
        | inr no_warn ↦ elim (Bool-cases (octets_eq s (codes "info"))) [
          | inl e ↦ known (codes "info") e refl
          | inr no_info ↦ elim (Bool-cases (octets_eq s (codes "debug"))) [
            | inl e ↦ known (codes "debug") e refl
            | inr no_debug ↦ elim (Bool-cases (octets_eq s (codes "trace"))) [
              | inl e ↦ known (codes "trace") e refl
              | inr no_trace ↦
                  rw
                    (
                      no_fatal,
                      no_error,
                      no_warn,
                      no_info,
                      no_debug,
                      no_trace,
                      differs (codes "fatal") no_fatal,
                      differs (codes "error") no_error,
                      differs (codes "warn") no_warn,
                      differs (codes "info") no_info,
                      differs (codes "debug") no_debug,
                      differs (codes "trace") no_trace,
                      differs_path (codes "none") named,
                    )
                    refl
            ]
          ]
        ]
      ]
    ]
  ])

pub get_level-level_name : (n : ℕ) → n ≤ 5 → get_level (level_name (pos n)) ≡ pos n
unfolding get_level level_name octets_eq
get_level-level_name zero h = refl
get_level-level_name (suc zero) h = refl
get_level-level_name (suc (suc zero)) h = refl
get_level-level_name (suc (suc (suc zero))) h = refl
get_level-level_name (suc (suc (suc (suc zero)))) h = refl
get_level-level_name (suc (suc (suc (suc (suc zero))))) h = refl
get_level-level_name (suc (suc (suc (suc (suc (suc n)))))) h = absurd (omega arith)
