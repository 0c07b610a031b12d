-- ===== src/Instance/Backoff.antt =====
-- The delays between restarts, and how many there are.
use native.Mathlib.Nat.{pow-suc}
use dicer.Prelude.{
  ℕ, zero, suc, ◌+◌, ◌*◌, ◌^◌, ◌≤◌, ◌<◌, ◌≡◌, refl, ap, ◌∙◌, inl, inr, Bool, true, false, min, ltb,
  leb, if◌then◌else◌, arith, Bool-cases, List, [], ◌∷◌, ◌-◌, ◌⊎◌, All, length,
}
use dicer.Instance.Restart.{
  RestartMode, on_failure, RestartPolicy, restart_backoff_base, restart_backoff_max,
  restart_backoff_reset, double, backoff, wanted, counted, decide_restart,
}

pow-pos : (n : ℕ) → 0 < 2 ^ n
pow-pos zero = omega arith
pow-pos (suc n) = omega (arith, pow-suc 2 n, pow-pos n)

double_pow : (d n : ℕ) → d * 2 ^ suc n ≡ d * 2 * 2 ^ n
double_pow d n = grind (arith, pow-suc 2 n)

pow_grows : (d n : ℕ) → d ≤ d * 2 ^ n
pow_grows d n = grind (arith, pow-pos n)

-- The loop doubles up to the longest delay.
double-min : (n d : ℕ) → d ≤ restart_backoff_max → double n d ≡ min (d * 2 ^ n) restart_backoff_max
unfolding double
double-min zero d h = omega (arith, h)
double-min (suc n) d h = elim (Bool-cases (leb restart_backoff_max (d * 2))) [
  | inl over ↦
      let le : restart_backoff_max ≤ d * 2 = ground arith in
      rw over (omega (arith, le, double_pow d n, pow_grows (d * 2) n))
  | inr under ↦
      let lt : d * 2 ≤ restart_backoff_max = ground arith in
      rw under (omega (arith, double-min n (d * 2) lt, double_pow d n))
]

-- The delay before the next restart is a second doubled once for each restart in a row so far, and
-- five minutes at most.
pub backoff-min : (restarts : ℕ) → backoff restarts ≡ min (1000000000 * 2 ^ restarts) 300000000000
unfolding backoff
backoff-min restarts = double-min restarts restart_backoff_base (omega arith)

-- An end of an instance: whether it was clean, and how long the instance ran.
pub record End : Type 0 where
  pub clean : Bool
  pub ran_for : ℕ

-- How often the policy starts an instance again that ends again and again, from a count of
-- restarts in a row on; the first end that it leaves alone is the last.
unfoldable pub restarts_over : RestartPolicy → ℕ → List End → ℕ
restarts_over policy restarts [] = 0
restarts_over policy restarts (e ∷ ends) =
    let d = decide_restart policy e.clean restarts e.ran_for in
    let rest = restarts_over policy d.restarts ends in if d.restart then rest + 1 else 0

-- A failure soon after the start.
pub record FailsSoon (e : End) : Type 0 where
  pub unclean : e.clean ≡ false
  pub soon : e.ran_for < restart_backoff_reset

-- What is decided when a restart is wanted under a limit, by the restarts that count.
limit_step :
    (policy : RestartPolicy) (clean : Bool) (restarts ran_for counts : ℕ)
    → wanted policy.mode clean ≡ true
    → counted restarts ran_for ≡ counts
    → 0 < policy.max_retries
    → ((counts < policy.max_retries)
        × ((decide_restart policy clean restarts ran_for).restart ≡ true)
        × ((decide_restart policy clean restarts ran_for).restarts ≡ counts + 1))
      ⊎ ((policy.max_retries ≤ counts)
          × ((decide_restart policy clean restarts ran_for).restart ≡ false))
unfolding decide_restart
limit_step policy clean restarts ran_for counts w c pos =
    let limited : ltb 0 policy.max_retries ≡ true = ground arith in
    elim (Bool-cases (leb policy.max_retries counts)) [
      | inl over ↦ inr (ground arith, rw (decide_restart, w, c, limited, over) refl)
      | inr under ↦ inl (
        ground arith,
        rw (decide_restart, w, c, limited, under) refl,
        rw (decide_restart, w, c, limited, under) refl,
      )
    ]

on_failure_step :
    (policy : RestartPolicy) (restarts : ℕ) (e : End)
    → policy.mode ≡ on_failure
    → 0 < policy.max_retries
    → FailsSoon e
    → ((restarts < policy.max_retries)
        × ((decide_restart policy e.clean restarts e.ran_for).restart ≡ true)
        × ((decide_restart policy e.clean restarts e.ran_for).restarts ≡ restarts + 1))
      ⊎ ((policy.max_retries ≤ restarts)
          × ((decide_restart policy e.clean restarts e.ran_for).restart ≡ false))
unfolding wanted counted
on_failure_step policy restarts e m pos f =
    let w : wanted policy.mode e.clean ≡ true =
      ap (λ (x : RestartMode). wanted x e.clean) m ∙ ap (λ b. wanted on_failure b) f.unclean in
    let soon : leb restart_backoff_reset e.ran_for ≡ false = ground (arith, f.soon) in
    limit_step policy e.clean restarts e.ran_for restarts w (rw soon refl) pos

-- Under an on-failure policy with a limit, an instance that fails soon after each start is started
-- again at every end until the limit is reached, and then no more.
pub restarts_over-limit :
    (policy : RestartPolicy) (restarts : ℕ) (ends : List End)
    → policy.mode ≡ on_failure
    → 0 < policy.max_retries
    → All FailsSoon ends
    → restarts_over policy restarts ends ≡ min (length ends) (policy.max_retries - restarts)
unfolding restarts_over
restarts_over-limit policy restarts [] m pos h = omega arith
restarts_over-limit policy restarts (e ∷ ends) m pos (f, h) =
    elim (on_failure_step policy restarts e m pos f) [
      | inl (below, go, next) ↦
          rw (go, next)
            (omega (arith, below, restarts_over-limit policy (restarts + 1) ends m pos h))
      | inr (above, halt) ↦ rw halt (omega (arith, above))
    ]
