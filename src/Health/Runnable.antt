-- ===== src/Health/Runnable.antt =====
-- The check that an instance is run with is one that can be run.
use dicer.Prelude.{
  ℕ, zero, suc, ◌≡◌, refl, sym, ap, ◌∙◌, Bool, true, false, not, ◌||◌, Option, none, some, ◌==◌,
  nat_Eq, if◌then◌else◌, arith, Bool-cases, inl, inr, some_eq, subst,
}
use dicer.Errors.{Error}
use dicer.Health.{ℤ, pos, negsuc}
use dicer.Health.Check.{
  Check, or_then, refuse_if, validate, validate_enabled, validate_http, validate_tcp, probes,
  is_negative, or_default, with_defaults, run_with, effective_check,
}

abbrev IsPositive : ℤ → Type 0
IsPositive z = (n : ℕ) × (z ≡ pos (suc n))

abbrev IsNatural : ℤ → Type 0
IsNatural z = (n : ℕ) × (z ≡ pos n)

-- One probe that is valid, times that are positive, and at least one retry.
abbrev pub IsRunnable : Check → Type 0
IsRunnable c =
    (c.disabled ≡ false)
    × (probes c ≡ 1)
    × (validate_http c.http ≡ none)
    × (validate_tcp c.tcp ≡ none)
    × IsPositive c.interval
    × IsPositive c.timeout
    × IsNatural c.start_period
    × IsPositive c.retries

or_then-none : (e rest : Option Error) → or_then e rest ≡ none → (e ≡ none) × (rest ≡ none)
or_then-none none rest h = (refl, h)
or_then-none (some e) rest h = cc

refuse_if-none : (b : Bool) → refuse_if b ≡ none → b ≡ false
refuse_if-none true h = cc
refuse_if-none false h = refl

or-false : (a b : Bool) → (a || b) ≡ false → (a ≡ false) × (b ≡ false)
or-false true b h = cc
or-false false b h = (refl, h)

not_negative : (z : ℤ) → is_negative z ≡ false → IsNatural z
not_negative (pos n) h = (n, refl)
not_negative (negsuc n) h = cc

or_default-IsPositive :
    (d : ℕ) (z : ℤ) → is_negative z ≡ false → IsPositive (or_default (pos (suc d)) z)
or_default-IsPositive d (pos zero) h = (d, refl)
or_default-IsPositive d (pos (suc n)) h = (n, refl)
or_default-IsPositive d (negsuc n) h = cc

validate_enabled-Parts :
    (c : Check)
    → validate_enabled c ≡ none
    → (validate_http c.http ≡ none)
      × (validate_tcp c.tcp ≡ none)
      × (not (probes c == 1) ≡ false)
      × (is_negative c.interval ≡ false)
      × (is_negative c.timeout ≡ false)
      × (is_negative c.start_period ≡ false)
      × (is_negative c.retries ≡ false)
unfolding validate_enabled
validate_enabled-Parts c v =
    let (http, v1) = or_then-none (validate_http c.http) _ v in
    let (tcp, v2) = or_then-none (validate_tcp c.tcp) _ v1 in
    let (one, v3) = or_then-none (refuse_if (not (probes c == 1))) _ v2 in
    let (times, tries) =
      or_then-none
        (refuse_if (is_negative c.interval || is_negative c.timeout || is_negative c.start_period))
        _ v3 in
    let (rest, period) =
      or-false (is_negative c.interval || is_negative c.timeout) (is_negative c.start_period)
        (refuse_if-none _ times) in
    let (interval, timeout) = or-false (is_negative c.interval) (is_negative c.timeout) rest in
    (http, tcp, refuse_if-none _ one, interval, timeout, period, refuse_if-none _ tries)

enabled : (c : Check) → c.disabled ≡ false → validate c ≡ validate_enabled c
unfolding validate
enabled c d = ap (λ b. if b then none else validate_enabled c) d

with_defaults-IsRunnable :
    (c : Check) → c.disabled ≡ false → validate c ≡ none → IsRunnable (with_defaults c)
unfolding with_defaults
with_defaults-IsRunnable c d v =
    let (http, tcp, one, interval, timeout, period, retries) =
      validate_enabled-Parts c (sym (enabled c d) ∙ v) in
    (
      d,
      ground (arith, one),
      http,
      tcp,
      or_default-IsPositive _ c.interval interval,
      or_default-IsPositive _ c.timeout timeout,
      not_negative c.start_period period,
      or_default-IsPositive _ c.retries retries,
    )

run_with-on : (c : Check) → c.disabled ≡ false → run_with (some c) ≡ some (with_defaults c)
unfolding run_with
run_with-on c d = ap (λ b. if b then none else some (with_defaults c)) d

run_with-off : (c : Check) → c.disabled ≡ true → run_with (some c) ≡ none
unfolding run_with
run_with-off c d = ap (λ b. if b then none else some (with_defaults c)) d

-- What was given, if anything, is valid.
abbrev pub IsAccepted : Option Check → Type 0
IsAccepted none = Unit
IsAccepted (some c) = validate c ≡ none

run_with-IsRunnable :
    (given : Option Check) {c : Check} → IsAccepted given → run_with given ≡ some c → IsRunnable c
unfolding run_with
run_with-IsRunnable none v h = cc
run_with-IsRunnable (some g) v h = elim (Bool-cases g.disabled) [
  | inl y ↦ let e = sym (run_with-off g y) ∙ h in cc
  | inr n ↦ subst IsRunnable (some_eq (sym (run_with-on g n) ∙ h)) (with_defaults-IsRunnable g n v)
]

-- If the check of an instance and that of its image are valid or not there, the check that the
-- instance is run with, if any, is on, has one probe, which is valid, a positive interval, timeout
-- and number of retries, and no negative start period.
pub effective_check-IsRunnable :
    (own image : Option Check) {c : Check}
    → IsAccepted own
    → IsAccepted image
    → effective_check own image ≡ some c
    → IsRunnable c
unfolding effective_check
effective_check-IsRunnable none image v w h = run_with-IsRunnable image w h
effective_check-IsRunnable (some own) image v w h = run_with-IsRunnable (some own) v h
