-- ===== src/Health/Tests.antt =====
-- Checks and results, and runs of the theorems.
use dicer.Prelude.{ℕ, ◌≡◌, refl, true, false, none, some, List, [], ◌∷◌}
use dicer.Text.{codes}
use dicer.Errors.{invalid_argument}
use dicer.Health.{pos}
use dicer.Health.Check.{Check, validate, with_defaults, effective_check}
use dicer.Health.Monitor.{ProbeResult, status_starting, status_healthy, status_unhealthy, observe}
use dicer.Health.Runnable.{IsRunnable, effective_check-IsRunnable}
use dicer.Health.Verdict.{held}

-- GET / on port 80, with a start period of ten seconds and two retries.
abbrev web : Check
web = record {
  exec = [];
  http = some (record { port = pos 80; path = codes "/" });
  tcp = none;
  interval = pos 0;
  timeout = pos 0;
  start_period = pos 10;
  retries = pos 2;
  disabled = false;
}

abbrev no_probe : Check
no_probe = record {
  exec = [];
  http = none;
  tcp = none;
  interval = pos 0;
  timeout = pos 0;
  start_period = pos 0;
  retries = pos 0;
  disabled = false;
}

web_valid : validate web ≡ none
unfolding validate
web_valid = refl

no_probe_invalid : validate no_probe ≡ some invalid_argument
unfolding validate
no_probe_invalid = refl

abbrev effective : Check
effective = with_defaults web

effective_own : effective_check (some web) none ≡ some effective
unfolding effective_check
effective_own = refl

abbrev passes : ℕ → ProbeResult
passes at = record { healthy = true; output = codes "200"; at = at }

abbrev fails : ℕ → ProbeResult
fails at = record { healthy = false; output = codes "503"; at = at }

-- Started at 100: a failure in the start period, a success, and two failures after the period.
abbrev results : List ProbeResult
results = fails 130 ∷ fails 120 ∷ passes 110 ∷ fails 105 ∷ []

early_failure : (held effective 100 (fails 105 ∷ [])).status ≡ status_starting
unfolding observe with_defaults
early_failure = refl

one_failure : (held effective 100 (fails 120 ∷ passes 110 ∷ [])).status ≡ status_healthy
unfolding observe with_defaults
one_failure = refl

two_failures : (held effective 100 results).status ≡ status_unhealthy
unfolding observe with_defaults
two_failures = refl

effective_check-IsRunnable_example : IsRunnable effective
effective_check-IsRunnable_example =
    effective_check-IsRunnable (some web) none web_valid tt effective_own
