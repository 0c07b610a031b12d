-- ===== src/Health.antt =====
-- internal/health: an instance's health, judged from the results of its probes.
pub mod Check
pub mod Monitor
pub mod Runnable
pub mod Verdict
mod Tests
use dicer.Prelude.{ℕ, zero, suc, ◌+◌, ◌-◌, Bool, true, false, leb, ltb, if◌then◌else◌}

-- Go's `int` and time.Duration, whose bounds no value here comes near.
pub data ℤ : Type 0 where
  pos negsuc : ℕ → ℤ

abbrev pub less : ℤ → ℤ → Bool
less (pos a) (pos b) = ltb a b
less (pos a) (negsuc b) = false
less (negsuc a) (pos b) = true
less (negsuc a) (negsuc b) = ltb b a

-- `at.Sub(started)`: times are numbers.
unfoldable pub since : ℕ → ℕ → ℤ
since started at = if leb started at then pos (at - started) else negsuc (started - at - 1)
