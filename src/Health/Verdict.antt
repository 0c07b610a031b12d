-- ===== src/Health/Verdict.antt =====
-- The health that a monitor holds is what the results say.
use dicer.Prelude.{
  ℕ, ◌+◌, ◌≤◌, ◌≡◌, refl, Bool, false, not, ◌||◌, List, [], ◌∷◌, if◌then◌else◌, leb, filter, length,
}
use dicer.Text.{Runes, byte_length}
use dicer.Health.{ℤ, pos, negsuc, less}
use dicer.Health.Check.{Check}
use dicer.Health.Monitor.{
  ProbeResult, Status, status_starting, status_healthy, status_unhealthy, truncate_output,
  max_probe_output, Health, new_monitor, observe, observe_all,
}

abbrev pub magnitude : ℤ → ℕ
magnitude (pos n) = n
magnitude (negsuc n) = 0

-- The results since the last one that was healthy, which stands first here.
abbrev pub failures : List ProbeResult → List ProbeResult
failures [] = []
failures (r ∷ rs) = let rest = failures rs in if r.healthy then [] else r ∷ rest

abbrev pub ever_healthy : List ProbeResult → Bool
ever_healthy [] = false
ever_healthy (r ∷ rs) = r.healthy || ever_healthy rs

-- How many failures in a row are after the start period.
abbrev pub streak : ℕ → List ProbeResult → ℕ
streak end rs = length (filter (λ r. leb end r.at) (failures rs))

-- As many failures in a row as there are retries are unhealthy; else one success ever is healthy.
abbrev pub verdict : (end retries : ℕ) → List ProbeResult → Status
verdict end retries rs =
    if leb retries (streak end rs)
    then status_unhealthy
    else if ever_healthy rs
    then status_healthy
    else status_starting

module _ (c : Check) (started : ℕ) where
  abbrev pub end : ℕ
  end = started + magnitude c.start_period

  abbrev pub held : List ProbeResult → Health
  held rs = (observe_all (new_monitor c started) rs).health

  abbrev pub Judged : Health → List ProbeResult → Type 0
  Judged h rs =
      (h.status ≡ verdict end (magnitude c.retries) rs)
      × (h.failing_streak ≡ streak end rs)
      × (byte_length h.last_output ≤ max_probe_output)

  kept :
      (rs : List ProbeResult)
      → ((observe_all (new_monitor c started) rs).check ≡ c)
        × ((observe_all (new_monitor c started) rs).started_at ≡ started)
  unfolding observe
  kept [] = (refl, refl)
  kept (r ∷ rs) = kept rs

  -- The three branches of `after`.
  module _ (h : Health) (r : ProbeResult) (passed : ℤ) where
    abbrev output : Runes
    output = truncate_output max_probe_output r.output

    abbrev late_health : Health
    late_health = record {
      status =
          if not (less (pos (h.failing_streak + 1)) c.retries) then status_unhealthy else h.status;
      failing_streak = h.failing_streak + 1;
      last_check = r.at;
      last_output = output;
    }
