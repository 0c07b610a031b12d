-- ===== src/Health/Monitor.antt =====
-- internal/health/health.go: Health, After; monitor.go: Monitor, Observe.
use dicer.Prelude.{ℕ, ◌+◌, ◌-◌, Bool, not, List, [], ◌∷◌, leb, if◌then◌else◌}
use dicer.Text.{Runes, byte_length}
use dicer.Health.{ℤ, pos, less, since}
use dicer.Health.Check.{Check}

pub record ProbeResult : Type 0 where
  pub healthy : Bool
  pub output : Runes
  pub at : ℕ

pub data Status : Type 0 where
  status_starting status_healthy status_unhealthy : Status

pub record Health : Type 0 where
  pub status : Status
  pub failing_streak : ℕ
  pub last_check : ℕ
  pub last_output : Runes

-- `TruncateProbeOutput`, of the room left: the code points that fit.
unfoldable pub truncate_output : ℕ → Runes → Runes
unfolding byte_length
truncate_output room [] = []
truncate_output room (c ∷ s) =
    let rest = truncate_output (room - byte_length (c ∷ [])) s in
    if leb (byte_length (c ∷ [])) room then c ∷ rest else []

abbrev pub max_probe_output : ℕ
max_probe_output = 4096

abbrev pub new_health : Health
new_health = record {
  status = status_starting;
  failing_streak = 0;
  last_check = 0;
  last_output = [];
}

-- `Health.After`.
unfoldable pub after : Health → Check → ProbeResult → ℤ → Health
unfolding truncate_output
after h c r since_start =
    let output = truncate_output max_probe_output r.output in
    let same : Health = record {
      status = h.status;
      failing_streak = h.failing_streak;
      last_check = r.at;
      last_output = output;
    } in
    if r.healthy
    then record {
      status = status_healthy;
      failing_streak = 0;
      last_check = r.at;
      last_output = output;
    }
    else if less since_start c.start_period
    then same
    else record {
      status =
          if not (less (pos (h.failing_streak + 1)) c.retries) then status_unhealthy else h.status;
      failing_streak = h.failing_streak + 1;
      last_check = r.at;
      last_output = output;
    }

pub record Monitor : Type 0 where
  pub check : Check
  pub started_at : ℕ
  pub health : Health

abbrev pub new_monitor : Check → ℕ → Monitor
new_monitor check started_at = record {
  check = check;
  started_at = started_at;
  health = new_health;
}

-- `Monitor.Observe`: the health before, and the monitor with the health after.
unfoldable pub observe : Monitor → ProbeResult → Health × Monitor
unfolding after since
observe m r = (
  m.health,
  record {
    check = m.check;
    started_at = m.started_at;
    health = after m.health m.check r (since m.started_at r.at);
  },
)

-- Results are observed one after the other, under `mu`; the last one stands first.
abbrev pub observe_all : Monitor → List ProbeResult → Monitor
observe_all m [] = m
observe_all m (r ∷ results) = (observe (observe_all m results) r).1
