-- ===== src/Health/Check.antt =====
-- internal/health/health.go: Check, its validation and its defaults.
use dicer.Prelude.{
  ℕ, zero, suc, ◌+◌, Bool, false, not, ◌&&◌, ◌||◌, Option, none, some, List, [], ◌∷◌, ◌==◌, nat_Eq,
  if◌then◌else◌,
}
use dicer.Text.{Runes, runes_Eq}
use dicer.Errors.{Error, invalid_argument}
use dicer.Health.{ℤ, pos, negsuc, less}

pub record HttpProbe : Type 0 where
  pub port : ℤ
  pub path : Runes

pub record TcpProbe : Type 0 where
  pub port : ℤ

-- An unset probe is the empty command, or none.
pub record Check : Type 0 where
  pub exec : List Runes
  pub http : Option HttpProbe
  pub tcp : Option TcpProbe
  pub interval : ℤ
  pub timeout : ℤ
  pub start_period : ℤ
  pub retries : ℤ
  pub disabled : Bool

-- An early return; `none` is no error.
abbrev pub or_then : Option Error → Option Error → Option Error
or_then none rest = rest
or_then (some e) rest = some e

abbrev pub refuse_if : Bool → Option Error
refuse_if b = if b then some invalid_argument else none

unfoldable pub validate_port : ℤ → Option Error
validate_port port = refuse_if (less port (pos 1) || less (pos 65535) port)

abbrev pub starts_with_slash : Runes → Bool
starts_with_slash [] = false
starts_with_slash (c ∷ s) = c == b'/'

unfoldable pub validate_http : Option HttpProbe → Option Error
unfolding validate_port
validate_http none = none
validate_http (some p) =
    or_then (validate_port p.port)
      (refuse_if (not (p.path == []) && not (starts_with_slash p.path)))

unfoldable pub validate_tcp : Option TcpProbe → Option Error
unfolding validate_port
validate_tcp none = none
validate_tcp (some p) = validate_port p.port

abbrev pub one_if_any : {A : Type 0} → List A → ℕ
one_if_any [] = 0
one_if_any (x ∷ xs) = 1

abbrev pub one_if_some : {A : Type 0} → Option A → ℕ
one_if_some none = 0
one_if_some (some x) = 1

abbrev pub probes : Check → ℕ
probes c = one_if_any c.exec + one_if_some c.http + one_if_some c.tcp

abbrev pub is_negative : ℤ → Bool
is_negative z = less z (pos 0)

unfoldable pub validate_enabled : Check → Option Error
unfolding validate_http validate_tcp
validate_enabled c = or_then (validate_http c.http) (
    or_then (validate_tcp c.tcp) (
      or_then (refuse_if (not (probes c == 1))) (
        or_then
          (refuse_if
            (is_negative c.interval || is_negative c.timeout || is_negative c.start_period))
          (refuse_if (is_negative c.retries)))))

-- `Check.Validate`.
unfoldable pub validate : Check → Option Error
unfolding validate_enabled
validate c = if c.disabled then none else validate_enabled c

abbrev pub default_interval : ℤ
default_interval = pos 10000000000

abbrev pub default_timeout : ℤ
default_timeout = pos 5000000000

abbrev pub default_retries : ℤ
default_retries = pos 3

abbrev pub or_default : ℤ → ℤ → ℤ
or_default default (pos zero) = default
or_default default (pos (suc n)) = pos (suc n)
or_default default (negsuc n) = negsuc n

-- `Check.WithDefaults`, in nanoseconds.
unfoldable pub with_defaults : Check → Check
with_defaults c = record {
  exec = c.exec;
  http = c.http;
  tcp = c.tcp;
  interval = or_default default_interval c.interval;
  timeout = or_default default_timeout c.timeout;
  start_period = c.start_period;
  retries = or_default default_retries c.retries;
  disabled = c.disabled;
}

unfoldable pub run_with : Option Check → Option Check
unfolding with_defaults
run_with none = none
run_with (some c) = if c.disabled then none else some (with_defaults c)

-- `EffectiveCheck`.
unfoldable pub effective_check : Option Check → Option Check → Option Check
unfolding run_with
effective_check none image = run_with image
effective_check (some own) image = run_with (some own)
