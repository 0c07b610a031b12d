-- ===== src/Event/Open.antt =====
-- internal/event/log.go: `open`, which loads, trims and compacts the events file.
use dicer.Prelude.{ℕ, Bool, true, false, Option, none, some, List, [], ◌==◌, nat_Eq, if◌then◌else◌}
use dicer.Event.Log.{Log, trim, default_max_count}
use dicer.Event.Writer.{Line, EventsFile, State, CompactResult, waiting, load, compact}

-- The log that `Open` has loaded, before it is trimmed. The limits are the configuration's,
-- where a `max_count` of 0 is unset.
unfoldable pub loaded_log : ℕ → ℕ → ℕ → List Line → Log
unfolding load
loaded_log max_count max_age buffer lines = record {
  max_count = if max_count == 0 then default_max_count else max_count;
  max_age = max_age;
  buffer = buffer;
  writes = [];
  events = load lines;
  recorded = 0;
  dropped = 0;
  dropped_through = 0;
  dropping = false;
  closed = false;
  recorded_after_close = false;
  subscriptions = [];
}

abbrev unopened : List Line → EventsFile
unopened lines = record {
  lines = lines;
  open_ = false;
  written = 0;
  compacted_through = 0;
  retry_at = 0;
}

or_error : Log → EventsFile × Bool → Option State
or_error l (f, true) = none
or_error l (f, false) = some (record { log = l; file = f; phase = waiting })

-- `Open`: load, trim and compact, with the result of that compaction; `none` is an error.
unfoldable pub open_log : ℕ → ℕ → ℕ → ℕ → List Line → CompactResult → Option State
unfolding compact or_error
open_log max_count max_age buffer now lines c =
    let kept = trim now (loaded_log max_count max_age buffer lines) in
    or_error kept (compact kept.events kept.recorded c (unopened lines))
